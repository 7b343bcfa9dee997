-- ===== src/Pool/Shares.antt =====
-- The arithmetic of a distribution, and what the loop over the households posts.
use logestic.Prelude.{
  ℕ, suc, ◌+◌, ◌*◌, ◌/◌, ◌≤◌, ◌<◌, Bool, false, none, some, List, [], ◌∷◌, length, ◌≡◌, ◌==◌,
  ==_refl, Bool-cases, inl, inr, if◌then◌else◌, arith,
}
use logestic.Prelude.Int.{pos, ◌+ℤ◌, int_laws}
use logestic.Prelude.Rounding.{scale, floor_div}
use logestic.Store.Tables.{Db, Transaction, household}
use logestic.Ledger.Post.{ledger_sum, of_wallet, get_wallet_balance}
use logestic.Ledger.Post.Sums.{ledger_sum-create, transactions-find_or_create}
use logestic.Pool.{pay_households, per_household}

-- The transactions of a pool.
abbrev pub of_pool : ℕ → Transaction → Bool
of_pool i t = elim t.community_pool_id [ none ↦ false | some k ↦ i == k ]

-- How often a household stands in the snapshot.
abbrev pub count : ℕ → List ℕ → ℕ
count h [] = 0
count h (x ∷ xs) = if h == x then suc (count h xs) else count h xs

-- The share in hundredths, for a total in hundredths.
abbrev pub share : ℕ → ℕ → ℕ
share total n = 100 * (total / (100 * n))

pub per_household_pos : (total n : ℕ) → per_household (pos total) n ≡ pos (share total n)
unfolding floor_div scale
per_household_pos total n = ground arith

-- The shares of n households leave from nothing to less than a rial for each household.
pub share_bounds :
    (total n : ℕ) → 0 < n → (n * share total n ≤ total) × (total < n * share total n + 100 * n)
share_bounds total n h = grind arith

pub ledger_sum-pay_households :
    (i per : ℕ) (hs : List ℕ) (s : Db)
    → ledger_sum (of_pool i) (pay_households i (pos per) hs s).transactions
      ≡ pos (length hs * per) +ℤ ledger_sum (of_pool i) s.transactions
unfolding pay_households
ledger_sum-pay_households i per [] s = omega int_laws
ledger_sum-pay_households i per (h ∷ hs) s =
    rw (ledger_sum-pay_households i per hs, ledger_sum-create, ==_refl, transactions-find_or_create)
      (omega int_laws)

household_sum-pay_households :
    (i per h : ℕ) (hs : List ℕ) (s : Db)
    → ledger_sum (of_wallet (household h)) (pay_households i (pos per) hs s).transactions
      ≡ pos (count h hs * per) +ℤ ledger_sum (of_wallet (household h)) s.transactions
unfolding pay_households
household_sum-pay_households i per h [] s = omega int_laws
household_sum-pay_households i per h (x ∷ hs) s = elim (Bool-cases (h == x)) [
  | inl paid ↦
      rw
        (
          household_sum-pay_households i per h hs,
          ledger_sum-create,
          transactions-find_or_create,
          paid,
        )
        (omega int_laws)
  | inr other ↦
      rw
        (
          household_sum-pay_households i per h hs,
          ledger_sum-create,
          transactions-find_or_create,
          other,
        )
        (omega int_laws)
]

-- The balance of a household grows by a share for each time that it stands in the snapshot.
pub balance-pay_households :
    (i per h : ℕ) (hs : List ℕ) (s : Db)
    → get_wallet_balance (household h) (pay_households i (pos per) hs s)
      ≡ pos (count h hs * per) +ℤ get_wallet_balance (household h) s
unfolding get_wallet_balance
balance-pay_households i per h hs s = household_sum-pay_households i per h hs s
