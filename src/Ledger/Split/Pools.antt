-- ===== src/Ledger/Split/Pools.antt =====
-- What a contribution does to the pools: it never fails, and writes nothing else.
use logestic.Prelude.{
  ℕ, Bool, true, false, not, ◌&&◌, none, some, [], ◌∷◌, ◌≡◌, refl, ◌==◌, if◌then◌else◌, arith,
  Bool-cases, Option-cases, inl, inr,
}
use logestic.Prelude.Int.{ℤ, pos, ◌+ℤ◌, ◌==ℤ◌, int_laws, zero_parts}
use logestic.Prelude.Table.{Table, find, update, next_id, insert, find-insert_self}
use logestic.Store.{ok, ◌>>=◌}
use logestic.Store.Tables.{Db, Pool}
use logestic.Ledger.Split.{
  find_pool_by_mine_period, new_pool, add_total, contribute, get_or_create_open_pool,
  add_to_pool_total,
}

-- The total of the pool of a mine and a period; nothing where there is none.
abbrev pub has_key : ℕ → ℕ → Pool → Bool
has_key mine period p =
    elim p.mine_id [ none ↦ false | some m ↦ m == mine ] && p.period_key == period

unfoldable pub pool_total : ℕ → ℕ → Table Pool → ℤ
pool_total mine period [] = pos 0
pool_total mine period ((i, p) ∷ t) =
    if has_key mine period p then p.total_amount else pool_total mine period t

find-find_pool :
    (mine period : ℕ) (t : Table Pool) (i : ℕ)
    → find_pool_by_mine_period mine period t ≡ some i
    → (p : Pool) × (find i t ≡ some p)
unfolding find_pool_by_mine_period find
find-find_pool mine period [] i h = cc
find-find_pool mine period ((j, p) ∷ t) i h = elim (Bool-cases (i == j)) [
  | inl here ↦ (p, rw here)
  | inr later ↦ let (q, e) = find-find_pool mine period t i (ground arith) in (q, rw later e)
]

total-update :
    (mine period : ℕ) (amount : ℤ) (t : Table Pool) (i : ℕ)
    → find_pool_by_mine_period mine period t ≡ some i
    → pool_total mine period (update i (add_total amount) t) ≡ pool_total mine period t +ℤ amount
unfolding find_pool_by_mine_period pool_total update
total-update mine period amount [] i h = cc
total-update mine period amount ((j, p) ∷ t) i h =
    ground (arith, total-update mine period amount t i)

total_none :
    (mine period : ℕ) (t : Table Pool)
    → find_pool_by_mine_period mine period t ≡ none
    → pool_total mine period t ≡ pos 0
unfolding find_pool_by_mine_period pool_total
total_none mine period [] h = refl
total_none mine period ((j, p) ∷ t) h = ground (arith, total_none mine period t)

total-insert :
    (mine period : ℕ) (amount : ℤ) (t : Table Pool)
    → pool_total mine period
        (update (next_id t) (add_total amount) (insert (new_pool mine period) t))
      ≡ pos 0 +ℤ amount
unfolding pool_total update insert
total-insert mine period amount t = ground arith

-- The pools after a contribution that is made.
pub contributed : ℕ → ℕ → ℤ → Table Pool → Table Pool
contributed mine period amount t = elim (find_pool_by_mine_period mine period t) [
  | some i ↦ update i (add_total amount) t
  | none ↦ update (next_id t) (add_total amount) (insert (new_pool mine period) t)
]

total-contributed :
    (mine period : ℕ) (amount : ℤ) (t : Table Pool)
    → pool_total mine period (contributed mine period amount t) ≡ pool_total mine period t +ℤ amount
unfolding contributed
total-contributed mine period amount t =
    elim (Option-cases (find_pool_by_mine_period mine period t)) [
      | inl missing ↦
          rw (missing, contributed) (rw (total-insert, total_none mine period t missing))
      | inr (i, found) ↦ rw (found, contributed) (total-update mine period amount t i found)
    ]

abbrev pub pools_after : Bool → ℕ → ℕ → ℤ → Table Pool → Table Pool
pools_after active mine period amount t =
    if active && not (amount ==ℤ pos 0) then contributed mine period amount t else t

contribute_made :
    (mine period : ℕ) (amount : ℤ) (s : Db)
    → (get_or_create_open_pool mine period >>= λ i. add_to_pool_total i amount) s
      ≡ (ok tt, record s { pools = contributed mine period amount s.pools })
unfolding get_or_create_open_pool add_to_pool_total contributed
contribute_made mine period amount s =
    elim (Option-cases (find_pool_by_mine_period mine period s.pools)) [
      | inl missing ↦ ground (arith, find-insert_self (new_pool mine period) s.pools)
      | inr (i, found) ↦ ground (arith, (find-find_pool mine period s.pools i found).1)
    ]

-- A contribution never fails, and writes the pools only.
pub contribute_lem :
    (active : Bool) (mine period : ℕ) (amount : ℤ) (s : Db)
    → contribute active mine period amount s
      ≡ (ok tt, record s { pools = pools_after active mine period amount s.pools })
unfolding contribute
contribute_lem active mine period amount s = ground (arith, contribute_made mine period amount s)

-- It raises the total of its pool by the amount, where the household is active.
pub pool_total-pools_after :
    (active : Bool) (mine period : ℕ) (amount : ℤ) (t : Table Pool)
    → pool_total mine period (pools_after active mine period amount t)
      ≡ pool_total mine period t +ℤ (if active then amount else pos 0)
pool_total-pools_after false mine period amount t = omega int_laws
pool_total-pools_after true mine period amount t = elim (Bool-cases (amount ==ℤ pos 0)) [
  | inl zero_amount ↦ rw zero_amount (omega (int_laws, zero_parts amount zero_amount))
  | inr made ↦ rw made (total-contributed mine period amount t)
]
