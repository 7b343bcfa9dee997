-- ===== src/Ledger/Split/Entries.antt =====
-- What the postings of a split add to the ledger.
use logestic.Prelude.{
  ℕ, Bool, true, false, some, ◌≡◌, sym, if◌then◌else◌, Bool-cases, ==_refl, inl, inr,
}
use logestic.Prelude.Int.{ℤ, pos, ◌+ℤ◌, ◌==ℤ◌, abs, add_of_zero, zero-+ℤ}
use logestic.Store.Tables.{Db, TransactionType, Description}
use logestic.Ledger.Post.{ledger_sum, of_mission, transaction_balance_delta}
use logestic.Ledger.Post.Sums.{ledger_sum-create, transactions-find_or_create}
use logestic.Ledger.Split.{post_owner, post_platform}

module _ (m : ℕ) (a : ℤ) (t : TransactionType)
    (signed : transaction_balance_delta t (abs a) ≡ a) where
  -- A posting of the platform's share for a mission adds it to the mission's sum.
  pub mission-post_platform :
      (d : Description) (s : Db)
      → ledger_sum (of_mission m) (post_platform (some m) a t d s).transactions
        ≡ a +ℤ ledger_sum (of_mission m) s.transactions
  unfolding post_platform
  mission-post_platform d s = elim (Bool-cases (a ==ℤ pos 0)) [
    | inl zero_amount ↦ rw zero_amount (add_of_zero a _ zero_amount)
    | inr posted ↦ rw (posted, ledger_sum-create, ==_refl, signed)
  ]

  -- A posting of the owner's share adds it, if the owner is active.
  pub mission-post_owner :
      (active : Bool) (o : ℕ) (d : Description) (s : Db)
      → ledger_sum (of_mission m) (post_owner active o (some m) a t d s).transactions
        ≡ (if active then a else pos 0) +ℤ ledger_sum (of_mission m) s.transactions
  unfolding post_owner
  mission-post_owner false o d s = sym (zero-+ℤ _)
  mission-post_owner true o d s = elim (Bool-cases (a ==ℤ pos 0)) [
    | inl zero_amount ↦ rw zero_amount (add_of_zero a _ zero_amount)
    | inr posted ↦ rw (posted, ledger_sum-create, ==_refl, signed, transactions-find_or_create)
  ]
