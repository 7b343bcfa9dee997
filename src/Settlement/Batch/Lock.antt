-- ===== src/Settlement/Batch/Lock.antt =====
-- What the lock of a batch requires and does: the approvals of two roles, and a locker who is none
-- of the approvers.
use logestic.Prelude.{
  ℕ, Bool, true, false, ◌&&◌, none, some, List, [], ◌∷◌, any, ◌==◌, ◌≡◌, ◌≢◌, inl, inr, arith,
  Bool-cases, Option-cases,
}
use logestic.Prelude.Table.{find, update}
use logestic.Roles.{UserRole}
use logestic.Store.{ok}
use logestic.Store.Batches.{Batch, BatchApproval}
use logestic.Store.Tables.{Db}
use logestic.Settlement.Batch.{
  lock_batch, approve_batch, has_all_settlement_approvals, approvals_of, is_open,
  mine_payment_required, lock, upsert_approval, same_key,
}

-- An approval of the batch in the role, by somebody else than the user.
pub data ApprovedByOther (i : ℕ) (role : UserRole) (user : ℕ) : List BatchApproval → Type 0 where
  here :
      (a : BatchApproval) (rest : List BatchApproval)
      → a.settlement_batch_id ≡ i
      → a.approver_role ≡ role
      → a.user_id ≢ user
      → ApprovedByOther i role user (a ∷ rest)
  there :
      (a : BatchApproval) (rest : List BatchApproval)
      → ApprovedByOther i role user rest
      → ApprovedByOther i role user (a ∷ rest)

abbrev by_user : ℕ → BatchApproval → Bool
by_user user a = a.user_id == user

record Passed (now i user : ℕ) (b : Batch) (s s' : Db) : Type 0 where
  pub was_open : is_open b.status ≡ true
  pub dual : has_all_settlement_approvals (approvals_of i s.batch_approvals) ≡ true
  pub outside : any (by_user user) (approvals_of i s.batch_approvals) ≡ false
  pub paid : mine_payment_required i s ≡ false
  pub batches : s'.batches ≡ update i (lock now) s.batches
  pub missions : s'.missions ≡ s.missions
  pub transactions : s'.transactions ≡ s.transactions
  pub payouts : s'.payouts ≡ s.payouts

passed :
    (now i user : ℕ) (s : Db) (b r : Batch)
    → find i s.batches ≡ some b
    → (lock_batch now i user s).0 ≡ ok r
    → Passed now i user b s (lock_batch now i user s).1
unfolding lock_batch
passed now i user s b r found h = ground arith

missing :
    (now i user : ℕ) (s : Db) (r : Batch)
    → find i s.batches ≡ none
    → (lock_batch now i user s).0 ≢ ok r
unfolding lock_batch
missing now i user s r e h = ground arith

and_left : (p q : Bool) → (p && q) ≡ true → p ≡ true
and_left p q h = ground arith

first_by_user :
    (i user : ℕ) (a : BatchApproval) (rest : List BatchApproval)
    → (a.settlement_batch_id == i) ≡ true
    → any (by_user user) (approvals_of i ((record a { user_id = user }) ∷ rest)) ≡ true
first_by_user i user a rest h = ground arith

later_by_user :
    (i user : ℕ) (a : BatchApproval) (rest : List BatchApproval)
    → any (by_user user) (approvals_of i rest) ≡ true
    → any (by_user user) (approvals_of i (a ∷ rest)) ≡ true
later_by_user i user a rest h = ground arith

upsert_by_user :
    (i : ℕ) (role : UserRole) (user : ℕ) (approvals : List BatchApproval)
    → any (by_user user) (approvals_of i (upsert_approval i role user approvals)) ≡ true
unfolding upsert_approval
upsert_by_user i role user [] = ground arith
upsert_by_user i role user (a ∷ rest) = elim (Bool-cases (same_key i role a)) [
  | inl same ↦ rw same (first_by_user i user a rest (and_left _ _ same))
  | inr other ↦ rw other (later_by_user i user a _ (upsert_by_user i role user rest))
]

approved :
    (i user : ℕ) (role : UserRole) (s : Db) (b : Batch)
    → (approve_batch i user role s).0 ≡ ok b
    → (approve_batch i user role s).1.batch_approvals
      ≡ upsert_approval i role user s.batch_approvals
unfolding approve_batch
approved i user role s b h = ground arith

-- Whoever has approved a batch does not lock it.
approver_never_locks :
    (i user : ℕ) (role : UserRole) (s : Db) (b : Batch)
    → (approve_batch i user role s).0 ≡ ok b
    → (now : ℕ) (r : Batch) → (lock_batch now i user (approve_batch i user role s).1).0 ≢ ok r
approver_never_locks i user role s b h now r locked =
    let s' = (approve_batch i user role s).1 in
    elim (Option-cases (find i s'.batches)) [
      | inl none_there ↦ missing now i user s' r none_there locked
      | inr (b', found) ↦
          let q = passed now i user s' b' r found locked in
          let mine : any (by_user user) (approvals_of i s'.batch_approvals) ≡ true =
            rw (approved i user role s b h) (upsert_by_user i role user s.batch_approvals) in
          cc
    ]
