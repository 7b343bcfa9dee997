-- ===== src/Weighbridge/Approve/Laws.antt =====
-- What an approval at the weighbridge does: all of it or nothing, and never twice.
use logestic.Prelude.{ℕ, ◌≡◌, ◌≢◌, refl, arith, ◌⊎◌}
use logestic.Reasons.{Reason, community_requires_verified_weight_error}
use logestic.Roles.{UserRole}
use logestic.Store.Atomic.{
  Atomic, done, unchanged_refused, unchanged_throws, Atomic-or_refuse, Atomic-refuse_if,
  Atomic-bind, ok_or_same,
}
use logestic.Store.{Outcome, transaction, ok, refused, throws}
use logestic.Store.Tables.{Db, Ticket, Mission, Load}
use logestic.Ledger.Split.{MissionSplitResult}
use logestic.Ledger.Split.{update_mission_row}
use logestic.Ledger.Split.Effect.{apply_mission_split-ne-refused}
use logestic.Weighbridge.Submit.{update_ticket_row}
use logestic.Env.{Env, Party, Fare}
use logestic.Missions.{get_mission_by_id}
use logestic.Weighbridge.Approve.{
  weighbridge_approve, approve_in_tx, catch_weight_error, credit_mission_shares,
}

-- The transaction's body never refuses.
in_tx-ne-refused :
    (env : Env) (i user : ℕ) (t : Ticket) (m : Mission) (l : Load) (o h : Party) (f : Fare) (s : Db)
    (e : Reason)
    → (approve_in_tx env i user t m l o h f s).0 ≢ refused e
unfolding approve_in_tx update_ticket_row update_mission_row credit_mission_shares
in_tx-ne-refused env i user t m l o h f s e r = grind (arith, apply_mission_split-ne-refused)

-- A transaction whose body never refuses is atomic, also under the `catch`.
Atomic-catch :
    {A : Type 0} (r : Outcome A × Db) (s : Db)
    → ((e : Reason) → r.0 ≢ refused e)
    → Atomic s (catch_weight_error (transaction (λ _. r)) s)
Atomic-catch (ok a, s') s never = done a s'
Atomic-catch (refused e, s') s never = absurd (never e refl)
Atomic-catch (throws community_requires_verified_weight_error, s') s never =
    unchanged_refused Reason.community_requires_verified_weight
Atomic-catch (throws e, s') s never = unchanged_throws e

module _ (env : Env) (i user : ℕ) (role : UserRole) (s : Db) where
  Atomic-tx :
      (t : Ticket) (m : Mission) (l : Load) (o h : Party) (f : Fare)
      → Atomic s (catch_weight_error (transaction (approve_in_tx env i user t m l o h f)) s)
  Atomic-tx t m l o h f =
      Atomic-catch (approve_in_tx env i user t m l o h f s) s
        (in_tx-ne-refused env i user t m l o h f s)

  weighbridge_approve-Atomic : Atomic s (weighbridge_approve env i user role s)
  unfolding weighbridge_approve get_mission_by_id
  weighbridge_approve-Atomic =
      search (Atomic-or_refuse, Atomic-refuse_if, Atomic-bind, Atomic-tx, done) depth 30

  -- An approval either succeeds, or it leaves the database as it was, whatever it is refused for or throws.
  pub approve_atomic :
      let (outcome, s') = weighbridge_approve env i user role s in
      ((r : MissionSplitResult) × (outcome ≡ ok r)) ⊎ (s' ≡ s)
  approve_atomic = ok_or_same _ weighbridge_approve-Atomic
