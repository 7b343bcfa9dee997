-- ===== src/Hourly/Verified.antt =====
-- A verification that goes through leaves the log APPROVED, and it is never verified again.
use logestic.Prelude.{ℕ, some, List, ◌≡◌, inl, inr, refl, sym, ap, ◌∙◌, arith, Option-cases}
use logestic.Prelude.Table.{find, update, find-update_self}
use logestic.Reasons.{Reason}
use logestic.Env.{Party}
use logestic.Store.{Outcome, ok, refused, throws, Action, ◌>>=◌, pure, transaction}
use logestic.Store.Batches.{HourlyLog, approved}
use logestic.Store.Tables.{Db}
use logestic.Ledger.Policy.{OperationalSplit, split_operational_with_policy}
use logestic.Ledger.Split.{apply_hourly_split_in_tx, split_operational}
use logestic.Hourly.{
  HourlyEnv, VerifyParams, verify, verify_in_tx, verify_row, update_log, credit_hourly_shares,
  find_optional, hourly_fare, hourly_split_params,
}
use logestic.Hourly.Life.{logs-posted}
use logestic.Hourly.Once.{HourlyRequest, serve_all, final_stays}

credit-logs :
    (env : HourlyEnv) (p : VerifyParams) (l : HourlyLog) (owner household : Party) (s : Db)
    → (credit_hourly_shares env p l owner household s).1.hourly_logs ≡ s.hourly_logs
unfolding credit_hourly_shares apply_hourly_split_in_tx split_operational
credit-logs env p l owner household s = elim (Option-cases (env.hourly_rate l.mine_id)) [
  | inl e ↦ ground arith
  | inr (rate, e) ↦ elim (Option-cases (env.period_key l.mine_id household.cooperative_id)) [
    | inl e' ↦ ground arith
    | inr (period, e') ↦ elim (Option-cases (env.policies l.mine_id household.cooperative_id)) [
      | inl e'' ↦ ground arith
      | inr (policy, e'') ↦
          let r = split_operational_with_policy (hourly_fare p.billable_hours rate) policy in
          let kept = logs-posted (hourly_split_params p l rate owner household) r s in
          ground (arith, kept)
    ]
  ]
]

-- A body that ends with a value, after a step that keeps the logs.
logs_of_ok :
    (v : HourlyLog) (s t : Db) (m : Action OperationalSplit) (r : HourlyLog × OperationalSplit)
    → (m t).1.hourly_logs ≡ t.hourly_logs
    → let body : Action (HourlyLog × OperationalSplit) = λ _. (m >>= λ split. pure (v, split)) t in
      (transaction body s).0 ≡ ok r → (transaction body s).1.hourly_logs ≡ t.hourly_logs
logs_of_ok v s t m r kept done = go (m t) kept done
  where
    go :
        (x : Outcome OperationalSplit × Db)
        → x.1.hourly_logs ≡ t.hourly_logs
        → let body : Action (HourlyLog × OperationalSplit) =
            λ _. ((λ (_ : Db). x) >>= λ split. pure (v, split)) t in
          (transaction body s).0 ≡ ok r → (transaction body s).1.hourly_logs ≡ t.hourly_logs
    go (ok a, u) e h = e
    go (refused a, u) e h = absurd (cc)
    go (throws a, u) e h = absurd (cc)

module _ (env : HourlyEnv) (p : VerifyParams) (l : HourlyLog) (rate : ℕ) (owner household : Party)
    (s : Db) (row : find p.log_id s.hourly_logs ≡ some l) where
  abbrev approved_db : Db
  approved_db = record s { hourly_logs = update p.log_id (verify_row env p rate) s.hourly_logs }

  tx-run :
      verify_in_tx env p l rate owner household s
      ≡ (credit_hourly_shares env p l owner household >>= λ split.
            pure (verify_row env p rate l, split))
          approved_db
  unfolding verify_in_tx update_log
  tx-run = ground (arith, row)

  -- The transaction opens with its first write done.
  tx-same :
      transaction (verify_in_tx env p l rate owner household) s
      ≡ transaction
          (λ _.
            (credit_hourly_shares env p l owner household >>= λ split.
            pure (verify_row env p rate l, split))
              approved_db)
          s
  tx-same = ap (λ x. transaction (λ (_ : Db). x) s) tx-run

  tx-row :
      (r : HourlyLog × OperationalSplit)
      → (transaction (verify_in_tx env p l rate owner household) s).0 ≡ ok r
      → find p.log_id (transaction (verify_in_tx env p l rate owner household) s).1.hourly_logs
        ≡ some (verify_row env p rate l)
  tx-row r done =
      ap (λ x. find p.log_id x.1.hourly_logs) tx-same
      ∙ ap (find p.log_id) (
          logs_of_ok (verify_row env p rate l) s approved_db
            (credit_hourly_shares env p l owner household) r
            (credit-logs env p l owner household approved_db) (sym (ap (λ x. x.0) tx-same) ∙ done))
      ∙ find-update_self p.log_id (verify_row env p rate) s.hourly_logs row

abbrev IsApproved : ℕ → Db → Type 0
IsApproved i s = (l : HourlyLog) × (find i s.hourly_logs ≡ some l) × (l.status ≡ approved)

ok_row :
    (env : HourlyEnv) (p : VerifyParams) (s : Db) (r : HourlyLog × OperationalSplit)
    → (verify env p s).0 ≡ ok r
    → IsApproved p.log_id (verify env p s).1
unfolding verify
ok_row env p s r done = elim (Option-cases (find p.log_id s.hourly_logs)) [
  | inl e ↦ absurd (ground arith)
  | inr (l, row) ↦ elim (Option-cases l.raw_hours) [
    | inl e ↦ absurd (ground arith)
    | inr (raw, measured) ↦ elim (Option-cases (env.hourly_rate l.mine_id)) [
      | inl e ↦ absurd (ground arith)
      | inr (rate, priced) ↦ elim (Option-cases (env.find_fleet_owner l.fleet_owner_id)) [
        | inl e ↦ absurd (ground arith)
        | inr (owner, owned) ↦
            elim (Option-cases (find_optional env.find_household l.household_id)) [
              | inl e ↦ absurd (ground arith)
              | inr (household, housed) ↦
                  let run : verify env p s
                      ≡ transaction (verify_in_tx env p l rate owner household) s =
                    ground arith in
                  (
                    verify_row env p rate l,
                    ap (λ x. find p.log_id x.1.hourly_logs) run
                        ∙ tx-row env p l rate owner household s row r
                            (sym (ap (λ x. x.0) run) ∙ done),
                    refl,
                  )
            ]
      ]
    ]
  ]
]

refused_approved :
    (env : HourlyEnv) (p : VerifyParams) (s : Db) (l : HourlyLog)
    → find p.log_id s.hourly_logs ≡ some l
    → l.status ≡ approved
    → verify env p s ≡ (refused Reason.invalid_log, s)
unfolding verify
refused_approved env p s l row over = ground arith

-- After a verification that goes through, over any sequence of requests, each further verification of
-- the log is refused and writes nothing.
pub verified_once :
    (env : HourlyEnv) (p : VerifyParams) (s : Db) (r : HourlyLog × OperationalSplit)
    → (verify env p s).0 ≡ ok r
    → (rs : List HourlyRequest) (env' : HourlyEnv) (p' : VerifyParams) → p'.log_id ≡ p.log_id
    → let s' = serve_all rs (verify env p s).1 in
      verify env' p' s' ≡ (refused Reason.invalid_log, s')
unfolding verify
verified_once env p s r done rs env' p' same_log =
    let (l, row, over) = ok_row env p s r done in
    let kept = final_stays rs (verify env p s).1 p.log_id l row (rw over refl) in
    let found = ap (λ i. find i (serve_all rs (verify env p s).1).hourly_logs) same_log ∙ kept in
    refused_approved env' p' (serve_all rs (verify env p s).1) l found over
