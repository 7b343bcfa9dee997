-- ===== src/Hourly/Life.antt =====
-- The life of a log over any sequence of requests: what a request does to the table of logs.
use Prim.Native.String.{String}
use logestic.Prelude.{
  ℕ, true, false, not, ◌||◌, some, any, ◌≡◌, inl, inr, refl, arith, Option-cases,
}
use logestic.Prelude.Table.{Table, find, update, insert}
use logestic.Env.{Party}
use logestic.Store.{transaction}
use logestic.Store.Keeps.{
  Keeps, Keeps-guard, Keeps-found, Keeps-same, Keeps-bind, Keeps-transaction, Keeps-or_refuse,
  Keeps-or_throw, Keeps-refuse_if,
}
use logestic.Store.Batches.{HourlyLog, HourlyStatus, started, ended, approved, rejected}
use logestic.Store.Tables.{Db, platform, credit, hourly_owner, hourly_platform}
use logestic.Ledger.Post.{find_or_create_wallet, create_transaction}
use logestic.Ledger.Policy.{split_operational_with_policy, OperationalSplit}
use logestic.Ledger.Split.{
  post_owner, post_platform, split_operational, HourlySplitParams, apply_hourly_split_in_tx,
  Policies,
}
use logestic.Hourly.{
  HourlyEnv, StartParams, VerifyParams, start, end, verify, reject, is_active_log, has_active_log,
  hourly_status_eq, create_started_log, started_log, end_row, verify_row, reject_row,
  credit_hourly_shares, verify_in_tx, update_log, reject_in_tx,
}

-- The edges of the status.
pub data Step : HourlyStatus → HourlyStatus → Type 0 where
  ends : Step started ended
  approves : Step ended approved
  rejects : Step ended rejected
  rejects_pending : Step HourlyStatus.pending rejected

-- What a request may do to the table: nothing, a new STARTED log of a mission that has none, or a
-- step of one log, which keeps its mission.
pub data Changed (t : Table HourlyLog) : Table HourlyLog → Type 0 where
  same : Changed t t
  opened :
      (i : ℕ) (l : HourlyLog)
      → l.status ≡ started
      → l.mission_id ≡ some i
      → any (λ (_, x). is_active_log i x) t ≡ false
      → Changed t (insert l t)
  moved :
      (k : ℕ) (l : HourlyLog) (f : HourlyLog → HourlyLog)
      → find k t ≡ some l
      → Step l.status (f l).status
      → (f l).mission_id ≡ l.mission_id
      → Changed t (update k f t)

status_of_eq : (a b : HourlyStatus) → hourly_status_eq a b ≡ true → a ≡ b
status_of_eq a b e = ground arith

pub logs-posted :
    (p : HourlySplitParams) (r : OperationalSplit) (s : Db)
    → (post_platform p.mission_id r.platform_amount credit (hourly_platform p.hourly_work_log_id) (
        post_owner p.owner_active p.owner_id p.mission_id r.owner_amount credit
          (hourly_owner p.hourly_work_log_id)
          (find_or_create_wallet platform s))).hourly_logs
      ≡ s.hourly_logs
unfolding find_or_create_wallet create_transaction post_owner post_platform
logs-posted p r s = ground arith

module _ (o : Db) where
  abbrev pub P : Db → Type 0
  P s = Changed o.hourly_logs s.hourly_logs

  split-Keeps :
      (policies : Policies) (p : HourlySplitParams) (s : Db)
      → P s
      → Keeps P (apply_hourly_split_in_tx policies p s)
  unfolding apply_hourly_split_in_tx split_operational
  split-Keeps policies p s h = elim (Option-cases (policies p.mine_id p.cooperative_id)) [
    | inl e ↦ rw e (record { after = h })
    | inr (policy, e) ↦
        let r = split_operational_with_policy p.total_fare policy in
        let kept = logs-posted p r s in rw e (record { after = rw kept h })
  ]

  credit-Keeps :
      (env : HourlyEnv) (p : VerifyParams) (l : HourlyLog) (owner household : Party) (s : Db)
      → P s
      → Keeps P (credit_hourly_shares env p l owner household s)
  unfolding credit_hourly_shares
  credit-Keeps env p l owner household s h = search (Keeps-or_throw, split-Keeps) depth 20

  update-Keeps :
      (i : ℕ) (f : HourlyLog → HourlyLog) (l : HourlyLog)
      → find i o.hourly_logs ≡ some l
      → Step l.status (f l).status
      → (f l).mission_id ≡ l.mission_id
      → Keeps P (update_log i f o)
  unfolding update_log
  update-Keeps i f l row step mission =
      let before : P o = same in
      let after : P (record o { hourly_logs = update i f o.hourly_logs }) =
        moved i l f row step mission in
      search (Keeps-or_throw, Keeps-same) depth 10

  created :
      (env : HourlyEnv) (p : StartParams) (mine owner : ℕ)
      → any (λ (_, x). is_active_log p.mission_id x) o.hourly_logs ≡ false
      → Keeps P (create_started_log (started_log env p mine owner) o)
  unfolding create_started_log
  created env p mine owner free = record {
    after = opened p.mission_id (started_log env p mine owner) refl refl free;
  }

  pub start-Keeps : (env : HourlyEnv) (p : StartParams) → Keeps P (start env p o)
  unfolding start has_active_log
  start-Keeps env p =
      let before : P o = same in search (Keeps-or_refuse, Keeps-guard, created, before) depth 20

  is_ended : (l : HourlyLog) → not (hourly_status_eq l.status ended) ≡ false → l.status ≡ ended
  is_ended l e = status_of_eq l.status ended (ground arith)

  end_steps :
      (env : HourlyEnv) (i from : ℕ) (l : HourlyLog)
      → find i o.hourly_logs ≡ some l
      → not (hourly_status_eq l.status started) ≡ false
      → Keeps P (update_log i (end_row env.now from) o)
  end_steps env i from l row open_one =
      let e = status_of_eq l.status started (ground arith) in
      update-Keeps i (end_row env.now from) l row (rw e ends) refl

  pub end-Keeps : (env : HourlyEnv) (i : ℕ) → Keeps P (end env i o)
  unfolding end
  end-Keeps env i =
      let before : P o = same in
      search (Keeps-found, Keeps-guard, Keeps-or_refuse, end_steps, before) depth 20

  verify_steps :
      (env : HourlyEnv) (p : VerifyParams) (l : HourlyLog) (rate : ℕ) (owner household : Party)
      → find p.log_id o.hourly_logs ≡ some l
      → not (hourly_status_eq l.status ended) ≡ false
      → Keeps P (transaction (verify_in_tx env p l rate owner household) o)
  unfolding verify_in_tx
  verify_steps env p l rate owner household row over =
      let before : P o = same in
      let e = is_ended l over in
      let moves = update-Keeps p.log_id (verify_row env p rate) l row (rw e approves) refl in
      search (Keeps-transaction, Keeps-bind, moves, credit-Keeps, Keeps-same, before) depth 20

  pub verify-Keeps : (env : HourlyEnv) (p : VerifyParams) → Keeps P (verify env p o)
  unfolding verify
  verify-Keeps env p =
      let before : P o = same in
      search (Keeps-found, Keeps-guard, Keeps-or_refuse, verify_steps, before) depth 30

  reject_steps :
      (env : HourlyEnv) (i user : ℕ) (reason : String) (l : HourlyLog)
      → find i o.hourly_logs ≡ some l
      → not (hourly_status_eq l.status ended || hourly_status_eq l.status HourlyStatus.pending)
        ≡ false
      → Keeps P (transaction (reject_in_tx env i user reason l) o)
  unfolding reject_in_tx
  reject_steps env i user reason l row open_one =
      let before : P o = same in
      let steps = rejected_from l.status (ground arith) in
      let moves = update-Keeps i (reject_row user) l row steps refl in
      search (Keeps-transaction, Keeps-bind, moves, Keeps-same, before) depth 20
    where
      rejected_from :
          (a : HourlyStatus)
          → (hourly_status_eq a ended || hourly_status_eq a HourlyStatus.pending) ≡ true
          → Step a rejected
      rejected_from ended e = rejects
      rejected_from HourlyStatus.pending e = rejects_pending
      rejected_from started e = absurd (cc)
      rejected_from approved e = absurd (cc)
      rejected_from rejected e = absurd (cc)

  pub reject-Keeps :
      (env : HourlyEnv) (i user : ℕ) (reason : String) → Keeps P (reject env i user reason o)
  unfolding reject
  reject-Keeps env i user reason =
      let before : P o = same in
      search (Keeps-found, Keeps-guard, Keeps-refuse_if, reject_steps, before) depth 30
