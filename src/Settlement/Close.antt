-- ===== src/Settlement/Close.antt =====
-- The closes that make a batch of a period: `monthlyClose`, `ownerWeeklyClose` and
-- `householdMonthlyClose` of repositories/settlementRepository.ts, and the daily cycle of
-- services/settlementService.ts that calls the last two.
pub mod Unique
pub mod Fitting
pub mod Untouched
pub mod Once
pub mod Cycle
pub mod Due
pub mod Weekly
pub mod Complete
pub mod Hourly
use Prim.Native.String.{String}
use logestic.Prelude.{
  ℕ, zero, suc, ◌+◌, ◌-◌, Bool, true, false, not, ◌&&◌, ◌||◌, Option, none, some, List, [], ◌∷◌,
  ◌++◌, any, length, ◌==◌, ◌⊎◌, inl, inr, if◌then◌else◌, filter,
}
use mathlib.Core.List.{reverse}
use logestic.Prelude.Int.{ℤ}
use logestic.Prelude.Table.{Table, find, next_id, insert}
use logestic.Reasons.{Reason, rule_not_configured, record_not_found}
use logestic.Store.{
  Outcome, ok, refused, throws, Action, ◌>>=◌, ◌>>◌, pure, refuse, gets, or_refuse, or_throw,
  refuse_if, modify,
}
use logestic.Store.Batches
use logestic.Store.Batches.{
  Batch, BatchStatus, calculated, BatchType, owner_weekly, household_monthly, combined_legacy,
  settlement_batch,
}
use logestic.Store.Tables
use logestic.Store.Tables.{Db, Line, LineNote, PoolStatus, Event, TransactionType}
use logestic.Missions.{publish}
use logestic.Ledger.Post.{wallet_eq}
use logestic.Ledger.Split.{find_pool_by_mine_period}
use logestic.Pool.{PoolEnv, Distribution, distribute_pool, is_distributed}
use logestic.Settlement.Batch.{create_pending_approval_tasks, settlement_batch_approval_roles}
use logestic.Settlement.Period.{Period, month_bounds_utc, owner_period_bounds}
use logestic.Settlement.Eligible.{owner_lines, any_live, live_of_type, batch_type_eq, is_live}

-- What a close takes from the rest of the backend. The rules are `none` where the rule engine throws.
pub record CloseEnv : Type 0 where
  -- `settlement.owner_period_days` of a mine
  pub owner_period_days : ℕ → Option ℕ
  -- `getPeriodKey` at the end of a period, by mine
  pub period_key : ℕ → ℕ → Option ℕ
  pub pools : PoolEnv
  -- year, month from 1 and day in the time zone of the cycle
  pub local_date : ℕ → ℕ × ℕ × ℕ
  -- the ids of all mines
  pub mines : List ℕ

abbrev of_mine : ℕ → Batch → Bool
of_mine mine b = elim b.mine_id [ none ↦ false | some m ↦ m == mine ]

abbrev pub is_batch_of : ℕ → ℕ → BatchType → Batch → Bool
is_batch_of mine start type b =
    of_mine mine b
    && (b.period_start == start)
    && batch_type_eq b.batch_type type
    && is_live b.status

-- `findExistingBatch`
unfoldable pub exists_batch : ℕ → ℕ → BatchType → Db → Bool
exists_batch mine start type s = any (λ (_, b). is_batch_of mine start type b) s.batches

abbrev pub new_batch : ℕ → Period → BatchType → Option ℕ → Batch
new_batch mine p type user = record {
  mine_id = some mine;
  period_start = p.period_start;
  period_end = p.period_end;
  batch_type = type;
  status = calculated;
  created_by_user_id = user;
  locked_at = none;
  sent_to_bank_at = none;
  paid_at = none;
  payment_reference = none;
  failure_reason = none;
}

unfoldable pub insert_lines : List Line → Table Line → Table Line
insert_lines [] t = t
insert_lines (l ∷ ls) t = insert_lines ls (insert l t)

-- The batch and its lines are created by one nested write; its id is the next one.
unfoldable pub create_batch : Batch → (ℕ → List Line) → Action ℕ
unfolding insert_lines
create_batch b lines s =
    let i = next_id s.batches in
    (ok i, record s { batches = insert b s.batches; lines = insert_lines (lines i) s.lines })

abbrev pub is_distribution : ℕ → Tables.Transaction → Bool
is_distribution pool t =
    elim t.community_pool_id [ none ↦ false | some p ↦ p == pool ]
    && elim t.type [ TransactionType.pool_distribution ↦ true | _ ↦ false ]

abbrev is_pool_note : Option LineNote → Bool
is_pool_note none = false
is_pool_note (some LineNote.pool_distribution) = true
is_pool_note (some _) = false

abbrev pub has_pool_line : ℕ → Tables.Wallet → Table Line → Bool
has_pool_line batch w =
    any (λ (_, l). (l.batch_id == batch) && wallet_eq w l.wallet && is_pool_note l.note)

abbrev pub pool_line : ℕ → Tables.Transaction → Line
pool_line batch t = record {
  batch_id = batch;
  wallet = t.wallet;
  amount = t.amount;
  mission_id = none;
  hourly_work_log_id = none;
  note = some LineNote.pool_distribution;
}

-- The loop over the distributions: a wallet gets one line in the batch.
unfoldable pub append_lines : ℕ → List Tables.Transaction → Table Line → Table Line
append_lines batch [] t = t
append_lines batch (d ∷ ds) t =
    append_lines batch ds
      (if has_pool_line batch d.wallet t then t else insert (pool_line batch d) t)

-- `appendPoolDistributionLines`, with the number of lines that it gives; the oldest comes first.
unfoldable pub append_pool_distribution_lines : ℕ → ℕ → Action ℕ
unfolding append_lines
append_pool_distribution_lines batch pool s =
    let ds = reverse (filter (is_distribution pool) s.transactions) in
    (ok (length ds), record s { lines = append_lines batch ds s.lines })

-- A refusal is a value of the caller.
unfoldable pub attempt : {A : Type 0} → Action A → Action (Reason ⊎ A)
attempt m s =
    let (r, s') = m s in
    elim r [ ok a ↦ (ok (inr a), s') | refused e ↦ (ok (inl e), s') | throws e ↦ (throws e, s') ]

-- The time of a close's distribution is the end of its period.
abbrev pub pools_at : PoolEnv → Period → PoolEnv
pools_at env p = record env { at = p.period_end }

unfoldable pub request_approvals : ℕ → Action (Unit {0})
unfolding create_pending_approval_tasks
request_approvals i = modify (λ s. record s {
  approval_tasks =
      create_pending_approval_tasks (settlement_batch i) settlement_batch_approval_roles
        s.approval_tasks;
})

abbrev count_lines : ℕ → Db → ℕ
count_lines i s = length (filter (λ (_, l). l.batch_id == i) s.lines)

abbrev pub publish_calculated : ℕ → Action (Unit {0})
publish_calculated i = gets (count_lines i) >>= λ n. publish (Event.settlement_calculated i n)

-- A refusal of the distribution is passed over.
unfoldable pub append_if_distributed : ℕ → ℕ → Reason ⊎ Distribution → Action (Unit {0})
unfolding append_pool_distribution_lines
append_if_distributed i k (inl _) = pure tt
append_if_distributed i k (inr _) = append_pool_distribution_lines i k >> pure tt

-- The pool of the month is distributed where there is one.
unfoldable pub distribute_found : PoolEnv → ℕ → Option ℕ → Action (Unit {0})
unfolding attempt
distribute_found env i none = pure tt
distribute_found env i (some k) = attempt (distribute_pool env k) >>= append_if_distributed i k

unfoldable pub distribute_for_month : CloseEnv → ℕ → Period → ℕ → Action (Unit {0})
distribute_for_month env mine p i = do
  key ← or_throw (env.period_key mine p.period_end) rule_not_configured
  pool ← gets (λ s. find_pool_by_mine_period mine key s.pools)
  distribute_found (pools_at env.pools p) i pool

unfoldable pub monthly_close : CloseEnv → ℕ → ℕ → ℕ → Option ℕ → Action ℕ
unfolding exists_batch create_batch request_approvals
monthly_close env mine year month user = do
  let p = month_bounds_utc year month
  refuse_if (← gets (exists_batch mine p.period_start combined_legacy))
      Reason.batch_exists_for_period
  lines ← gets (λ s i. owner_lines any_live mine p i s)
  i ← create_batch (new_batch mine p combined_legacy user) lines
  distribute_for_month env mine p i
  request_approvals i
  publish_calculated i
  pure i

abbrev has_no_lines : List Line → Bool
has_no_lines [] = true
has_no_lines (_ ∷ _) = false

unfoldable pub owner_weekly_close : CloseEnv → ℕ → ℕ → Option ℕ → Action ℕ
unfolding exists_batch create_batch request_approvals
owner_weekly_close env mine at user = do
  days ← or_throw (env.owner_period_days mine) rule_not_configured
  let p = owner_period_bounds at days
  refuse_if (← gets (exists_batch mine p.period_start owner_weekly)) Reason.batch_exists_for_period
  lines ← gets (λ s i. owner_lines (live_of_type owner_weekly) mine p i s)
  refuse_if (has_no_lines (lines 0)) Reason.no_owner_lines_for_period
  i ← create_batch (new_batch mine p owner_weekly user) lines
  request_approvals i
  publish_calculated i
  pure i

-- A pool that is not distributed yet is distributed.
unfoldable pub distribute_unless_done : CloseEnv → Period → ℕ → Action (Unit {0})
distribute_unless_done env p k = do
  pool ← or_throw (← gets (λ s. find k s.pools)) record_not_found
  if is_distributed pool.status
      then pure tt
      else (distribute_pool (pools_at env.pools p) k >> pure tt)

abbrev delete_batch : ℕ → Db → Db
delete_batch i s = record s { batches = filter (λ (j, _). not (j == i)) s.batches }

-- A batch without a line is deleted.
unfoldable pub finish_household : ℕ → ℕ → Action ℕ
unfolding request_approvals
finish_household i n =
    if n == 0
    then (modify (delete_batch i) >> refuse Reason.no_household_lines_for_period)
    else (do request_approvals i; publish_calculated i; pure i)

unfoldable pub household_monthly_close : CloseEnv → ℕ → ℕ → ℕ → Option ℕ → Action ℕ
unfolding exists_batch create_batch append_pool_distribution_lines distribute_unless_done
    finish_household
household_monthly_close env mine year month user = do
  let p = month_bounds_utc year month
  refuse_if (← gets (exists_batch mine p.period_start household_monthly))
      Reason.batch_exists_for_period
  key ← or_throw (env.period_key mine p.period_end) rule_not_configured
  k ← or_refuse (← gets (λ s. find_pool_by_mine_period mine key s.pools)) Reason.pool_not_found
  distribute_unless_done env p k
  i ← create_batch (new_batch mine p household_monthly user) (λ _. [])
  n ← append_pool_distribution_lines i k
  finish_household i n

-- The flag `skipped` of a refusal.
abbrev pub is_skipped : Reason → Bool
is_skipped Reason.batch_exists_for_period = true
is_skipped Reason.no_owner_lines_for_period = true
is_skipped Reason.pool_not_found = true
is_skipped Reason.no_household_lines_for_period = true
is_skipped _ = false

pub record CycleEntry : Type 0 where
  pub mine_id : ℕ
  pub owner_weekly : Option ℕ
  pub household_monthly : Option ℕ
  pub skipped_owner : Option Reason
  pub skipped_household : Option Reason

abbrev batch_id_of : Reason ⊎ ℕ → Option ℕ
batch_id_of (inl _) = none
batch_id_of (inr i) = some i

abbrev skip_of : Reason ⊎ ℕ → Option Reason
skip_of (inl r) = if is_skipped r then some r else none
skip_of (inr _) = none

abbrev not_run : Reason ⊎ ℕ
not_run = inl Reason.missing

-- The month before the one of a date.
abbrev pub previous_month : ℕ → ℕ → ℕ × ℕ
previous_month year month = if month - 1 == 0 then (year - 1, 12) else (year, month - 1)

unfoldable pub run_mine : CloseEnv → ℕ → ℕ → Action CycleEntry
unfolding attempt owner_weekly_close household_monthly_close
run_mine env at mine = do
  let (year, month, day) = env.local_date at
  let (prev_year, prev_month) = previous_month year month
  owner ← attempt (owner_weekly_close env mine at none)
  household ←
      (if day == 1
        then attempt (household_monthly_close env mine prev_year prev_month none)
        else pure not_run)
  pure (record {
    mine_id = mine;
    owner_weekly = batch_id_of owner;
    household_monthly = batch_id_of household;
    skipped_owner = skip_of owner;
    skipped_household = skip_of household;
  })

unfoldable pub run_mines : CloseEnv → ℕ → List ℕ → Action (List CycleEntry)
unfolding run_mine
run_mines env at [] = pure []
run_mines env at (m ∷ ms) = do
  entry ← run_mine env at m
  entries ← run_mines env at ms
  pure (entry ∷ entries)

-- All mines, where none are named.
unfoldable pub run_daily_settlement_cycle : CloseEnv → ℕ → List ℕ → Action (List CycleEntry)
unfolding run_mines
run_daily_settlement_cycle env at [] = run_mines env at env.mines
run_daily_settlement_cycle env at (m ∷ ms) = run_mines env at (m ∷ ms)
