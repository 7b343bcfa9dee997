-- ===== src/Hourly/Credits.antt =====
-- What the verification of an hourly log credits, and that it does so once.
use logestic.Prelude.{
  ℕ, ◌≤◌, ◌*◌, Bool, true, false, Option, some, ◌==◌, ==_refl, ◌≡◌, inl, inr, refl, sym, ap, ◌∙◌,
  arith, Bool-cases, if◌then◌else◌,
}
use logestic.Prelude.Int.{
  ℤ, pos, pos_part, neg_part, ◌+ℤ◌, ◌≤ℤ◌, leb_ℤ, ◌==ℤ◌, add_of_zero, zero-+ℤ, int_laws,
}
use logestic.Prelude.Table.{find, update, find-update_self}
use logestic.Env.{Party}
use logestic.Store.{ok}
use logestic.Store.Batches.{HourlyLog, ended}
use logestic.Store.Tables
use logestic.Store.Tables.{Db, Description, hourly_owner, hourly_platform, credit, platform}
use logestic.Ledger.Policy.{FinancePolicy, OperationalSplit, split_operational_with_policy}
use logestic.Ledger.Policy.Bounds.{split-add, split-nonneg}
use logestic.Ledger.Post.{ledger_sum, find_or_create_wallet}
use logestic.Ledger.Post.Sums.{credit_of_nonneg, transactions-find_or_create, ledger_sum-create}
use logestic.Ledger.Split.{post_owner, post_platform, apply_hourly_split_in_tx, split_operational}
use logestic.Hourly.{
  HourlyEnv, VerifyParams, verify, verify_in_tx, verify_row, update_log, credit_hourly_shares,
  find_optional, hourly_fare, hourly_split_params,
}
use logestic.Hourly.Life.{logs-posted}

-- The postings of the log.
abbrev pub of_log : ℕ → Tables.Transaction → Bool
of_log i t = elim t.description [ hourly_owner j ↦ j == i | hourly_platform j ↦ j == i | _ ↦ false ]

module _ (m : Option ℕ) (i : ℕ) (a : ℤ) (nonneg : pos 0 ≤ℤ a) where
  log-post_platform :
      (s : Db)
      → ledger_sum (of_log i) (post_platform m a credit (hourly_platform i) s).transactions
        ≡ a +ℤ ledger_sum (of_log i) s.transactions
  unfolding post_platform
  log-post_platform s =
      let signed = credit_of_nonneg a nonneg in
      elim (Bool-cases (a ==ℤ pos 0)) [
        | inl zero_amount ↦ rw zero_amount (add_of_zero a _ zero_amount)
        | inr posted ↦ rw (posted, ledger_sum-create, ==_refl, signed)
      ]

  log-post_owner :
      (active : Bool) (o : ℕ) (s : Db)
      → ledger_sum (of_log i) (post_owner active o m a credit (hourly_owner i) s).transactions
        ≡ (if active then a else pos 0) +ℤ ledger_sum (of_log i) s.transactions
  unfolding post_owner
  log-post_owner false o s = sym (zero-+ℤ _)
  log-post_owner true o s =
      let signed = credit_of_nonneg a nonneg in
      elim (Bool-cases (a ==ℤ pos 0)) [
        | inl zero_amount ↦ rw zero_amount (add_of_zero a _ zero_amount)
        | inr posted ↦ rw (posted, ledger_sum-create, ==_refl, signed, transactions-find_or_create)
      ]

-- The row and the ledger after a verification that goes through.
pub record Verified (env : HourlyEnv) (p : VerifyParams) (l : HourlyLog) (rate : ℕ) (owner : Party)
    (r : OperationalSplit) (s s' : Db) : Type 0 where
  pub row : find p.log_id s'.hourly_logs ≡ some (verify_row env p rate l)
  pub shares : r.owner_amount +ℤ r.platform_amount ≡ hourly_fare p.billable_hours rate
  pub ledger :
      ledger_sum (of_log p.log_id) s'.transactions
      ≡ (if owner.approved then hourly_fare p.billable_hours rate else r.platform_amount)
        +ℤ ledger_sum (of_log p.log_id) s.transactions

module _ (env : HourlyEnv) (p : VerifyParams) (s : Db) (l : HourlyLog) (raw : ℤ)
    (rate period rials : ℕ) (owner household : Party) (policy : FinancePolicy)
    (row : find p.log_id s.hourly_logs ≡ some l) (over : l.status ≡ ended)
    (measured : l.raw_hours ≡ some raw) (within : leb_ℤ p.billable_hours raw ≡ true)
    (priced : env.hourly_rate l.mine_id ≡ some rate)
    (owned : env.find_fleet_owner l.fleet_owner_id ≡ some owner)
    (housed : find_optional env.find_household l.household_id ≡ some household)
    (keyed : env.period_key l.mine_id household.cooperative_id ≡ some period)
    (configured : env.policies l.mine_id household.cooperative_id ≡ some policy)
    (fee : policy.platform_fee_value ≤ 1000000)
    (whole : hourly_fare p.billable_hours rate ≡ pos (100 * rials)) where
  abbrev split : OperationalSplit
  split = split_operational_with_policy (hourly_fare p.billable_hours rate) policy

  abbrev written : Db
  written = record s { hourly_logs = update p.log_id (verify_row env p rate) s.hourly_logs }

  abbrev posted_to_owner : Db
  posted_to_owner =
      post_owner owner.approved l.fleet_owner_id l.mission_id split.owner_amount credit
        (hourly_owner p.log_id) (find_or_create_wallet platform written)

  abbrev credited : Db
  credited =
      post_platform l.mission_id split.platform_amount credit (hourly_platform p.log_id)
        posted_to_owner

  in_tx :
      verify_in_tx env p l rate owner household s ≡ (ok (verify_row env p rate l, split), credited)
  unfolding verify_in_tx update_log credit_hourly_shares apply_hourly_split_in_tx split_operational
  in_tx = ground (arith, row, priced, keyed, configured)

  verify-run : verify env p s ≡ (ok (verify_row env p rate l, split), credited)
  unfolding verify
  verify-run = ground (arith, in_tx)

  shares-nonneg : (pos 0 ≤ℤ split.owner_amount) × (pos 0 ≤ℤ split.platform_amount)
  shares-nonneg = rw whole (split-nonneg rials policy fee)

  log_sum :
      ledger_sum (of_log p.log_id) credited.transactions
      ≡ (if owner.approved then hourly_fare p.billable_hours rate else split.platform_amount)
        +ℤ ledger_sum (of_log p.log_id) s.transactions
  log_sum =
      let (ow, pl) = shares-nonneg in
      log-post_platform l.mission_id p.log_id split.platform_amount pl posted_to_owner
      ∙ ap (λ x. split.platform_amount +ℤ x)
          (log-post_owner l.mission_id p.log_id split.owner_amount ow owner.approved
              l.fleet_owner_id (find_or_create_wallet platform written)
            ∙ ap
                (λ ts.
                  (if owner.approved then split.owner_amount else pos 0)
                  +ℤ ledger_sum (of_log p.log_id) ts)
                (transactions-find_or_create platform written))
      ∙ regroup owner.approved (ledger_sum (of_log p.log_id) s.transactions)
    where
      regroup :
          (b : Bool) (before : ℤ)
          → split.platform_amount +ℤ ((if b then split.owner_amount else pos 0) +ℤ before)
            ≡ (if b then hourly_fare p.billable_hours rate else split.platform_amount) +ℤ before
      regroup true before =
          let e = split-add (hourly_fare p.billable_hours rate) policy in
          omega (int_laws, ap pos_part e, ap neg_part e)
      regroup false before = omega int_laws

  log_row : find p.log_id credited.hourly_logs ≡ some (verify_row env p rate l)
  log_row =
      ap (find p.log_id) (logs-posted (hourly_split_params p l rate owner household) split written)
      ∙ find-update_self p.log_id (verify_row env p rate) s.hourly_logs row

  -- The verification of an ENDED log with hours, of billable hours up to these, with a valid rate, a
  -- registered owner and household, a period, a policy with a fee of at most the whole and a fare of
  -- whole rials goes through. The log is then APPROVED with the billable hours, the rate, the
  -- consultant and the time; the shares of owner and platform make up the fare, and the log's sum in
  -- the ledger grows by the fare (for an owner who is not approved by the platform's share alone).
  pub verify_credits :
      let (outcome, s') = verify env p s in
      (outcome ≡ ok (verify_row env p rate l, split)) × Verified env p l rate owner split s s'
  verify_credits = rw verify-run (
    refl,
    record {
      row = log_row;
      shares = split-add (hourly_fare p.billable_hours rate) policy;
      ledger = log_sum;
    },
  )
