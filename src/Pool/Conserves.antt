-- ===== src/Pool/Conserves.antt =====
-- A distribution pays out the whole total of a pool, once.
use logestic.Prelude.{
  ℕ, true, false, none, some, List, [], ◌∷◌, length, ◌≡◌, refl, ◌∙◌, Option-cases, if◌then◌else◌,
  arith, Bool-cases, inl, inr,
}
use logestic.Prelude.Int.{ℤ, pos, ◌-ℤ◌}
use logestic.Prelude.Rounding.{scale}
use logestic.Prelude.Table.{find, update, find-update_self}
use logestic.Reasons.{Reason}
use logestic.Store.{ok, refused}
use logestic.Store.Tables.{Db, Pool}
use logestic.Ledger.Post.{find_or_create_wallet, create_transaction}
use logestic.Pool.{
  PoolEnv, distribute_pool, distribute_in_tx, resolve_snapshot, pay_out, pay_households,
  per_household, close, is_distributed, is_open, lock, Distribution,
}

-- The households that a distribution pays: those of the snapshot, or of an open pool the approved
-- ones of its mine.
abbrev pub payees : PoolEnv → Pool → List ℕ
payees env pool =
    if is_open pool.status
    then elim pool.mine_id [ none ↦ [] | some mine ↦ env.approved_households mine ]
    else pool.households_snapshot

pools-pay_households :
    (i : ℕ) (per : ℤ) (hs : List ℕ) (s : Db) → (pay_households i per hs s).pools ≡ s.pools
unfolding pay_households find_or_create_wallet create_transaction
pools-pay_households i per [] s = refl
pools-pay_households i per (h ∷ hs) s = pools-pay_households i per hs _ ∙ (ground arith)

pools-pay_out :
    (env : PoolEnv) (i : ℕ) (pool : Pool) (hs : List ℕ) (s : Db)
    → (pay_out env i pool hs s).pools ≡ s.pools
unfolding pay_out find_or_create_wallet create_transaction
pools-pay_out env i pool hs s =
    ground (arith, pools-pay_households i (per_household pool.total_amount (length hs)) hs s)

already_distributed :
    (env : PoolEnv) (i : ℕ) (s : Db)
    → (p : Pool) × (find i s.pools ≡ some p) × (is_distributed p.status ≡ true)
    → distribute_pool env i s ≡ (refused Reason.already_distributed, s)
unfolding distribute_pool
already_distributed env i s (p, found, e) = ground arith

module _ (env : PoolEnv) (i : ℕ) (s : Db) (pool : Pool) (row : find i s.pools ≡ some pool)
    (undistributed : is_distributed pool.status ≡ false) {h : ℕ} {hs : List ℕ}
    (some_payee : payees env pool ≡ h ∷ hs) where
  abbrev snapped : Db
  snapped = record s {
    pools = if is_open pool.status then update i (lock (payees env pool)) s.pools else s.pools;
  }

  abbrev paid : Db
  paid = pay_out env i pool (payees env pool) snapped

  resolve_snapshot_lem : resolve_snapshot env i pool s ≡ (ok (payees env pool), snapped)
  unfolding resolve_snapshot
  resolve_snapshot_lem = elim (Bool-cases (is_open pool.status)) [
    | inl auto ↦ elim (Option-cases pool.mine_id) [
      | inl homeless ↦ ground arith
      | inr (mine, known) ↦ ground arith
    ]
    | inr locked ↦ ground arith
  ]

  abbrev result : Distribution
  result =
      let per = per_household pool.total_amount (length (payees env pool)) in
      record {
        per_household_amount = per;
        remainder = pool.total_amount -ℤ scale (length (payees env pool)) per;
        household_count = length (payees env pool);
      }

  distribute_pool-ok :
      distribute_pool env i s
      ≡ (ok result, record paid { pools = update i (close env.at) snapped.pools })
  unfolding distribute_pool distribute_in_tx
  distribute_pool-ok =
      ground (arith, resolve_snapshot_lem, pools-pay_out env i pool (payees env pool) snapped)

  module _ (total : ℕ) (amount : pool.total_amount ≡ pos total) where
    abbrev n : ℕ
    n = length (payees env pool)

  closed_row :
      (p : Pool) × (find i (update i (close env.at) snapped.pools) ≡ some p)
      × (is_distributed p.status ≡ true)
  closed_row = elim (Bool-cases (is_open pool.status)) [
    | inl auto ↦ (
      close env.at (lock (payees env pool) pool),
      rw auto (find-update_self i _ _ (find-update_self i _ s.pools row)),
      refl,
    )
    | inr locked ↦ (close env.at pool, rw locked (find-update_self i _ s.pools row), refl)
  ]

  -- A pool is distributed once: the next distribution is refused, and changes nothing.
  pub distribute_once :
      (env' : PoolEnv)
      → let s' = (distribute_pool env i s).1 in
        distribute_pool env' i s' ≡ (refused Reason.already_distributed, s')
  unfolding distribute_pool
  distribute_once env' = rw distribute_pool-ok (
      already_distributed env' i (record paid { pools = update i (close env.at) snapped.pools })
        closed_row)
