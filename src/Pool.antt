-- ===== src/Pool.antt =====
-- The community pools of apps/backend/src/repositories/communityPoolsRepository.ts: the snapshot of
-- the households, and the distribution of the total in equal whole rials, with the remainder to
-- the platform's wallet.
pub mod Shares
pub mod Conserves
use logestic.Prelude.{
  ℕ, zero, suc, ◌*◌, Bool, true, false, Option, none, some, List, [], ◌∷◌, any, length, ◌==◌,
  if◌then◌else◌,
}
use logestic.Prelude.Int.{ℤ, pos, ◌-ℤ◌, leb_ℤ}
use logestic.Prelude.Rounding.{scale, floor_div}
use logestic.Prelude.Table.{find, update}
use logestic.Reasons.{Reason, record_not_found}
use logestic.Store.{
  Action, ◌>>=◌, ◌>>◌, pure, refuse, gets, or_refuse, or_throw, refuse_if, modify, transaction,
}
use logestic.Store.Tables
use logestic.Store.Tables.{
  Db, Pool, PoolStatus, opened, snapshot_locked, distributed, household, platform, Wallet,
  TransactionType, credit, pool_distribution, community_restricted, Description, pool_share,
  pool_remainder, pool_remainder_coop,
}
use logestic.Ledger.Post.{find_or_create_wallet, create_transaction}
use logestic.Ledger.Split.{get_or_create_open_pool}

-- What a distribution takes from the rest of the backend: the approved households of a mine, the
-- rule for the remainder's target of a mine (whether it is "cooperative"), and the time.
pub record PoolEnv : Type 0 where
  pub approved_households : ℕ → List ℕ
  pub remainder_to_cooperative : Option ℕ → Bool
  pub at : ℕ

abbrev pub is_distributed : PoolStatus → Bool
is_distributed distributed = true
is_distributed _ = false

abbrev pub is_open : PoolStatus → Bool
is_open opened = true
is_open _ = false

-- `[...new Set(ids)]` keeps the first of equal ids.
abbrev new_set_from : List ℕ → List ℕ → List ℕ
new_set_from seen [] = []
new_set_from seen (x ∷ xs) =
    let kept = x ∷ new_set_from (x ∷ seen) xs in
    let left_out = new_set_from seen xs in if any (λ y. x == y) seen then left_out else kept

abbrev pub lock : List ℕ → Pool → Pool
lock ids p = record p { households_snapshot = ids; status = snapshot_locked }

unfoldable pub lock_pool_snapshot : ℕ → ℕ → List ℕ → Action Pool
lock_pool_snapshot period mine ids = do
  i ← get_or_create_open_pool mine period
  pool ← or_throw (← gets (λ s. find i s.pools)) record_not_found
  refuse_if (is_distributed pool.status) Reason.already_distributed
  modify (λ s. record s { pools = update i (lock (new_set_from [] ids)) s.pools })
  pure (lock (new_set_from [] ids) pool)

abbrev pub is_empty : List ℕ → Bool
is_empty [] = true
is_empty (_ ∷ _) = false

-- The households of a locked pool, or the approved ones of the mine, which it then locks.
unfoldable pub resolve_snapshot : PoolEnv → ℕ → Pool → Action (List ℕ)
resolve_snapshot env i pool =
    if is_open pool.status
    then (do
      mine ← or_refuse pool.mine_id Reason.missing_mine_id
      refuse_if (is_empty (env.approved_households mine)) Reason.no_approved_households
      modify (λ s. record s { pools = update i (lock (env.approved_households mine)) s.pools })
      pure (env.approved_households mine))
    else (do
      refuse_if (is_empty pool.households_snapshot) Reason.missing_snapshot_households
      pure pool.households_snapshot)

abbrev pub pool_entry : ℕ → Wallet → ℤ → TransactionType → Description → Tables.Transaction
pool_entry i w amount type description = record {
  wallet = w;
  mission_id = none;
  community_pool_id = some i;
  amount = amount;
  type = type;
  fund = community_restricted;
  description = description;
}

-- The loop over the snapshot.
unfoldable pub pay_households : ℕ → ℤ → List ℕ → Db → Db
pay_households i per [] s = s
pay_households i per (h ∷ hs) s = pay_households i per hs (
    create_transaction (pool_entry i (household h) per pool_distribution (pool_share i))
      (find_or_create_wallet (household h) s))

abbrev remainder_description : Bool → ℕ → Description
remainder_description true i = pool_remainder_coop i
remainder_description false i = pool_remainder i

unfoldable pub credit_pool_remainder : PoolEnv → ℕ → Option ℕ → ℤ → Db → Db
credit_pool_remainder env i mine remainder s =
    if leb_ℤ remainder (pos 0)
    then s
    else create_transaction
        (pool_entry i platform remainder credit
          (remainder_description (env.remainder_to_cooperative mine) i))
        (find_or_create_wallet platform s)

-- `Math.floor(total / n)` in whole rials.
abbrev pub per_household : ℤ → ℕ → ℤ
per_household total n = scale 100 (floor_div total (100 * n))

pub record Distribution : Type 0 where
  pub per_household_amount : ℤ
  pub remainder : ℤ
  pub household_count : ℕ

abbrev pub close : ℕ → Pool → Pool
close at p = record p { status = distributed; distributed_at = some at }

-- The postings of a distribution.
unfoldable pub pay_out : PoolEnv → ℕ → Pool → List ℕ → Db → Db
unfolding credit_pool_remainder
pay_out env i pool hs s =
    let per = per_household pool.total_amount (length hs) in
    credit_pool_remainder env i pool.mine_id (pool.total_amount -ℤ scale (length hs) per)
      (pay_households i per hs s)

unfoldable pub distribute_in_tx : PoolEnv → ℕ → Action Distribution
unfolding resolve_snapshot pay_out
distribute_in_tx env i = do
  pool ← or_throw (← gets (λ s. find i s.pools)) record_not_found
  refuse_if (is_distributed pool.status) Reason.already_distributed
  hs ← resolve_snapshot env i pool
  modify (pay_out env i pool hs)
  modify (λ s. record s { pools = update i (close env.at) s.pools })
  let per = per_household pool.total_amount (length hs)
  pure (record {
    per_household_amount = per;
    remainder = pool.total_amount -ℤ scale (length hs) per;
    household_count = length hs;
  })

unfoldable pub distribute_pool : PoolEnv → ℕ → Action Distribution
unfolding distribute_in_tx
distribute_pool env i = do
  existing ← or_refuse (← gets (λ s. find i s.pools)) Reason.pool_not_found
  refuse_if (is_distributed existing.status) Reason.already_distributed
  transaction (distribute_in_tx env i)
