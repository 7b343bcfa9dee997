-- ===== src/Tests/Pools.antt =====
-- Distributions at concrete inputs.
use logestic.Prelude.{◌≡◌, refl}
use logestic.Prelude.Table.{find}
use logestic.Reasons.{Reason}
use logestic.Fsm.{delivered}
use logestic.Store.{refused}
use logestic.Pool.{distribute_pool}
use logestic.Pool.Conserves.{distribute_once}
use logestic.Tests.Data.{db_at, pool, pool_env}

distribute_once_example :
    let s' = (distribute_pool pool_env 4 (db_at delivered)).1 in
    distribute_pool pool_env 4 s' ≡ (refused Reason.already_distributed, s')
unfolding find
distribute_once_example = distribute_once pool_env 4 (db_at delivered) pool refl refl refl pool_env
