-- ===== src/Settlement/Close/Untouched.antt =====
-- The pool steps of the closes touch no batch and no line.
use logestic.Prelude.{ℕ, List, [], ◌∷◌, ◌≡◌, refl, ◌∙◌, arith, length}
use logestic.Prelude.Table.{update}
use logestic.Prelude.Int.{ℤ}
use logestic.Store.{modify, pure, Outcome, ok, refused, throws, Action, ◌>>◌}
use logestic.Store.Keeps.{
  Keeps, Keeps-if, Keeps-same, Keeps-bind, Keeps-transaction, Keeps-or_refuse, Keeps-or_throw,
  Keeps-refuse_if,
}
use logestic.Store.Tables.{Db, Pool}
use logestic.Ledger.Post.{find_or_create_wallet, create_transaction}
use logestic.Pool.{
  Distribution, close, per_household, credit_pool_remainder, PoolEnv, pay_households, pay_out,
  distribute_in_tx, distribute_pool, resolve_snapshot,
}
use logestic.Settlement.Period.{Period}
use logestic.Settlement.Close.{CloseEnv, attempt, distribute_unless_done}

-- The payments of a pool touch no batch and no line.
pub record Untouched (s s' : Db) : Type 0 where
  pub batches : s'.batches ≡ s.batches
  pub lines : s'.lines ≡ s.lines

Untouched-trans : (s t u : Db) → Untouched s t → Untouched t u → Untouched s u
Untouched-trans s t u h k = record { batches = k.batches ∙ h.batches; lines = k.lines ∙ h.lines }

pay_households-Untouched :
    (i : ℕ) (per : ℤ) (hs : List ℕ) (s : Db) → Untouched s (pay_households i per hs s)
unfolding pay_households find_or_create_wallet create_transaction
pay_households-Untouched i per [] s = record { batches = refl; lines = refl }
pay_households-Untouched i per (h ∷ hs) s =
    Untouched-trans s _ _ (record { batches = ground arith; lines = ground arith })
      (pay_households-Untouched i per hs _)

pay_out-Untouched :
    (env : PoolEnv) (i : ℕ) (pool : Pool) (hs : List ℕ) (s : Db)
    → Untouched s (pay_out env i pool hs s)
unfolding pay_out credit_pool_remainder find_or_create_wallet create_transaction
pay_out-Untouched env i pool hs s =
    let paid = pay_households-Untouched i (per_household pool.total_amount (length hs)) hs s in
    let batches = paid.batches in
    let lines = paid.lines in
    record { batches = ground (arith, batches); lines = ground (arith, lines) }

module _ (o : Db) where
  resolve_snapshot-Keeps :
      (env : PoolEnv) (i : ℕ) (pool : Pool) (s : Db)
      → Untouched o s
      → Keeps (Untouched o) (resolve_snapshot env i pool s)
  unfolding resolve_snapshot
  resolve_snapshot-Keeps env i pool s h =
      let batches = h.batches in
      let lines = h.lines in
      record { after = record { batches = ground (arith, batches); lines = ground (arith, lines) } }

  written :
      (env : PoolEnv) (i : ℕ) (pool : Pool) (hs : List ℕ) (d : Distribution) (t : Db)
      → Untouched o t
      → Keeps (Untouched o) (
          (modify (pay_out env i pool hs)
              >> modify (λ s. record s { pools = update i (close env.at) s.pools })
              >> pure d)
            t)
  written env i pool hs d t k =
      let paid = Untouched-trans o t _ k (pay_out-Untouched env i pool hs t) in
      record { after = record { batches = paid.batches; lines = paid.lines } }

  distribute_in_tx-Keeps :
      (env : PoolEnv) (i : ℕ) (s : Db)
      → Untouched o s
      → Keeps (Untouched o) (distribute_in_tx env i s)
  unfolding distribute_in_tx
  distribute_in_tx-Keeps env i s h =
      search (Keeps-or_throw, Keeps-refuse_if, Keeps-bind, resolve_snapshot-Keeps, written) depth 30

  pub distribute_pool-Keeps :
      (env : PoolEnv) (i : ℕ) (s : Db)
      → Untouched o s
      → Keeps (Untouched o) (distribute_pool env i s)
  unfolding distribute_pool
  distribute_pool-Keeps env i s h =
      search (Keeps-or_refuse, Keeps-refuse_if, Keeps-transaction, distribute_in_tx-Keeps) depth 30

  pub attempt-Keeps :
      {A : Type 0} (P : Db → Type 0) (m : Action A) (s : Db) → Keeps P (m s) → Keeps P (attempt m s)
  unfolding attempt
  attempt-Keeps {A} P m s h = go (m s) h
    where
      go : (x : Outcome A × Db) → Keeps P x → Keeps P (attempt (λ (_ : Db). x) s)
      go (ok a, s') h = record { after = h.after }
      go (refused e, s') h = record { after = h.after }
      go (throws e, s') h = record { after = h.after }

  pub distribute_unless_done-Keeps :
      (env : CloseEnv) (p : Period) (k : ℕ) (s : Db)
      → Untouched o s
      → Keeps (Untouched o) (distribute_unless_done env p k s)
  unfolding distribute_unless_done
  distribute_unless_done-Keeps env p k s h =
      search (Keeps-or_throw, Keeps-if, Keeps-bind, distribute_pool-Keeps, Keeps-same) depth 30
