-- ===== src/Weighbridge/Progress/Adjust.antt =====
-- The approval of an adjustment as a change of the table of missions: it may write a weight.
use logestic.Prelude.{ℕ, Option, none, some, ◌≡◌, refl}
use logestic.Prelude.Int.{ℤ}
use logestic.Reasons.{Reason}
use logestic.Store.Tables.{Db, Mission, Load, Adjustment, Event}
use logestic.Store.{Outcome, ok, refused, throws, Action, ◌>>=◌, ◌>>◌, or_refuse, pure, transaction}
use logestic.Env.{Env, Party}
use logestic.Missions.{get_mission_by_id, publish}
use logestic.Missions.Progress.{Changes, unchanged}
use logestic.Missions.Progress.Requests.{kept-Changes}
use logestic.Weighbridge.Adjust.{approve_adjustment, adjust_in_tx, reweigh}
use logestic.Weighbridge.Adjust.Laws.{same-delta}
use logestic.Weighbridge.Progress.{adjust_tx-cases}

-- What a part of a request did to the missions of the database that it began in.
data Moves {A : Type 0} (s : Db) (x : Outcome A × Db) : Type 0 where
  moves : Changes s.missions x.1.missions → Moves s x

Moves-Changes :
    {A : Type 0} {s : Db} {x : Outcome A × Db} → Moves s x → Changes s.missions x.1.missions
Moves-Changes (moves c) = c

module _ {A B : Type 0} (s : Db) (f : A → Action B) (rest : (a : A) → Moves s (f a s)) where
  Moves-or_refuse : (o : Option A) (r : Reason) → Moves s ((or_refuse o r >>= f) s)
  Moves-or_refuse none r = moves (unchanged _ _ refl)
  Moves-or_refuse (some a) r = rest a

  -- What follows a step that only reads.
  Moves-read : (m : Action A) → (m s).1 ≡ s → Moves s ((m >>= f) s)
  Moves-read m same = go (m s) same
    where
      go : (x : Outcome A × Db) → x.1 ≡ s → Moves s (((λ (_ : Db). x) >>= f) s)
      go (ok a, s') e = rw e (rest a)
      go (refused r, s') e = rw e (moves (unchanged _ _ refl))
      go (throws r, s') e = rw e (moves (unchanged _ _ refl))

-- What is published after the transaction leaves the missions as they are.
published :
    {A : Type 0} (s : Db) (m : Action A) (e : Event) (delta : ℤ)
    → ((m >> (publish e >> pure delta)) s).1.missions ≡ (m s).1.missions
published {A} s m e delta = go (m s)
  where
    go :
        (x : Outcome A × Db)
        → (((λ (_ : Db). x) >> (publish e >> pure delta)) s).1.missions ≡ x.1.missions
    go (ok a, s') = refl
    go (refused r, s') = refl
    go (throws r, s') = refl

module _ (env : Env) (i user : ℕ) (s : Db) where
  tx-Moves :
      (a : Adjustment) (m : Mission) (l : Load) (o h : Party) (delta : ℤ) (e : Event)
      → Moves s
          ((transaction (adjust_in_tx env i user a m l o h delta) >> (publish e >> pure delta)) s)
  tx-Moves a m l o h delta e =
      let same = published s (transaction (adjust_in_tx env i user a m l o h delta)) e delta in
      moves (
        rw same (
          kept-Changes _ _ a.mission_id (reweigh a.after_net) (λ m. refl)
            (adjust_tx-cases env i user a m l o h delta s)))

  approve_adjustment-Moves : Moves s (approve_adjustment env i user s)
  unfolding approve_adjustment get_mission_by_id
  approve_adjustment-Moves = search (Moves-or_refuse, Moves-read, same-delta, tx-Moves) depth 30

pub adjust-Changes :
    (env : Env) (i user : ℕ) (s : Db)
    → Changes s.missions (approve_adjustment env i user s).1.missions
adjust-Changes env i user s = Moves-Changes (approve_adjustment-Moves env i user s)
