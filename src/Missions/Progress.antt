-- ===== src/Missions/Progress.antt =====
-- How a request may change the table of missions: not at all, or by rewriting one row whose status
-- stays or moves along an edge of the diagram.
pub mod Requests
use logestic.Prelude.{
  ℕ, Option, none, some, ◌≡◌, ◌≢◌, refl, sym, ==_iff, ◌⊎◌, inl, inr, arith, Bool-cases, ◌==◌,
}
use logestic.Prelude.Table.{Table, find, update, map_option, find-update}
use logestic.Fsm.{MissionStatus, MissionTransitionActor}
use logestic.Fsm.Graph.{Edge}
use logestic.Store.Tables.{Mission}

-- A status that stays, or an edge that some actor takes.
pub data Moves (a : MissionStatus) : MissionStatus → Type 0 where
  stays : Moves a a
  takes : {b : MissionStatus} (actor : MissionTransitionActor) → Edge a b actor → Moves a b

pub data Changes (ms : Table Mission) : Table Mission → Type 0 where
  same : Changes ms ms
  rewrites :
      (i : ℕ) (f : Mission → Mission)
      → ((m : Mission) → find i ms ≡ some m → Moves m.status (f m).status)
      → Changes ms (update i f ms)

-- No mission is lost by a change, and its status stays or moves along an edge.
pub Changes-find :
    (ms ms' : Table Mission)
    → Changes ms ms'
    → (j : ℕ) (m : Mission) → find j ms ≡ some m
    → (m' : Mission) × (find j ms' ≡ some m') × Moves m.status m'.status
Changes-find ms _ same j m found = (m, found, stays)
Changes-find ms _ (rewrites i f moves) j m found = elim (Bool-cases (j == i)) [
  | inl e ↦ (f m, ground (arith, find-update j i f ms), moves m (rw (sym ((==_iff j i).0 e)) found))
  | inr e ↦ (m, ground (arith, find-update j i f ms), stays)
]

pub rewrites_row :
    (ms : Table Mission) (i : ℕ) (f : Mission → Mission) (m : Mission)
    → find i ms ≡ some m
    → Moves m.status (f m).status
    → Changes ms (update i f ms)
rewrites_row ms i f m found move = rewrites i f (λ m2 found2. rw (one m2 found2) move)
  where
    one : (m2 : Mission) → find i ms ≡ some m2 → m2 ≡ m
    one m2 found2 = cc

pub unchanged : (ms ms' : Table Mission) → ms' ≡ ms → Changes ms ms'
unchanged ms ms' e = rw e same
