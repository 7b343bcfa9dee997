-- ===== src/Settlement/Paid/Missions.antt =====
-- What settling the missions of a list of lines does to the table of missions.
use logestic.Prelude.{
  ℕ, Bool, true, false, none, some, List, [], ◌∷◌, any, ◌==◌, ◌≡◌, refl, ap, ◌∙◌, sym, arith,
  Bool-cases, Option-cases, inl, inr,
}
use logestic.Prelude.Table.{Table, find, update, find-update, find-update_ne}
use logestic.Fsm.{verified, status_eq}
use logestic.Store.{ok}
use logestic.Store.Tables.{Db, Line, Mission}
use logestic.Missions.{apply_patch, settled_patch, settle_verified_mission, update_mission}
use logestic.Settlement.Paid.{settle_lines, mission_ids}

abbrev pub settle : Mission → Mission
settle = apply_patch settled_patch

unfoldable pub settle_all : List ℕ → Table Mission → Table Mission
settle_all [] t = t
settle_all (m ∷ ms) t = settle_all ms (update m settle t)

-- Every mission of the list is verified when its turn comes.
pub data EachVerified : List ℕ → Table Mission → Type 0 where
  none_left : (t : Table Mission) → EachVerified [] t
  next :
      (m : ℕ) (ms : List ℕ) (t : Table Mission) (x : Mission)
      → find m t ≡ some x
      → x.status ≡ verified
      → EachVerified ms (update m settle t)
      → EachVerified (m ∷ ms) t

abbrev pub member : ℕ → List ℕ → Bool
member j ms = any (λ m. j == m) ms

-- One step of the loop.
settle_ok :
    (m : ℕ) (s : Db) (x : Mission)
    → find m s.missions ≡ some x
    → x.status ≡ verified
    → settle_verified_mission m s
      ≡ (ok (some (settle x)), record s { missions = update m settle s.missions })
unfolding settle_verified_mission update_mission
settle_ok m s x found v = ground arith

settle_missing :
    (m : ℕ) (s : Db) → find m s.missions ≡ none → settle_verified_mission m s ≡ (ok none, s)
unfolding settle_verified_mission
settle_missing m s missing = ground arith

pub settle_early :
    (m : ℕ) (s : Db) (x : Mission)
    → find m s.missions ≡ some x
    → status_eq x.status verified ≡ false
    → settle_verified_mission m s ≡ (ok none, s)
unfolding settle_verified_mission
settle_early m s x found e = ground arith

verified_of_eq : (x : Mission) → status_eq x.status verified ≡ true → x.status ≡ verified
verified_of_eq x e = ground arith

pub record Settled (ms : List ℕ) (s s' : Db) : Type 0 where
  pub written : s' ≡ record s { missions = settle_all ms s.missions }
  pub each : EachVerified ms s.missions

-- The loop either settles every mission, or it throws.
pub settle_lines-Settled :
    (ls : Table Line) (s : Db)
    → (settle_lines ls s).0 ≡ ok tt
    → Settled (mission_ids ls) s (settle_lines ls s).1
unfolding settle_lines settle_all
settle_lines-Settled [] s h = record { written = refl; each = none_left s.missions }
settle_lines-Settled ((k, l) ∷ ls) s h = elim (Option-cases l.mission_id) [
  | inl without ↦ rw without (settle_lines-Settled ls s (ground arith))
  | inr (m, has) ↦ elim (Option-cases (find m s.missions)) [
    | inl missing ↦ absurd (ground (arith, settle_missing m s missing))
    | inr (x, found) ↦ elim (Bool-cases (status_eq x.status verified)) [
      | inl e ↦
          let v = verified_of_eq x e in
          let one = settle_ok m s x found v in
          let s1 : Db = record s { missions = update m settle s.missions } in
          let run : settle_lines ((k, l) ∷ ls) s ≡ settle_lines ls s1 = ground (arith, one) in
          let ids : mission_ids ((k, l) ∷ ls) ≡ m ∷ mission_ids ls = ground arith in
          let q = settle_lines-Settled ls s1 (ap (λ x. x.0) (sym run) ∙ h) in
          record {
            written = ap (λ x. x.1) run ∙ q.written ∙ ground arith;
            each = rw ids (next m (mission_ids ls) s.missions x found v q.each);
          }
      | inr e ↦ absurd (ground (arith, settle_early m s x found e))
    ]
  ]
]

pub settle_all-others :
    (ms : List ℕ) (t : Table Mission) (j : ℕ)
    → member j ms ≡ false
    → find j (settle_all ms t) ≡ find j t
unfolding settle_all
settle_all-others [] t j h = refl
settle_all-others (m ∷ ms) t j h =
    settle_all-others ms (update m settle t) j (ground arith)
    ∙ find-update_ne j m settle t (λ e. ground arith)

-- A mission of the list is verified before, and settled after.
pub settle_all-members :
    (ms : List ℕ) (t : Table Mission) (j : ℕ)
    → EachVerified ms t
    → member j ms ≡ true
    → (x : Mission) × (find j t ≡ some x)
      × (x.status ≡ verified)
      × (find j (settle_all ms t) ≡ some (settle x))
unfolding settle_all
settle_all-members [] t j e h = absurd (cc)
settle_all-members (m ∷ ms) t j (next _ _ _ x found v each) h = elim (Bool-cases (j == m)) [
  | inl same ↦ elim (Bool-cases (member j ms)) [
    | inl again ↦
        let (y, found', v', _) = settle_all-members ms (update m settle t) j each again in
        absurd (ground (arith, find-update j m settle t))
    | inr no_more ↦ (
      x,
      ground arith,
      v,
      settle_all-others ms (update m settle t) j no_more ∙ ground (arith, find-update j m settle t),
    )
  ]
  | inr other ↦
      let (y, found', v', after) =
        settle_all-members ms (update m settle t) j each (ground arith) in
      (y, ground (arith, find-update j m settle t), v', after)
]
