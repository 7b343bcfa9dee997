-- ===== src/Hourly/Once.antt =====
-- What holds of the hourly logs over any sequence of requests: a finished log stays as it is, so
-- that it is credited at most once, and a mission has at most one log under way.
use Prim.Native.String.{String}
use logestic.Prelude.{
  ℕ, Bool, true, false, ◌||◌, some, List, [], ◌∷◌, ◌==◌, ==_iff, ◌≡◌, ◌≢◌, inl, inr, refl, sym, ap,
  ◌∙◌, arith, Bool-cases, Option-cases, any,
}
use logestic.Prelude.Table.{
  Table, find, update, find-update, find-insert_old, find_inserted, none_passes,
}
use logestic.Store.Batches.{HourlyLog, HourlyStatus, started, approved, rejected}
use logestic.Store.Tables.{Db}
use logestic.Hourly.{
  HourlyEnv, StartParams, VerifyParams, start, end, verify, reject, is_active_log, hourly_status_eq,
}
use logestic.Hourly.Life.{
  Changed, same, opened, moved, Step, ends, approves, rejects, rejects_pending, start-Keeps,
  end-Keeps, verify-Keeps, reject-Keeps,
}

-- The requests, each with what it meets in the rest of the backend.
pub data HourlyRequest : Type 0 where
  started_by : HourlyEnv → StartParams → HourlyRequest
  ended_by : HourlyEnv → ℕ → HourlyRequest
  verified_by : HourlyEnv → VerifyParams → HourlyRequest
  rejected_by : HourlyEnv → ℕ → ℕ → String → HourlyRequest

-- The database after a request, whatever its outcome, and after a sequence of them.
unfoldable pub serve : HourlyRequest → Db → Db
unfolding start end verify reject
serve (started_by env p) s = (start env p s).1
serve (ended_by env i) s = (end env i s).1
serve (verified_by env p) s = (verify env p s).1
serve (rejected_by env i user reason) s = (reject env i user reason s).1

unfoldable pub serve_all : List HourlyRequest → Db → Db
unfolding serve
serve_all [] s = s
serve_all (r ∷ rs) s = serve_all rs (serve r s)

serve-Changed : (r : HourlyRequest) (s : Db) → Changed s.hourly_logs (serve r s).hourly_logs
unfolding serve
serve-Changed (started_by env p) s = (start-Keeps s env p).after
serve-Changed (ended_by env i) s = (end-Keeps s env i).after
serve-Changed (verified_by env p) s = (verify-Keeps s env p).after
serve-Changed (rejected_by env i user reason) s = (reject-Keeps s env i user reason).after

abbrev pub is_final : HourlyStatus → Bool
is_final a = hourly_status_eq a approved || hourly_status_eq a rejected

never_final : (a b : HourlyStatus) → Step a b → is_final a ≡ false
never_final _ _ ends = refl
never_final _ _ approves = refl
never_final _ _ rejects = refl
never_final _ _ rejects_pending = refl

never_started : (a b : HourlyStatus) → Step a b → hourly_status_eq b started ≡ false
never_started _ _ ends = refl
never_started _ _ approves = refl
never_started _ _ rejects = refl
never_started _ _ rejects_pending = refl

final_kept :
    (t t' : Table HourlyLog) (k : ℕ) (l : HourlyLog)
    → Changed t t'
    → find k t ≡ some l
    → is_final l.status ≡ true
    → find k t' ≡ some l
final_kept t t' k l same row final = row
final_kept t t' k l (opened i x _ _ _) row final = find-insert_old k x t row
final_kept t t' k l (moved j x f there step _) row final =
    let open_one = never_final x.status (f x).status step in
    elim (Bool-cases (k == j)) [
      | inl e ↦ let e' = ==_iff k j in absurd (ground (arith, e', open_one))
      | inr e ↦ ground (arith, find-update k j f t)
    ]

-- A log that is APPROVED or REJECTED stays as it is over any sequence of requests.
pub final_stays :
    (rs : List HourlyRequest) (s : Db) (k : ℕ) (l : HourlyLog)
    → find k s.hourly_logs ≡ some l
    → is_final l.status ≡ true
    → find k (serve_all rs s).hourly_logs ≡ some l
unfolding serve_all
final_stays [] s k l row final = row
final_stays (r ∷ rs) s k l row final =
    final_stays rs (serve r s) k l
      (final_kept s.hourly_logs (serve r s).hourly_logs k l (serve-Changed r s) row final) final

-- No mission has two logs under way.
unfoldable pub OneActive : Table HourlyLog → Type 0
OneActive t =
    (k k' i : ℕ) (l l' : HourlyLog)
    → find k t ≡ some l
    → find k' t ≡ some l'
    → is_active_log i l ≡ true
    → is_active_log i l' ≡ true
    → k ≡ k'

of_active : (i : ℕ) (l : HourlyLog) → is_active_log i l ≡ true → l.mission_id ≡ some i
of_active i l h = elim (Option-cases l.mission_id) [
  | inl e ↦ absurd (ground (arith, h))
  | inr (j, e) ↦ ground (arith, h, ==_iff j i)
]

none_active :
    (i k : ℕ) (t : Table HourlyLog) (l x : HourlyLog)
    → l.mission_id ≡ some i
    → any (λ (_, y). is_active_log i y) t ≡ false
    → (i' : ℕ) → is_active_log i' l ≡ true
    → find k t ≡ some x
    → is_active_log i' x ≢ true
none_active i k t l x of free i' active row active' =
    let e = of_active i' l active in
    let e' : i' ≡ i = cc in
    let none_there = none_passes (λ (_, y). is_active_log i y) t k x free row in
    let there = ap (λ n. is_active_log n x) (sym e') ∙ active' in absurd (cc)

-- A log under way after a step of a log was there before.
active_before :
    (j k i : ℕ) (t : Table HourlyLog) (f : HourlyLog → HourlyLog) (x l : HourlyLog)
    → find j t ≡ some x
    → Step x.status (f x).status
    → find k (update j f t) ≡ some l
    → is_active_log i l ≡ true
    → find k t ≡ some l
active_before j k i t f x l there step row active =
    let over = never_started x.status (f x).status step in
    let found = find-update k j f t in
    elim (Bool-cases (k == j)) [
      | inl e ↦
          let e' = ==_iff k j in
          let here : l ≡ f x = ground (arith, e', found, there, row) in
          absurd (ground (arith, ap (λ y. is_active_log i y) here, active, over))
      | inr e ↦ ground (arith, found, row)
    ]

Changed-OneActive : (t t' : Table HourlyLog) → Changed t t' → OneActive t → OneActive t'
unfolding OneActive
Changed-OneActive t t' same one k k' i l l' row row' active active' =
    one k k' i l l' row row' active active'
Changed-OneActive t t' (opened j x _ of free) one k k' i l l' row row' active active' =
    elim (find_inserted k x l t row) [
      | inl (e, made) ↦ elim (find_inserted k' x l' t row') [
        | inl (e', _) ↦ e ∙ sym e'
        | inr old' ↦ absurd (none_active j k' t x l' of free i (rw made active) old' active')
      ]
      | inr old ↦ elim (find_inserted k' x l' t row') [
        | inl (_, made') ↦ absurd (none_active j k t x l of free i (rw made' active') old active)
        | inr old' ↦ one k k' i l l' old old' active active'
      ]
    ]
Changed-OneActive t t' (moved j x f there step _) one k k' i l l' row row' active active' =
    one k k' i l l' (active_before j k i t f x l there step row active)
      (active_before j k' i t f x l' there step row' active') active active'

-- Over any sequence of requests no mission gets a second log under way.
pub serve_all-OneActive :
    (rs : List HourlyRequest) (s : Db)
    → OneActive s.hourly_logs
    → OneActive (serve_all rs s).hourly_logs
unfolding serve_all
serve_all-OneActive [] s one = one
serve_all-OneActive (r ∷ rs) s one =
    serve_all-OneActive rs (serve r s)
      (Changed-OneActive s.hourly_logs (serve r s).hourly_logs (serve-Changed r s) one)
