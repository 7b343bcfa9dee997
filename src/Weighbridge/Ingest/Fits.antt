-- ===== src/Weighbridge/Ingest/Fits.antt =====
-- What a reading finds in a ticket and writes to it, and the steps that check and write.
use logestic.Prelude.{
  ℕ, Bool, true, false, not, Option, none, some, ◌≡◌, ◌⊎◌, inl, inr, refl, arith, Option-cases,
}
use logestic.Prelude.Int.{ℤ, pos, leb_ℤ}
use logestic.Prelude.Table.{find, find-update_self}
use logestic.Reasons.{Reason, rule_not_configured}
use logestic.Fsm.{MissionStatus}
use logestic.Store.{ok, throws, Action, ◌>>=◌, ◌>>◌, transaction, refuse_if}
use logestic.Store.Ends.{
  Ends, with_value, by_refusal, by_throw, Ends-bind, Ends-transaction, Ends-guard,
}
use mathlib.Core.Path.{subst⁻¹}
use logestic.Store.Tables.{Db, ReadingType, Ticket, TicketStatus, pending_empty, empty_registered}
use logestic.Missions.DriverStep.{new_ticket}
use logestic.Weighbridge.Anomaly.{is_weighbridge_anomaly}
use logestic.Weighbridge.Ingest.{
  IngestEnv, Reading, Ingested, take_in_tx, answer, status_of_reading, check_order,
  find_agent_ingest, find_ticket_of_mission, mission_allows_reading, status_of_anomaly, read,
}
use logestic.Weighbridge.Ingest.Rows.{run_free, run_taken}

-- What a reading finds in a ticket: an empty one that it waits for the empty weight, a loaded one that
-- it has a positive empty weight below the loaded one.
pub data Fits (p : Reading) (t : Ticket) : Type 0 where
  fits_empty : p.reading_type ≡ ReadingType.empty → t.status ≡ pending_empty → Fits p t
  fits_loaded :
      p.reading_type ≡ ReadingType.loaded
      → t.status ≡ empty_registered
      → leb_ℤ t.empty_weight (pos 0) ≡ false
      → leb_ℤ p.weight_kg t.empty_weight ≡ false
      → Fits p t

-- The status that a reading may give.
pub data Gives (p : Reading) : TicketStatus → Type 0 where
  gives_empty : p.reading_type ≡ ReadingType.empty → Gives p empty_registered
  gives_loaded :
      (anomaly : Bool) → p.reading_type ≡ ReadingType.loaded → Gives p (status_of_anomaly anomaly)

-- The ticket of the mission in a database, or the new one where there is none.
pub data Origin (o : Db) (p : Reading) (i : ℕ) (t : Ticket) : Type 0 where
  its_own : find_ticket_of_mission p.mission_id o.tickets ≡ some (i, t) → Origin o p i t
  fresh :
      find_ticket_of_mission p.mission_id o.tickets ≡ none
      → t ≡ new_ticket p.mission_id p.ticket_suffix
      → Origin o p i t

-- What a reading that is taken leaves behind in `s`, against the database `o` before it.
pub record Weighed (o : Db) (p : Reading) (r : Ingested) (s : Db) : Type 0 where
  pub before : Ticket
  pub origin : Origin o p r.ticket_id before
  pub fits : Fits p before
  pub gives : Gives p r.ticket_status
  pub row : find r.ticket_id s.tickets ≡ some (read p r.ticket_status before)

abbrev pub Q : Db → Reading → Ingested → Db → Type 0
Q o p r s = (r.idempotent ≡ true) ⊎ Weighed o p r s

reading_cases : (t : ReadingType) → (t ≡ ReadingType.empty) ⊎ (t ≡ ReadingType.loaded)
reading_cases ReadingType.empty = inl refl
reading_cases ReadingType.loaded = inr refl

module _ (p : Reading) (env : IngestEnv) (mine : ℕ) (q : ℤ) (t : Ticket) (s : Db) where
  status-empty :
      p.reading_type ≡ ReadingType.empty
      → status_of_reading env p mine q t s ≡ (ok empty_registered, s)
  unfolding status_of_reading
  status-empty e = ground (arith, e)

  status-loaded :
      (threshold : ℕ)
      → p.reading_type ≡ ReadingType.loaded
      → env.anomaly_threshold mine ≡ some threshold
      → status_of_reading env p mine q t s ≡ (
        ok (status_of_anomaly (is_weighbridge_anomaly threshold t.empty_weight p.weight_kg q)),
        s,
      )
  unfolding status_of_reading
  status-loaded threshold e known = ground (arith, e, known)

  status-throws :
      p.reading_type ≡ ReadingType.loaded
      → env.anomaly_threshold mine ≡ none
      → status_of_reading env p mine q t s ≡ (throws rule_not_configured, s)
  unfolding status_of_reading
  status-throws e unknown = ground (arith, e, unknown)

  pub status_of_reading-Ends :
      Ends (λ next u. (u ≡ s) × Gives p next) (status_of_reading env p mine q t s)
  status_of_reading-Ends = elim (reading_cases p.reading_type) [
    | inl e ↦
        let run = status-empty e in rw run (with_value empty_registered s (refl, gives_empty e))
    | inr e ↦ elim (Option-cases (env.anomaly_threshold mine)) [
      | inl unknown ↦ let run = status-throws e unknown in rw run (by_throw rule_not_configured s)
      | inr (threshold, known) ↦
          let run = status-loaded threshold e known in
          let anomaly = is_weighbridge_anomaly threshold t.empty_weight p.weight_kg q in
          rw run (with_value (status_of_anomaly anomaly) s (refl, gives_loaded anomaly e))
    ]
  ]

module _ (o : Db) (p : Reading) where
  -- The checks that a loaded reading goes through.
  abbrev order_checks : Ticket → Action (Unit {0})
  order_checks t =
      refuse_if (leb_ℤ t.empty_weight (pos 0)) Reason.empty_weight_required
      >> refuse_if (leb_ℤ p.weight_kg t.empty_weight) Reason.invalid_weight_order

  checks-loaded :
      (t : Ticket) (s : Db)
      → p.reading_type ≡ ReadingType.loaded
      → t.status ≡ empty_registered
      → Ends (λ _ u. (u ≡ s) × Fits p t) (order_checks t s)
  checks-loaded t s e status =
      Ends-guard (λ _ u. (u ≡ s) × Fits p t) s
        (λ _. refuse_if (leb_ℤ p.weight_kg t.empty_weight) Reason.invalid_weight_order)
        (leb_ℤ t.empty_weight (pos 0)) Reason.empty_weight_required
        (λ weighed. by_order (leb_ℤ p.weight_kg t.empty_weight) refl weighed)
    where
      by_order :
          (b : Bool)
          → leb_ℤ p.weight_kg t.empty_weight ≡ b
          → leb_ℤ t.empty_weight (pos 0) ≡ false
          → Ends (λ _ u. (u ≡ s) × Fits p t) (refuse_if b Reason.invalid_weight_order s)
      by_order true o w = by_refusal Reason.invalid_weight_order s
      by_order false o w = with_value tt s (refl, fits_loaded e status w o)

  status_for :
      (m : MissionStatus) (type : ReadingType) (t : TicketStatus)
      → not (mission_allows_reading m type t) ≡ false
      → ((type ≡ ReadingType.empty) × (t ≡ pending_empty))
        ⊎ ((type ≡ ReadingType.loaded) × (t ≡ empty_registered))
  status_for m ReadingType.empty t h = inl (refl, ground arith)
  status_for m ReadingType.loaded t h = inr (refl, ground arith)

  pub check_order-Ends :
      (m : MissionStatus) (t : Ticket) (s : Db)
      → not (mission_allows_reading m p.reading_type t.status) ≡ false
      → Ends (λ _ u. (u ≡ s) × Fits p t) (check_order p t s)
  check_order-Ends m t s allowed = elim (status_for m p.reading_type t.status allowed) [
    | inl (e, status) ↦
        let run : check_order p t s ≡ (ok tt, s) = ground (arith, e) in
        subst⁻¹ (λ x. Ends (λ _ u. (u ≡ s) × Fits p t) x) run
          (with_value tt s (refl, fits_empty e status))
    | inr (e, status) ↦
        let run : check_order p t s ≡ order_checks t s = ground (arith, e) in
        subst⁻¹ (λ x. Ends (λ _ u. (u ≡ s) × Fits p t) x) run (checks-loaded t s e status)
  ]

  answer-Weighed :
      (i : ℕ) (next : TicketStatus) (taken : Option ℕ) (s : Db)
      → ((taken ≡ none)
          → (t : Ticket) × Origin o p i t × Fits p t × (find i s.tickets ≡ some (read p next t)))
      → Gives p next
      → Ends (Q o p) (answer p i next taken s)
  unfolding answer
  answer-Weighed i next (some k) s written gives = with_value _ _ (inl refl)
  answer-Weighed i next none s written gives =
      let (t, origin, fits, row) = written refl in
      with_value _ _
        (inr (record { before = t; origin = origin; fits = fits; gives = gives; row = row }))

  module _ (at i : ℕ) (t : Ticket) (next : TicketStatus) (s : Db)
      (there : find i s.tickets ≡ some t) (origin : Origin o p i t) (fits : Fits p t) where
    abbrev R : Option ℕ → Db → Type 0
    R taken u =
        (taken ≡ none)
        → (x : Ticket) × Origin o p i x × Fits p x × (find i u.tickets ≡ some (read p next x))

    take_in_tx-Weighed : Ends R (take_in_tx p at i next s)
    take_in_tx-Weighed =
        elim (Option-cases (find_agent_ingest p.weighbridge_id at p.reading_type s.agent_ingests)) [
          | inl free ↦
              let run = run_free p at i next s t free there in
              rw run (
                with_value none _
                  (λ _. (t, origin, fits, find-update_self i (read p next) s.tickets there)))
          | inr (a, e) ↦
              let run = run_taken p at i next s a e in
              rw run (with_value (some a.ticket_id) s (λ h. absurd (cc)))
        ]

    pub finish-Weighed :
        Gives p next → Ends (Q o p) ((transaction (take_in_tx p at i next) >>= answer p i next) s)
    finish-Weighed gives =
        Ends-bind (Q o p) R s (transaction (take_in_tx p at i next)) (answer p i next)
          (Ends-transaction R s (take_in_tx p at i next) take_in_tx-Weighed)
          (λ taken u h. answer-Weighed i next taken u h gives)
