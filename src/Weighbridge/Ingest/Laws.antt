-- ===== src/Weighbridge/Ingest/Laws.antt =====
-- What a reading that is taken writes to the ticket of its mission.
use logestic.Prelude.{ℕ, false, not, Option, none, some, ◌≡◌, inl, inr, refl, ap, ◌∙◌}
use logestic.Prelude.Int.{ℤ}
use logestic.Prelude.Table.{find, insert, next_id, find-insert_self}
use logestic.Reasons.{Reason}
use logestic.Fsm.{MissionStatus}
use logestic.Store.{ok, Action, ◌>>=◌, transaction, refuse_if}
use logestic.Store.Ends.{Ends, with_value, at_ok, Ends-bind, Ends-guard, Ends-found}
use logestic.Store.Tables.{Db, AgentIngest, Ticket}
use logestic.Missions.DriverStep.{new_ticket, create_ticket}
use logestic.Weighbridge.Ingest.{
  IngestEnv, Reading, Ingested, ingest, take_reading, by_ingest, take_in_tx, answer, ticket_for,
  status_of_reading, check_order, find_ticket_of_mission, mission_allows_reading, is_manual_source,
}
use logestic.Weighbridge.Ingest.Fits.{
  Fits, Gives, Origin, its_own, fresh, Weighed, Q, status_of_reading-Ends, check_order-Ends,
  finish-Weighed,
}

module _ (o : Db) (p : Reading) where
  -- What follows once the ticket is there.
  from_status :
      (env : IngestEnv) (mine at i : ℕ) (q : ℤ) (t : Ticket) (s : Db)
      → find i s.tickets ≡ some t
      → Origin o p i t
      → Fits p t
      → Ends (Q o p) (
          (status_of_reading env p mine q t >>= λ next.
          (transaction (take_in_tx p at i next) >>= answer p i next))
            s)
  from_status env mine at i q t s there origin fits =
      Ends-bind (Q o p) (λ next u. (u ≡ s) × Gives p next) s (status_of_reading env p mine q t)
        (λ next. transaction (take_in_tx p at i next) >>= answer p i next)
        (status_of_reading-Ends p env mine q t s)
        (λ next u h.
          finish-Weighed o p at i t next u (ap (λ d. find i d.tickets) h.0 ∙ there) origin fits h.1)

  from_order :
      (env : IngestEnv) (m : MissionStatus) (mine at i : ℕ) (q : ℤ) (t : Ticket) (s : Db)
      → find i s.tickets ≡ some t
      → Origin o p i t
      → not (mission_allows_reading m p.reading_type t.status) ≡ false
      → Ends (Q o p) (
          (check_order p t >>= λ _.
          (status_of_reading env p mine q t >>= λ next.
          (transaction (take_in_tx p at i next) >>= answer p i next)))
            s)
  from_order env m mine at i q t s there origin allowed =
      Ends-bind (Q o p) (λ _ u. (u ≡ s) × Fits p t) s (check_order p t)
        (λ _. status_of_reading env p mine q t >>= λ next.
          (transaction (take_in_tx p at i next) >>= answer p i next))
        (check_order-Ends o p m t s allowed)
        (λ _ u h.
          from_status env mine at i q t u (ap (λ d. find i d.tickets) h.0 ∙ there) origin h.1)

  abbrev HasRow : ℕ × Ticket → Db → Type 0
  HasRow row u = (find row.0 u.tickets ≡ some row.1) × Origin o p row.0 row.1

  ticket_for-HasRow :
      (m : MissionStatus) (found : Option (ℕ × Ticket)) (s : Db)
      → find_ticket_of_mission p.mission_id o.tickets ≡ found
      → ((i : ℕ) (t : Ticket) → found ≡ some (i, t) → find i s.tickets ≡ some t)
      → Ends HasRow (ticket_for p m found s)
  unfolding ticket_for create_ticket
  ticket_for-HasRow m (some (i, t)) s e keyed = with_value (i, t) s (keyed i t refl, its_own e)
  ticket_for-HasRow m none s e keyed =
      let made = find-insert_self (new_ticket p.mission_id p.ticket_suffix) s.tickets in
      let leaf : Ends HasRow (
        ok (next_id s.tickets, new_ticket p.mission_id p.ticket_suffix),
        record s { tickets = insert (new_ticket p.mission_id p.ticket_suffix) s.tickets },
      ) =
        with_value _ _ (made, fresh e refl) in
      search (Ends-guard, leaf) depth 10

  module _ (env : IngestEnv) (mine at : ℕ)
      (keyed : (i : ℕ) (t : Ticket)
        → find_ticket_of_mission p.mission_id o.tickets ≡ some (i, t)
        → find i o.tickets ≡ some t) where
    abbrev rest_of : MissionStatus → ℕ → ℤ → ℕ × Ticket → Action Ingested
    rest_of m load_mine q row =
        refuse_if (is_manual_source row.1.entry_source) Reason.manual_entry_locked >>= λ _.
        (refuse_if (not (mission_allows_reading m p.reading_type row.1.status))
            Reason.invalid_state_for_reading
          >>= λ _.
              (check_order p row.1 >>= λ _.
              (status_of_reading env p load_mine q row.1 >>= λ next.
              (transaction (take_in_tx p at row.0 next) >>= answer p row.0 next))))

    rest_of-Ends :
        (m : MissionStatus) (load_mine : ℕ) (q : ℤ) (row : ℕ × Ticket) (u : Db)
        → HasRow row u
        → Ends (Q o p) (rest_of m load_mine q row u)
    rest_of-Ends m load_mine q (i, t) u (there, origin) = search (Ends-guard, from_order) depth 10

    from_ticket :
        (m : MissionStatus) (load_mine : ℕ) (q : ℤ)
        → Ends (Q o p) (
            (ticket_for p m (find_ticket_of_mission p.mission_id o.tickets)
                >>= rest_of m load_mine q)
              o)
    from_ticket m load_mine q =
        let found = find_ticket_of_mission p.mission_id o.tickets in
        Ends-bind (Q o p) HasRow o (ticket_for p m found) (rest_of m load_mine q)
          (ticket_for-HasRow m found o refl keyed) (λ row u h. rest_of-Ends m load_mine q row u h)

    take_reading-Weighed : Ends (Q o p) (take_reading env p mine at o)
    unfolding take_reading
    take_reading-Weighed = search (Ends-found, Ends-guard, from_ticket) depth 20

by_ingest-Weighed :
    (env : IngestEnv) (p : Reading) (mine at : ℕ) (o : Option AgentIngest) (s : Db)
    → ((i : ℕ) (t : Ticket)
        → find_ticket_of_mission p.mission_id s.tickets ≡ some (i, t)
        → find i s.tickets ≡ some t)
    → Ends (Q s p) (by_ingest env p mine at o s)
by_ingest-Weighed env p mine at none s keyed = take_reading-Weighed s p env mine at keyed
by_ingest-Weighed env p mine at (some a) s keyed = with_value _ _ (inl refl)

ingest-Weighed :
    (env : IngestEnv) (p : Reading) (s : Db)
    → ((i : ℕ) (t : Ticket)
        → find_ticket_of_mission p.mission_id s.tickets ≡ some (i, t)
        → find i s.tickets ≡ some t)
    → Ends (Q s p) (ingest env p s)
unfolding ingest
ingest-Weighed env p s keyed = search (Ends-found, Ends-guard, by_ingest-Weighed) depth 20

-- A reading that is taken for the first time, where the mission's ticket is found under its id, has
-- written the ticket of its mission, a new one where there was none: an empty reading a ticket that was PENDING_EMPTY, which becomes
-- EMPTY_REGISTERED with the weight; a loaded one a ticket that was EMPTY_REGISTERED with a positive
-- empty weight below the loaded one, which gets the loaded weight and their difference as its net
-- weight and is held or registered.
pub ingest_ok :
    (env : IngestEnv) (p : Reading) (s : Db) (r : Ingested)
    → ((i : ℕ) (t : Ticket)
        → find_ticket_of_mission p.mission_id s.tickets ≡ some (i, t)
        → find i s.tickets ≡ some t)
    → (ingest env p s).0 ≡ ok r
    → r.idempotent ≡ false
    → Weighed s p r (ingest env p s).1
ingest_ok env p s r keyed done first =
    elim (at_ok (Q s p) (ingest env p s) r (ingest-Weighed env p s keyed) done) [
      | inl again ↦ absurd (cc)
      | inr weighed ↦ weighed
    ]
