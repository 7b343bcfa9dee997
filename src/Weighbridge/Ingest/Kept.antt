-- ===== src/Weighbridge/Ingest/Kept.antt =====
-- The row of a reading stays over every further reading.
use logestic.Prelude.{
  ℕ, true, Option, none, some, List, ◌∷◌, ==_iff, ◌≡◌, inl, inr, ap, ◌∙◌, arith, Bool-cases,
  Option-cases,
}
use logestic.Prelude.Int.{ℤ}
use logestic.Prelude.Table.{find}
use logestic.Fsm.{MissionStatus}
use logestic.Store.Keeps.{
  Keeps, Keeps-same, Keeps-bind, Keeps-transaction, Keeps-or_refuse, Keeps-refuse_if,
}
use logestic.Store.Tables.{Db, AgentIngest, ReadingType, Ticket, TicketStatus}
use logestic.Weighbridge.Submit.{update_ticket}
use logestic.Missions.DriverStep.{create_ticket}
use logestic.Weighbridge.Ingest.{
  IngestEnv, Reading, ingest, take_reading, by_ingest, take_in_tx, answer, ticket_for,
  status_of_reading, check_order, find_agent_ingest, has_reading_key, reading_eq, ingest_row,
}

type_of_eq : (a b : ReadingType) → reading_eq a b ≡ true → a ≡ b
type_of_eq a b e = ground arith

-- A row with the key stands for it.
same_key :
    (bridge at : ℕ) (type : ReadingType) (a : AgentIngest) (l : List AgentIngest)
    → has_reading_key bridge at type a ≡ true
    → find_agent_ingest a.weighbridge_id a.captured_at a.reading_type l
      ≡ find_agent_ingest bridge at type l
same_key bridge at type a l h =
    let e : a.weighbridge_id ≡ bridge = ground (arith, h, ==_iff a.weighbridge_id bridge) in
    let e' : a.captured_at ≡ at = ground (arith, h, ==_iff a.captured_at at) in
    let e'' = type_of_eq a.reading_type type (ground (arith, h)) in
    ap (λ n. find_agent_ingest n a.captured_at a.reading_type l) e
    ∙ ap (λ n. find_agent_ingest bridge n a.reading_type l) e'
    ∙ ap (λ n. find_agent_ingest bridge at n l) e''

module _ (bridge at : ℕ) (type : ReadingType) (a : AgentIngest) where
  -- The reading of the key has the row.
  abbrev pub IsTaken : Db → Type 0
  IsTaken s = find_agent_ingest bridge at type s.agent_ingests ≡ some a

  new_row-IsTaken :
      (b : AgentIngest) (l : List AgentIngest)
      → find_agent_ingest b.weighbridge_id b.captured_at b.reading_type l ≡ none
      → find_agent_ingest bridge at type l ≡ some a
      → find_agent_ingest bridge at type (b ∷ l) ≡ some a
  unfolding find_agent_ingest
  new_row-IsTaken b l free taken = elim (Bool-cases (has_reading_key bridge at type b)) [
    | inl e ↦ let same = same_key bridge at type b l e in absurd (cc)
    | inr e ↦ rw e taken
  ]

  take_in_tx-IsTaken :
      (p : Reading) (at' i : ℕ) (next : TicketStatus) (s : Db)
      → IsTaken s
      → Keeps IsTaken (take_in_tx p at' i next s)
  unfolding take_in_tx update_ticket
  take_in_tx-IsTaken p at' i next s taken =
      elim (Option-cases (find_agent_ingest p.weighbridge_id at' p.reading_type s.agent_ingests)) [
        | inl free ↦
            let later = new_row-IsTaken (ingest_row p at' i) s.agent_ingests free taken in
            elim (Option-cases (find i s.tickets)) [
              | inl e ↦ record { after = ground (arith, free, e, later) }
              | inr (t, e) ↦ record { after = ground (arith, free, e, later) }
            ]
        | inr (x, e) ↦ record { after = ground (arith, e, taken) }
      ]

  ticket_for-IsTaken :
      (p : Reading) (m : MissionStatus) (o : Option (ℕ × Ticket)) (s : Db)
      → IsTaken s
      → Keeps IsTaken (ticket_for p m o s)
  unfolding ticket_for create_ticket
  ticket_for-IsTaken p m none s taken = search (Keeps-refuse_if, Keeps-same) depth 10
  ticket_for-IsTaken p m (some t) s taken = record { after = taken }

  check_order-IsTaken :
      (p : Reading) (t : Ticket) (s : Db) → IsTaken s → Keeps IsTaken (check_order p t s)
  check_order-IsTaken p t s taken = record { after = ground (arith, taken) }

  status_of_reading-IsTaken :
      (env : IngestEnv) (p : Reading) (mine : ℕ) (q : ℤ) (t : Ticket) (s : Db)
      → IsTaken s
      → Keeps IsTaken (status_of_reading env p mine q t s)
  unfolding status_of_reading
  status_of_reading-IsTaken env p mine q t s taken = record { after = ground (arith, taken) }

  answer-IsTaken :
      (p : Reading) (i : ℕ) (next : TicketStatus) (o : Option ℕ) (s : Db)
      → IsTaken s
      → Keeps IsTaken (answer p i next o s)
  unfolding answer
  answer-IsTaken p i next none s taken = record { after = taken }
  answer-IsTaken p i next (some k) s taken = record { after = taken }

  take_reading-IsTaken :
      (env : IngestEnv) (p : Reading) (mine at' : ℕ) (s : Db)
      → IsTaken s
      → Keeps IsTaken (take_reading env p mine at' s)
  unfolding take_reading
  take_reading-IsTaken env p mine at' s taken =
      search
        (
          Keeps-or_refuse, Keeps-refuse_if, Keeps-bind, Keeps-transaction, ticket_for-IsTaken,
          check_order-IsTaken, status_of_reading-IsTaken, take_in_tx-IsTaken, answer-IsTaken,
        )
        depth 40

  by_ingest-IsTaken :
      (env : IngestEnv) (p : Reading) (mine at' : ℕ) (o : Option AgentIngest) (s : Db)
      → IsTaken s
      → Keeps IsTaken (by_ingest env p mine at' o s)
  by_ingest-IsTaken env p mine at' none s taken = take_reading-IsTaken env p mine at' s taken
  by_ingest-IsTaken env p mine at' (some b) s taken = record { after = taken }

  pub ingest-IsTaken :
      (env : IngestEnv) (p : Reading) (s : Db) → IsTaken s → Keeps IsTaken (ingest env p s)
  unfolding ingest
  ingest-IsTaken env p s taken =
      search (Keeps-or_refuse, Keeps-refuse_if, by_ingest-IsTaken) depth 20
