-- ===== src/Weighbridge/Ingest/Rows.antt =====
-- A reading that is answered leaves a row with its key, for the ticket that it is answered with.
use logestic.Prelude.{
  ℕ, true, Option, none, some, List, ◌∷◌, ◌≡◌, inl, inr, refl, arith, Option-cases,
}
use logestic.Prelude.Table.{find, update}
use logestic.Reasons.{ticket_update_failed}
use logestic.Store.{ok, throws, ◌>>=◌, transaction}
use logestic.Store.Ends.{Ends, with_value, by_throw, Ends-bind, Ends-transaction, Ends-skip}
use logestic.Store.Tables.{Db, AgentIngest, ReadingType, Ticket, TicketStatus}
use logestic.Weighbridge.Submit.{update_ticket}
use logestic.Weighbridge.Ingest.{
  IngestEnv, Reading, take_reading, by_ingest, take_in_tx, answer, read, find_agent_ingest,
  has_reading_key, reading_eq, ingest_row,
}

-- The key of a reading has a row for the ticket.
abbrev pub TakenFor : Reading → ℕ → ℕ → Db → Type 0
TakenFor p at i s =
    (a : AgentIngest) × (find_agent_ingest p.weighbridge_id at p.reading_type s.agent_ingests
      ≡ some a)
    × (a.ticket_id ≡ i)

abbrev chosen : ℕ → Option ℕ → ℕ
chosen i none = i
chosen i (some k) = k

own_key :
    (p : Reading) (at i : ℕ)
    → has_reading_key p.weighbridge_id at p.reading_type (ingest_row p at i) ≡ true
own_key p at i = let e = own_type p.reading_type in ground (arith, e)
  where
    own_type : (t : ReadingType) → reading_eq t t ≡ true
    own_type ReadingType.empty = refl
    own_type ReadingType.loaded = refl

found_own :
    (p : Reading) (at i : ℕ) (l : List AgentIngest)
    → find_agent_ingest p.weighbridge_id at p.reading_type (ingest_row p at i ∷ l)
      ≡ some (ingest_row p at i)
unfolding find_agent_ingest
found_own p at i l = let own = own_key p at i in rw own refl

module _ (p : Reading) (at i : ℕ) (next : TicketStatus) (s : Db) where
  abbrev taken_db : Db
  taken_db = record s { agent_ingests = ingest_row p at i ∷ s.agent_ingests }

  -- The transaction writes the row and the ticket, or finds the row.
  pub run_free :
      (t : Ticket)
      → find_agent_ingest p.weighbridge_id at p.reading_type s.agent_ingests ≡ none
      → find i s.tickets ≡ some t
      → take_in_tx p at i next s
        ≡ (ok none, record taken_db { tickets = update i (read p next) s.tickets })
  unfolding take_in_tx update_ticket
  run_free t free there = ground (arith, free, there)

  pub run_missing :
      find_agent_ingest p.weighbridge_id at p.reading_type s.agent_ingests ≡ none
      → find i s.tickets ≡ none
      → take_in_tx p at i next s ≡ (throws ticket_update_failed, taken_db)
  unfolding take_in_tx update_ticket
  run_missing free missing = ground (arith, free, missing)

  pub run_taken :
      (a : AgentIngest)
      → find_agent_ingest p.weighbridge_id at p.reading_type s.agent_ingests ≡ some a
      → take_in_tx p at i next s ≡ (ok (some a.ticket_id), s)
  unfolding take_in_tx
  run_taken a there = ground (arith, there)

  take_in_tx-Ends : Ends (λ o t. TakenFor p at (chosen i o) t) (take_in_tx p at i next s)
  take_in_tx-Ends =
      elim (Option-cases (find_agent_ingest p.weighbridge_id at p.reading_type s.agent_ingests)) [
        | inl free ↦ elim (Option-cases (find i s.tickets)) [
          | inl e ↦ rw (run_missing free e) (by_throw ticket_update_failed taken_db)
          | inr (t, e) ↦
              rw (run_free t free e)
                (with_value none _ (ingest_row p at i, found_own p at i s.agent_ingests, refl))
        ]
        | inr (x, e) ↦ rw (run_taken x e) (with_value (some x.ticket_id) s (x, e, refl))
      ]

answer-Ends :
    (p : Reading) (at i : ℕ) (next : TicketStatus) (o : Option ℕ) (s : Db)
    → TakenFor p at (chosen i o) s
    → Ends (λ r t. TakenFor p at r.ticket_id t) (answer p i next o s)
unfolding answer
answer-Ends p at i next none s h = with_value _ _ h
answer-Ends p at i next (some k) s h = with_value _ _ h

finish-Ends :
    (p : Reading) (at i : ℕ) (next : TicketStatus) (s : Db)
    → Ends
        (λ r t. TakenFor p at r.ticket_id t)
        ((transaction (take_in_tx p at i next) >>= answer p i next) s)
finish-Ends p at i next s =
    Ends-bind (λ r t. TakenFor p at r.ticket_id t) (λ o t. TakenFor p at (chosen i o) t) s
      (transaction (take_in_tx p at i next)) (answer p i next)
      (Ends-transaction (λ o t. TakenFor p at (chosen i o) t) s (take_in_tx p at i next)
        (take_in_tx-Ends p at i next s))
      (λ o t h. answer-Ends p at i next o t h)

take_reading-Ends :
    (env : IngestEnv) (p : Reading) (mine at : ℕ) (s : Db)
    → Ends (λ r t. TakenFor p at r.ticket_id t) (take_reading env p mine at s)
unfolding take_reading
take_reading-Ends env p mine at s = search (finish-Ends, Ends-skip) depth 40

pub by_ingest-Ends :
    (env : IngestEnv) (p : Reading) (mine at : ℕ) (o : Option AgentIngest) (s : Db)
    → find_agent_ingest p.weighbridge_id at p.reading_type s.agent_ingests ≡ o
    → Ends (λ r t. TakenFor p at r.ticket_id t) (by_ingest env p mine at o s)
by_ingest-Ends env p mine at none s e = take_reading-Ends env p mine at s
by_ingest-Ends env p mine at (some a) s e = with_value _ _ (a, e, refl)
