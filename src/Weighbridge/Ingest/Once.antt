-- ===== src/Weighbridge/Ingest/Once.antt =====
-- A reading of an agent is taken once: its row stays over any sequence of readings, and a reading with
-- its key is answered from it.
use logestic.Prelude.{ℕ, false, some, List, [], ◌∷◌, ◌≡◌, refl, sym, ap, ◌∙◌, arith}
use logestic.Prelude.Int.{pos, leb_ℤ}
use logestic.Store.{Outcome, ok}
use logestic.Store.Ends.{
  Ends, with_value, by_refusal, by_throw, at_ok, Ends-guard, Ends-found, Ends-skip,
}
use logestic.Store.Tables.{Db, AgentIngest, ReadingType, pending_empty}
use logestic.Weighbridge.Ingest.{
  IngestEnv, Reading, Ingested, ingest, by_ingest, find_agent_ingest, already_taken,
}
use logestic.Weighbridge.Ingest.Kept.{IsTaken, ingest-IsTaken}
use logestic.Weighbridge.Ingest.Rows.{TakenFor, by_ingest-Ends}

-- What an answered reading leaves behind.
abbrev Answered : IngestEnv → Reading → Ingested → Db → Type 0
Answered env p r s =
    (at : ℕ) × (env.parse_captured_at p.captured_at ≡ some at) × TakenFor p at r.ticket_id s

weaken :
    (env : IngestEnv) (p : Reading) (at : ℕ) (x : Outcome Ingested × Db)
    → env.parse_captured_at p.captured_at ≡ some at
    → Ends (λ r t. TakenFor p at r.ticket_id t) x
    → Ends (Answered env p) x
weaken env p at _ e (with_value r t h) = with_value r t (at, e, h)
weaken env p at _ e (by_refusal r t) = by_refusal r t
weaken env p at _ e (by_throw r t) = by_throw r t

answered :
    (env : IngestEnv) (p : Reading) (mine at : ℕ) (s : Db)
    → env.parse_captured_at p.captured_at ≡ some at
    → Ends (Answered env p) (
        by_ingest env p mine at
          (find_agent_ingest p.weighbridge_id at p.reading_type s.agent_ingests)
          s)
answered env p mine at s e =
    let row = find_agent_ingest p.weighbridge_id at p.reading_type s.agent_ingests in
    weaken env p at (by_ingest env p mine at row s) e (by_ingest-Ends env p mine at row s refl)

ingest-Ends : (env : IngestEnv) (p : Reading) (s : Db) → Ends (Answered env p) (ingest env p s)
unfolding ingest
ingest-Ends env p s = search (Ends-found, Ends-guard, Ends-skip, answered) depth 30

-- The database after a sequence of readings, each with what it meets.
unfoldable pub ingest_all : List (IngestEnv × Reading) → Db → Db
unfolding ingest
ingest_all [] s = s
ingest_all ((env, p) ∷ rest) s = ingest_all rest (ingest env p s).1

ingest_all-IsTaken :
    (bridge at : ℕ) (type : ReadingType) (a : AgentIngest) (ps : List (IngestEnv × Reading))
    (s : Db)
    → IsTaken bridge at type a s
    → IsTaken bridge at type a (ingest_all ps s)
unfolding ingest_all
ingest_all-IsTaken bridge at type a [] s h = h
ingest_all-IsTaken bridge at type a ((env, p) ∷ ps) s h =
    ingest_all-IsTaken bridge at type a ps (ingest env p s).1
      (ingest-IsTaken bridge at type a env p s h).after

from_row :
    (env : IngestEnv) (p : Reading) (at mine : ℕ) (a : AgentIngest) (s : Db)
    → env.bridge_mine p.weighbridge_id p.api_key ≡ some mine
    → env.parse_captured_at p.captured_at ≡ some at
    → leb_ℤ p.weight_kg (pos 0) ≡ false
    → find_agent_ingest p.weighbridge_id at p.reading_type s.agent_ingests ≡ some a
    → ingest env p s ≡ (ok (already_taken a.ticket_id pending_empty s), s)
unfolding ingest
from_row env p at mine a s known parsed weighs row = ground (arith, known, parsed, weighs, row)

-- A reading that was answered is answered again from its row: over any sequence of readings, a reading
-- with a valid key and a positive weight, of the same bridge, type and time, gets the same ticket,
-- marked as taken before, and writes nothing.
pub ingest_once :
    (env : IngestEnv) (p : Reading) (s : Db) (r : Ingested) (at : ℕ)
    → (ingest env p s).0 ≡ ok r
    → env.parse_captured_at p.captured_at ≡ some at
    → (ps : List (IngestEnv × Reading)) (env' : IngestEnv) (p' : Reading) (mine : ℕ)
    → env'.bridge_mine p'.weighbridge_id p'.api_key ≡ some mine
    → env'.parse_captured_at p'.captured_at ≡ some at
    → leb_ℤ p'.weight_kg (pos 0) ≡ false
    → p'.weighbridge_id ≡ p.weighbridge_id
    → p'.reading_type ≡ p.reading_type
    → let s' = ingest_all ps (ingest env p s).1 in
      ingest env' p' s' ≡ (ok (already_taken r.ticket_id pending_empty s'), s')
ingest_once env p s r at done parsed ps env' p' mine known parsed' weighs bridge type =
    let s' = ingest_all ps (ingest env p s).1 in
    let (at', e, (a, row, own)) =
      at_ok (Answered env p) (ingest env p s) r (ingest-Ends env p s) done in
    let same : at' ≡ at = cc in
    let kept = ingest_all-IsTaken p.weighbridge_id at' p.reading_type a ps (ingest env p s).1 row in
    let found : find_agent_ingest p'.weighbridge_id at p'.reading_type s'.agent_ingests ≡ some a =
      ap (λ n. find_agent_ingest n at p'.reading_type s'.agent_ingests) bridge
      ∙ ap (λ n. find_agent_ingest p.weighbridge_id at n s'.agent_ingests) type
      ∙ ap (λ n. find_agent_ingest p.weighbridge_id n p.reading_type s'.agent_ingests) (sym same)
      ∙ kept in
    from_row env' p' at mine a s' known parsed' weighs found
    ∙ ap (λ n. (ok (already_taken n pending_empty s'), s')) own
