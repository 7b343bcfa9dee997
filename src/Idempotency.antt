-- ===== src/Idempotency.antt =====
-- Requests with an `Idempotency-Key`: middleware/idempotency.ts over
-- repositories/idempotencyRepository.ts. A key with its route, and the hash of a body, are only
-- compared, so they are numbers. A request is taken before and finished after its handler.
pub mod Once
use logestic.Prelude.{
  ℕ, ◌+◌, ◌*◌, Bool, true, false, not, ◌&&◌, Option, none, some, List, [], ◌∷◌, filter, ◌==◌, leb,
  ltb, is_some, if◌then◌else◌,
}
use logestic.Prelude.Table.{Table, find, update}

pub record Row (B : Type 0) : Type 0 where
  pub request_hash : ℕ
  pub response_body : Option B
  pub status_code : Option ℕ
  pub created_at : ℕ

-- What the middleware answers, or that the handler is called.
pub data Reply (B : Type 0) : Type 0 where
  key_mismatch in_progress proceeds : Reply B
  replayed : ℕ → Option B → Reply B

-- In milliseconds.
abbrev pub ttl_ms : ℕ
ttl_ms = 24 * 60 * 60 * 1000

abbrev pub in_progress_stale_ms : ℕ
in_progress_stale_ms = 5 * 60 * 1000

abbrev pub is_success_status : ℕ → Bool
is_success_status code = leb 200 code && ltb code 300

module _ {B : Type 0} where
  abbrev pub is_expired : ℕ → Row B → Bool
  is_expired now r = ltb (r.created_at + ttl_ms) now

  unfoldable pub purge_expired : ℕ → Table (Row B) → Table (Row B)
  purge_expired now = filter (λ (_, r). not (is_expired now r))

  unfoldable pub delete_key : ℕ → Table (Row B) → Table (Row B)
  delete_key key = filter (λ (k, _). not (k == key))

  unfoldable pub find_key : ℕ → ℕ → Table (Row B) → Option (Row B) × Table (Row B)
  unfolding delete_key
  find_key now key rows = elim (find key rows) [
    | none ↦ (none, rows)
    | some r ↦ if is_expired now r then (none, delete_key key rows) else (some r, rows)
  ]

  -- The answer from the row that is there, or the row is deleted.
  unfoldable pub respond_from_existing :
      ℕ → ℕ → ℕ → Row B → Table (Row B) → Option (Reply B) × Table (Row B)
  unfolding delete_key
  respond_from_existing now key hash r rows =
      if not (r.request_hash == hash) then (some key_mismatch, rows) else elim r.status_code [
        | none ↦
            if ltb now (r.created_at + in_progress_stale_ms)
            then (some in_progress, rows)
            else (none, delete_key key rows)
        | some code ↦
            if is_success_status code
            then (some (replayed code r.response_body), rows)
            else (none, delete_key key rows)
      ]

  unfoldable pub try_acquire : ℕ → ℕ → ℕ → Table (Row B) → Bool × Table (Row B)
  try_acquire now key hash rows = if is_some (find key rows) then (false, rows) else (
    true,
    (
      key,
      record { request_hash = hash; response_body = none; status_code = none; created_at = now },
    )
        ∷ rows,
  )

  -- A second look at the row.
  unfoldable pub look : ℕ → ℕ → ℕ → Table (Row B) → Option (Reply B) × Table (Row B)
  unfolding find_key respond_from_existing
  look now key hash rows =
      let (existing, rows1) = find_key now key rows in
      elim existing [ none ↦ (none, rows1) | some r ↦ respond_from_existing now key hash r rows1 ]

  unfoldable pub acquire : ℕ → ℕ → ℕ → Table (Row B) → Reply B × Table (Row B)
  unfolding try_acquire look
  acquire now key hash rows =
      let (acquired, rows1) = try_acquire now key hash rows in
      if acquired
      then (proceeds, rows1)
      else let (again, rows2) = look now key hash rows1 in
        elim again [ none ↦ (in_progress, rows2) | some reply ↦ (reply, rows2) ]

  unfoldable pub take_request : ℕ → ℕ → ℕ → Table (Row B) → Reply B × Table (Row B)
  unfolding purge_expired look acquire
  take_request now key hash rows =
      let (handled, rows1) = look now key hash (purge_expired now rows) in
      elim handled [ none ↦ acquire now key hash rows1 | some reply ↦ (reply, rows1) ]

  abbrev pub complete : ℕ → B → Row B → Row B
  complete code body r = record r { status_code = some code; response_body = some body }

  -- `persist`, with the body that was sent, if any.
  unfoldable pub finish_request : ℕ → ℕ → Option B → Table (Row B) → Table (Row B)
  unfolding delete_key
  finish_request key code none rows = delete_key key rows
  finish_request key code (some body) rows =
      if is_success_status code then update key (complete code body) rows else delete_key key rows
