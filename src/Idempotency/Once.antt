-- ===== src/Idempotency/Once.antt =====
-- A request that has succeeded is not run again under its key: within a day every further one gets
-- the same answer, whatever other requests come between.
use logestic.Prelude.{
  ℕ, ◌+◌, ◌≤◌, Bool, true, Option, none, some, List, [], ◌∷◌, filter, ◌==◌, ==_iff, if◌then◌else◌,
  ◌≡◌, ◌≢◌, sym, ap, arith, Bool-cases, inl, inr,
}
use logestic.Prelude.Table.{Table, find, find-update_ne}
use logestic.Idempotency.{
  Row, key_mismatch, replayed, ttl_ms, is_success_status, purge_expired, delete_key, find_key,
  respond_from_existing, try_acquire, look, acquire, take_request, finish_request, complete,
}

module _ {B : Type 0} where
  find-filter :
      (p : ℕ × Row B → Bool) (key : ℕ) (r : Row B) (rows : Table (Row B))
      → find key rows ≡ some r
      → p (key, r) ≡ true
      → find key (filter p rows) ≡ some r
  unfolding find
  find-filter p key r [] h keeps = absurd (ground arith)
  find-filter p key r ((k, x) ∷ rows) h keeps = elim (Bool-cases (key == k)) [
    | inl same ↦
        let e : key ≡ k = (==_iff key k).0 same in
        let ex : x ≡ r = ground arith in
        let here : p (k, x) ≡ true = rw (sym e, ex) keeps in ground (arith, here)
    | inr other ↦ let rest = find-filter p key r rows (ground arith) keeps in ground (arith, rest)
  ]

  purge-find :
      (now key : ℕ) (r : Row B) (rows : Table (Row B))
      → find key rows ≡ some r
      → now ≤ r.created_at + ttl_ms
      → find key (purge_expired now rows) ≡ some r
  unfolding purge_expired
  purge-find now key r rows h young = find-filter _ key r rows h (ground arith)

  delete-find :
      (key k : ℕ) (r : Row B) (rows : Table (Row B))
      → key ≢ k
      → find key rows ≡ some r
      → find key (delete_key k rows) ≡ some r
  unfolding delete_key
  delete-find key k r rows ne h = find-filter _ key r rows h (ground arith)

  module _ (now key hash : ℕ) (r : Row B) (young : now ≤ r.created_at + ttl_ms) where
    look-replays :
        (rows : Table (Row B)) (code : ℕ)
        → find key rows ≡ some r
        → r.status_code ≡ some code
        → is_success_status code ≡ true
        → look now key hash rows ≡ (
          some (if r.request_hash == hash then replayed code r.response_body else key_mismatch),
          rows,
        )
    unfolding look find_key respond_from_existing
    look-replays rows code h at success = ground arith

    look-find :
        (k : ℕ) (rows : Table (Row B))
        → key ≢ k
        → find key rows ≡ some r
        → find key (look now k hash rows).1 ≡ some r
    unfolding look find_key respond_from_existing
    look-find k rows ne h = let gone = delete-find key k r rows ne h in ground (arith, gone)

    acquire-find :
        (k : ℕ) (rows : Table (Row B))
        → key ≢ k
        → find key rows ≡ some r
        → find key (acquire now k hash rows).1 ≡ some r
    unfolding acquire try_acquire find
    acquire-find k rows ne h = let kept = look-find k rows ne h in ground (arith, kept)

    take_replays :
        (rows : Table (Row B)) (code : ℕ)
        → find key rows ≡ some r
        → r.status_code ≡ some code
        → is_success_status code ≡ true
        → take_request now key hash rows ≡ (
          (if r.request_hash == hash then replayed code r.response_body else key_mismatch),
          purge_expired now rows,
        )
    unfolding take_request
    take_replays rows code h at success =
        let there = purge-find now key r rows h young in
        let seen = look-replays (purge_expired now rows) code there at success in
        ground (arith, seen)

    take-find_other :
        (k : ℕ) (rows : Table (Row B))
        → key ≢ k
        → find key rows ≡ some r
        → find key (take_request now k hash rows).1 ≡ some r
    unfolding take_request
    take-find_other k rows ne h =
        let there = purge-find now key r rows h young in
        let looked = look-find k (purge_expired now rows) ne there in
        let acquired = acquire-find k (look now k hash (purge_expired now rows)).1 ne looked in
        ground (arith, looked, acquired)

  finish-find_other :
      (key k code : ℕ) (body : Option B) (r : Row B) (rows : Table (Row B))
      → key ≢ k
      → find key rows ≡ some r
      → find key (finish_request k code body rows) ≡ some r
  unfolding finish_request
  finish-find_other key k code none r rows ne h = delete-find key k r rows ne h
  finish-find_other key k code (some body) r rows ne h =
      let gone = delete-find key k r rows ne h in
      let kept = find-update_ne key k (complete code body) rows ne in ground (arith, gone, kept)

-- What a server gets: requests with a key, and the ends of their handlers.
pub data Step (B : Type 0) : Type 0 where
  takes : (now key hash : ℕ) → Step B
  finishes : (key code : ℕ) (body : Option B) → Step B

module _ {B : Type 0} where
  unfoldable pub run_steps : List (Step B) → Table (Row B) → Table (Row B)
  unfolding take_request finish_request
  run_steps [] rows = rows
  run_steps (takes now key hash ∷ steps) rows = run_steps steps (take_request now key hash rows).1
  run_steps (finishes key code body ∷ steps) rows =
      run_steps steps (finish_request key code body rows)

  -- Steps up to a time, in which no handler under the key ends.
  pub data Within (key until : ℕ) : List (Step B) → Type 0 where
    no_step : Within key until []
    take :
        (now k hash : ℕ) (steps : List (Step B))
        → now ≤ until
        → Within key until steps
        → Within key until (takes now k hash ∷ steps)
    finish :
        (k code : ℕ) (body : Option B) (steps : List (Step B))
        → key ≢ k
        → Within key until steps
        → Within key until (finishes k code body ∷ steps)

  module _ (key code : ℕ) (r : Row B) (at : r.status_code ≡ some code)
      (success : is_success_status code ≡ true) where
    take-find :
        (now k hash : ℕ) (rows : Table (Row B))
        → now ≤ r.created_at + ttl_ms
        → find key rows ≡ some r
        → find key (take_request now k hash rows).1 ≡ some r
    take-find now k hash rows young h = elim (Bool-cases (key == k)) [
      | inl same ↦
          let e : key ≡ k = (==_iff key k).0 same in
          let here = take_replays now key hash r young rows code h at success in
          let there = purge-find now key r rows h young in rw⁻¹ e (rw here there)
      | inr other ↦ take-find_other now key hash r young k rows (ground arith) h
    ]

    run-find :
        (steps : List (Step B)) (rows : Table (Row B))
        → Within key (r.created_at + ttl_ms) steps
        → find key rows ≡ some r
        → find key (run_steps steps rows) ≡ some r
    unfolding run_steps
    run-find _ rows no_step h = h
    run-find _ rows (take now k hash steps young w) h =
        run-find steps (take_request now k hash rows).1 w (take-find now k hash rows young h)
    run-find _ rows (finish k code' body steps ne w) h =
        run-find steps (finish_request k code' body rows) w
          (finish-find_other key k code' body r rows ne h)

    -- Once the row of a key has a success, every request under the key within a day of the row gets its answer,
    -- or is told that the body is another one, and its handler is not called, whatever requests under this
    -- and other keys come before it and whatever handlers of other keys end.
    pub never_run_again :
        (steps : List (Step B)) (rows : Table (Row B)) (now hash : ℕ)
        → find key rows ≡ some r
        → Within key (r.created_at + ttl_ms) steps
        → now ≤ r.created_at + ttl_ms
        → (take_request now key hash (run_steps steps rows)).0
          ≡ (if r.request_hash == hash then replayed code r.response_body else key_mismatch)
    never_run_again steps rows now hash h w young =
        let there = run-find steps rows w h in
        ap (λ x. x.0)
          (take_replays now key hash r young (run_steps steps rows) code there at success)
