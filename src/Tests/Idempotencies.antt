-- ===== src/Tests/Idempotencies.antt =====
-- A request that is retried with its key.
use logestic.Prelude.{ℕ, some, none, List, [], ◌∷◌, ◌==◌, ◌≡◌, refl, arith, if◌then◌else◌}
use logestic.Prelude.Table.{find, update}
use logestic.Idempotency.{
  Row, proceeds, in_progress, key_mismatch, replayed, take_request, finish_request,
}
use logestic.Idempotency.Once.{
  Step, takes, finishes, run_steps, no_step, take, finish, never_run_again,
}

abbrev row : Row ℕ
row = record {
  request_hash = 77;
  response_body = some 9;
  status_code = some 201;
  created_at = 1000;
}

-- The first request, and what it leaves.
first :
    ((take_request {B = ℕ} 1000 5 77 []).0 ≡ proceeds)
    × (finish_request 5 201 (some 9) (take_request {B = ℕ} 1000 5 77 []).1 ≡ (5, row) ∷ [])
unfolding take_request finish_request find update
first = (refl, refl)

-- A second one while it runs.
meanwhile : (take_request 1200 5 77 (take_request {B = ℕ} 1000 5 77 []).1).0 ≡ in_progress
unfolding take_request find
meanwhile = refl

abbrev others : List (Step ℕ)
others = takes 2000 6 50 ∷ takes 2500 5 78 ∷ finishes 6 500 none ∷ []

never_run_again_example :
    (take_request 3000 5 77 (run_steps others ((5, row) ∷ []))).0
    ≡ (if row.request_hash == 77 then replayed 201 row.response_body else key_mismatch)
unfolding find
never_run_again_example =
    never_run_again 5 201 row refl refl others ((5, row) ∷ []) 3000 77 refl
      (take 2000 6 50 _ (omega arith)
        (take 2500 5 78 _ (omega arith) (finish 6 500 none _ (omega arith) no_step)))
      (omega arith)
