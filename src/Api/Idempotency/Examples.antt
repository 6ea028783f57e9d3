-- ===== src/Api/Idempotency/Examples.antt =====
-- The store on concrete requests: two tenants, a store of one or two entries.
use propfirm_engine.Base.{ℕ, ◌+◌, ◌%◌, ◌≤◌, List, [], ◌∷◌, ◌++◌, some, ◌≡◌, refl, arith, length}
use propfirm_engine.Api.Idempotency.{
  Text, IdempotencyOutcome, fresh, replay, conflict, Environment, Request, IdempotencyStore, new,
  check, check_and_remember, hash_body,
}
use propfirm_engine.Api.Idempotency.Keys.{IsDisplay}
use propfirm_engine.Api.Idempotency.Queue.{Represents}
use propfirm_engine.Api.Idempotency.Refines.{
  Call, to_check, to_remember, to_check_and_remember, run, queue_run, run-refines, length-run,
}
use propfirm_engine.Api.Idempotency.Origins.{AnyOf, Answers, replay-isolated}
use propfirm_engine.Api.Idempotency.Replays.{retry-replays, retried}

abbrev total : List ℕ → ℕ
total [] = 0
total (b ∷ bs) = b + total bs

-- A UUID is shown as one character, and the digest has two bytes.
abbrev environment : Environment
environment = record {
  show_uuid = λ t. (t + 1) ∷ [];
  sha256 = λ m. total m % 256 ∷ length m % 256 ∷ [];
}

environment-IsDisplay : IsDisplay environment
environment-IsDisplay = record {
  show_injective = λ a b e. ground (arith, e);
  show_no_nul = λ a. ground arith;
}

abbrev request : ℕ → ℕ → Request
request tenant body = record {
  tenant_id = some tenant;
  endpoint = 47 ∷ 101 ∷ [];
  key = 7 ∷ [];
  body = body ∷ [];
}

abbrev calls : List Call
calls =
    to_check_and_remember 10 (request 1 5) (65 ∷ [])
    ∷ to_check_and_remember 11 (request 2 6) (66 ∷ [])
    ∷ to_check 12 (request 1 5)
    ∷ to_check 12 (request 1 9)
    ∷ to_remember 13 (request 3 5) (67 ∷ [])
    ∷ to_check 14 (request 1 5)
    ∷ to_check 14 (request 2 6)
    ∷ to_check 200 (request 2 6)
    ∷ []

-- A store of two entries: a replay, a conflict, an eviction and an expiry.
answers_of_calls :
    (run environment (new 2 100) calls).1
    ≡ fresh ∷ fresh ∷ replay (65 ∷ []) ∷ conflict ∷ fresh ∷ fresh ∷ replay (66 ∷ []) ∷ fresh ∷ []
unfolding run new propfirm_engine.Api.Idempotency.same_text
answers_of_calls = refl

run-refines_example :
    ((run environment (new 2 100) calls).1 ≡ (queue_run environment 2 100 [] calls).1)
    × Represents
        (run environment (new 2 100) calls).0.inner
        (queue_run environment 2 100 [] calls).0
run-refines_example = run-refines environment 2 100 calls

length-run_example :
    let inner = (run environment (new 2 100) calls).0.inner in
    (length inner.entries ≡ length inner.order) × (length inner.order ≤ 2)
length-run_example = length-run environment 2 100 calls

abbrev first_calls : List Call
first_calls =
    to_check_and_remember 10 (request 1 5) (65 ∷ [])
    ∷ to_check_and_remember 11 (request 2 6) (66 ∷ [])
    ∷ []

replay-isolated_example : AnyOf (Answers environment (request 1 5) (65 ∷ [])) first_calls
unfolding check run new propfirm_engine.Api.Idempotency.same_text
replay-isolated_example =
    replay-isolated environment environment-IsDisplay 2 100 first_calls 12 (request 1 5) (65 ∷ [])
      (refl, refl) ((refl, refl), ((refl, refl), tt)) refl

abbrev others : List Call
others = to_check_and_remember 11 (request 2 6) (66 ∷ []) ∷ []

retry-replays_example :
    (check_and_remember environment 12
      (run environment
        (new 2 100)
        ([] ++ to_check_and_remember 10 (request 1 5) (65 ∷ []) ∷ others)).0
      (request 1 9)
      (68 ∷ [])).1
    ≡ retried environment 2 100 (request 1 5) (65 ∷ []) (request 1 9)
unfolding check_and_remember run new
retry-replays_example =
    retry-replays environment 2 100 [] others 10 12 (request 1 5) (request 1 9) (65 ∷ []) (68 ∷ [])
      refl refl (omega arith, tt) (omega arith) (omega arith)
