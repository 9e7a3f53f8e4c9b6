-- ===== src/Sdk/Circuit/Laws.antt =====
-- The states of the breaker of shared/sdk/retries.ts.
use arma_partner_api_sandbox.Prelude.{
  ℕ, ◌≤◌, ◌<◌, ◌≡◌, ◌≢◌, Option, none, some, List, [], ◌∷◌, arith,
}
use arma_partner_api_sandbox.Sdk.Circuit.{
  CircuitBreaker, closed, new, Call, check_at, success, failure_at, step, run,
}

-- What every breaker built by the constructor and used by its methods satisfies.
pub record IsValid (b : CircuitBreaker) : Type 0 where
  pub positive : 1 ≤ b.threshold
  pub closed_below : b.state ≡ closed → b.consecutive_failures < b.threshold
  pub tripped_at : b.state ≢ closed → b.last_failure_at ≢ none
  pub tripped_count : b.state ≢ closed → 1 ≤ b.consecutive_failures

-- The constructor's breaker is valid.
pub new-IsValid :
    (threshold : ℕ) (timeout : Option ℕ) (b : CircuitBreaker)
    → new threshold timeout ≡ some b
    → IsValid b
unfolding new
new-IsValid threshold timeout b h = ground arith

step-IsValid : (b : CircuitBreaker) (c : Call) → IsValid b → IsValid (step b c)
unfolding step
step-IsValid b (check_at now) h = ground arith
step-IsValid b success h = ground arith
step-IsValid b (failure_at now) h = ground arith

run_from-IsValid : (b : CircuitBreaker) (cs : List Call) → IsValid b → IsValid (run b cs)
unfolding run
run_from-IsValid b [] h = h
run_from-IsValid b (c ∷ cs) h = run_from-IsValid (step b c) cs (step-IsValid b c h)

-- Whatever calls are made, in any order, of a breaker that the constructor built: the threshold is
-- at least 1; a closed breaker has counted fewer failures than the threshold; one that is open or
-- half open has counted a failure and knows the time of the last one.
pub run-IsValid :
    (threshold : ℕ) (timeout : Option ℕ) (b : CircuitBreaker) (cs : List Call)
    → new threshold timeout ≡ some b
    → IsValid (run b cs)
run-IsValid threshold timeout b cs h = run_from-IsValid b cs (new-IsValid threshold timeout b h)
