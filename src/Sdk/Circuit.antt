-- ===== src/Sdk/Circuit.antt =====
-- `CircuitBreaker` of shared/sdk/retries.ts. A method takes the clock's value and returns the new
-- breaker. `forceState`, which only tests call, is left out.
pub mod Laws
pub mod Probe
use arma_partner_api_sandbox.Prelude.{
  ℕ, zero, ◌+◌, Bool, true, false, ◌||◌, Option, none, some, List, [], ◌∷◌, leb, ltb, if◌then◌else◌,
}

pub data CircuitState : Type 0 where
  closed open_state half_open : CircuitState

pub record CircuitBreaker : Type 0 where
  pub state : CircuitState
  pub consecutive_failures : ℕ
  pub last_failure_at : Option ℕ
  pub threshold : ℕ
  pub reset_timeout_ms : ℕ

-- `none` is the throw of CIRCUIT_OPTIONS_INVALID
unfoldable pub new : ℕ → Option ℕ → Option CircuitBreaker
new threshold timeout =
    if ltb threshold 1
    then none
    else some (record {
      state = closed;
      consecutive_failures = 0;
      last_failure_at = none;
      threshold = threshold;
      reset_timeout_ms = elim timeout [ none ↦ 30000 | some t ↦ t ];
    })

-- `refused` says in `state` what the breaker was in; every refusal has the reason CIRCUIT_OPEN.
pub data CircuitDecision : Type 0 where
  proceed : CircuitDecision
  probe : CircuitDecision
  refused : CircuitState → CircuitDecision

-- `lastFailureAt !== null && now - lastFailureAt >= resetTimeoutMs`, with the sum moved over, since
-- the difference may be negative
reset_elapsed : ℕ → ℕ → Option ℕ → Bool
reset_elapsed now timeout none = false
reset_elapsed now timeout (some t) = leb (t + timeout) now

check_in : CircuitState → CircuitBreaker → ℕ → CircuitBreaker × CircuitDecision
unfolding reset_elapsed
check_in closed b now = (b, proceed)
check_in open_state b now =
    if reset_elapsed now b.reset_timeout_ms b.last_failure_at
    then (record b { state = half_open }, probe)
    else (b, refused open_state)
check_in half_open b now = (b, refused half_open)

unfoldable pub check : CircuitBreaker → ℕ → CircuitBreaker × CircuitDecision
unfolding check_in
check b now = check_in b.state b now

unfoldable pub record_success : CircuitBreaker → CircuitBreaker
record_success b = record b { state = closed; consecutive_failures = 0; last_failure_at = none }

abbrev is_half_open : CircuitState → Bool
is_half_open half_open = true
is_half_open _ = false

unfoldable pub record_failure : CircuitBreaker → ℕ → CircuitBreaker
record_failure b now =
    let failures = b.consecutive_failures + 1 in
    record b {
      consecutive_failures = failures;
      last_failure_at = some now;
      state = if is_half_open b.state || leb b.threshold failures then open_state else b.state;
    }

-- A client's calls, each with the clock's value.
pub data Call : Type 0 where
  check_at : ℕ → Call
  success : Call
  failure_at : ℕ → Call

unfoldable pub step : CircuitBreaker → Call → CircuitBreaker
unfolding check record_success record_failure
step b (check_at now) = (check b now).0
step b success = record_success b
step b (failure_at now) = record_failure b now

unfoldable pub run : CircuitBreaker → List Call → CircuitBreaker
run b [] = b
run b (c ∷ cs) = run (step b c) cs
