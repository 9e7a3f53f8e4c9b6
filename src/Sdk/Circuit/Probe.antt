-- ===== src/Sdk/Circuit/Probe.antt =====
-- How the breaker of shared/sdk/retries.ts opens, waits and probes.
use arma_partner_api_sandbox.Prelude.{
  ℕ, ◌+◌, ◌≤◌, ◌<◌, ◌≡◌, ◌≢◌, refl, some, List, [], ◌∷◌, arith, All, map, length, inl, inr,
  if◌then◌else◌, leb, Bool-cases,
}
use arma_partner_api_sandbox.Sdk.Circuit.{
  CircuitBreaker, closed, open_state, half_open, CircuitDecision, proceed, probe, refused, check,
  Call, check_at, failure_at, step, run,
}

-- The answers to checks made one after another, with no outcome recorded between them.
unfoldable pub answers : CircuitBreaker → List ℕ → List CircuitDecision
answers b [] = []
answers b (now ∷ nows) = let (b', d) = check b now in d ∷ answers b' nows

abbrev pub is_granted : CircuitDecision → ℕ
is_granted proceed = 1
is_granted probe = 1
is_granted (refused _) = 0

abbrev pub granted : List CircuitDecision → ℕ
granted [] = 0
granted (d ∷ ds) = is_granted d + granted ds

-- From the failure that opened the breaker until the reset time has passed, every check is refused
-- and leaves the breaker as it was, whatever the order of the checks' times.
pub answers-open :
    (b : CircuitBreaker) (t : ℕ) (nows : List ℕ)
    → b.state ≡ open_state
    → b.last_failure_at ≡ some t
    → All (λ now. now < t + b.reset_timeout_ms) nows
    → (answers b nows ≡ map (λ _. refused open_state) nows) × (run b (map check_at nows) ≡ b)
unfolding answers check run step
answers-open b t [] s l h = (refl, refl)
answers-open b t (now ∷ nows) s l (h, hs) = ground (arith, answers-open b t nows s l hs)

granted-half_open :
    (b : CircuitBreaker) (nows : List ℕ) → b.state ≡ half_open → granted (answers b nows) ≡ 0
unfolding answers check
granted-half_open b [] s = refl
granted-half_open b (now ∷ nows) s = ground (arith, granted-half_open b nows s)

-- Between two recorded outcomes a breaker that is not closed grants at most one check, the canary.
pub granted-le-one :
    (b : CircuitBreaker) (nows : List ℕ) → b.state ≢ closed → granted (answers b nows) ≤ 1
unfolding answers check
granted-le-one b [] s = omega arith
granted-le-one b (now ∷ nows) s = ground (
  arith,
  granted-le-one b nows s,
  granted-half_open b nows,
  granted-half_open (record b { state = half_open }) nows refl,
)

abbrev pub failures : List ℕ → List Call
failures ts = map failure_at ts

failures-open :
    (b : CircuitBreaker) (ts : List ℕ)
    → b.state ≡ open_state
    → (run b (failures ts)).state ≡ open_state
unfolding run step
failures-open b [] s = s
failures-open b (t ∷ ts) s = failures-open (step b (failure_at t)) ts (ground arith)

-- Consecutive failures open a closed breaker exactly when they bring its count to the threshold;
-- until then it stays closed.
pub failures-state :
    (b : CircuitBreaker) (ts : List ℕ)
    → b.state ≡ closed
    → b.consecutive_failures < b.threshold
    → (run b (failures ts)).state
      ≡ (if leb b.threshold (b.consecutive_failures + length ts) then open_state else closed)
unfolding run step
failures-state b [] s h = ground arith
failures-state b (t ∷ ts) s h = elim (Bool-cases (leb b.threshold (b.consecutive_failures + 1))) [
  | inl trips ↦ ground (arith, failures-open (step b (failure_at t)) ts)
  | inr stays ↦ ground (arith, failures-state (step b (failure_at t)) ts)
]
