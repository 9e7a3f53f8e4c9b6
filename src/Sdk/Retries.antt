-- ===== src/Sdk/Retries.antt =====
-- `RetryPolicy` of shared/sdk/retries.ts. The clock is an argument; a schedule is a list of delays.
pub mod Laws
use arma_partner_api_sandbox.Prelude.{
  ℕ, suc, ◌+◌, String, Bool, true, false, ◌||◌, Option, none, some, List, [], ◌∷◌, contains,
  get_elem?, length, leb, if◌then◌else◌,
}

abbrev pub retry_schedule_ms : List ℕ
retry_schedule_ms = 1000 ∷ 5000 ∷ 30000 ∷ 120000 ∷ 600000 ∷ []

pub record Allowed : Type 0 where
  pub delay_ms : ℕ
  pub next_attempt : ℕ
  pub retry_at : ℕ

-- `refused` is MAX_RETRIES_EXCEEDED with the attempts made
pub data RetryDecision : Type 0 where
  allowed : Allowed → RetryDecision
  refused : ℕ → RetryDecision

-- `schedule[attempts]` is `undefined` out of range, which the length test rules out
delay_decision : ℕ → ℕ → Option ℕ → RetryDecision
delay_decision now attempts none = refused attempts
delay_decision now attempts (some delay) =
    allowed (record { delay_ms = delay; next_attempt = attempts + 1; retry_at = now + delay })

unfoldable pub compute_backoff : List ℕ → ℕ → ℕ → RetryDecision
unfolding delay_decision
compute_backoff schedule now attempts =
    if leb (length schedule) attempts
    then refused attempts
    else delay_decision now attempts (get_elem? schedule attempts)

-- An optional flag is compared with `=== true` and `=== false`.
pub record Failure : Type 0 where
  pub retryable : Option Bool
  pub clean_retryable : Option Bool
  pub ambiguous : Option Bool

abbrev is_true : Option Bool → Bool
is_true (some true) = true
is_true _ = false

abbrev is_false : Option Bool → Bool
is_false (some false) = true
is_false _ = false

unfoldable pub can_auto_retry : Failure → Bool
can_auto_retry f =
    if is_true f.clean_retryable
    then true
    else if is_true f.ambiguous
    then false
    else if is_false f.retryable
    then false
    else is_true f.retryable

abbrev pub clean_retryable_codes : List String
clean_retryable_codes = "TRANSPORT_ERROR" ∷ "DOWNSTREAM_UNAVAILABLE" ∷ "UNAVAILABLE" ∷ []

abbrev pub ambiguous_retry_codes : List String
ambiguous_retry_codes =
    "CIRCUIT_OPEN" ∷ "WEBHOOK_DELIVERY_FAILED" ∷ "PERSISTENCE_FAILED"
    ∷ "RECEIPT_VERIFICATION_FAILED" ∷ []

pub record Classification : Type 0 where
  pub retryable : Bool
  pub ambiguous : Bool
  pub clean_retryable : Bool

unfoldable pub classify : String → Classification
classify code =
    let clean = contains clean_retryable_codes code in
    let unsure = contains ambiguous_retry_codes code in
    record { retryable = clean || unsure; ambiguous = unsure; clean_retryable = clean }

abbrev pub to_failure : Classification → Failure
to_failure c = record {
  retryable = some c.retryable;
  clean_retryable = some c.clean_retryable;
  ambiguous = some c.ambiguous;
}
