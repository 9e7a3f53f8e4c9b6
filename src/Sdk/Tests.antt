-- ===== src/Sdk/Tests.antt =====
-- The parts of shared/sdk at concrete inputs.
use arma_partner_api_sandbox.Prelude.{
  ℕ, String, Bool, true, false, Option, none, some, List, [], ◌∷◌, ◌≡◌, ◌≢◌, ◌⊎◌, inl, inr, ◌↔◌,
  refl, arith, map, length, eq_ne, get_elem?, All, contains, Result, ok, err, joined, is_colon_free,
  ltb, leb, ◌+◌, ◌≤◌, ◌<◌, ◌==◌, if◌then◌else◌,
}
use arma_partner_api_sandbox.Prelude.Map.{Map, get}
use arma_partner_api_sandbox.Sdk.Retries.{Allowed, allowed, compute_backoff, retry_schedule_ms}
use arma_partner_api_sandbox.Sdk.Retries.Laws.{
  drive, compute_backoff-allowed_iff, drive-eq-schedule,
}
use arma_partner_api_sandbox.Sdk.Circuit
use arma_partner_api_sandbox.Sdk.Circuit.{
  CircuitBreaker, CircuitState, closed, open_state, half_open, Call, success, failure_at, new,
}
use arma_partner_api_sandbox.Sdk.Circuit.Laws.{IsValid, run-IsValid}
use arma_partner_api_sandbox.Sdk.Circuit.Probe.{
  answers, granted, failures, answers-open, granted-le-one, failures-state,
}
use arma_partner_api_sandbox.Sdk.Idempotency
use arma_partner_api_sandbox.Sdk.Idempotency.{
  IdempotencyRegistry, RecordedOutcome, Entry, fresh, duplicate, conflicting, resolve,
  record_outcome, is_valid_key, composite_key,
}
use arma_partner_api_sandbox.Sdk.Idempotency.Laws.{
  resolve-record_outcome, resolve-record_outcome_ne, expired_key_unrecordable,
}
use arma_partner_api_sandbox.Sdk.Replay
use arma_partner_api_sandbox.Sdk.Replay.{ReplayGuard, Use, prune_at, accepted, replayed}
use arma_partner_api_sandbox.Sdk.Replay.Laws.{check-replayed}
use arma_partner_api_sandbox.Sdk.Replay.Collisions.{check-shared_key}

abbrev second_retry : Allowed
second_retry = record { delay_ms = 5000; next_attempt = 2; retry_at = 5100 }

compute_backoff-allowed_iff_example :
    (compute_backoff retry_schedule_ms 100 1 ≡ allowed second_retry)
    ↔ ((get_elem? retry_schedule_ms 1 ≡ some 5000) × (2 ≡ 1 + 1) × (5100 ≡ 100 + 5000))
compute_backoff-allowed_iff_example =
    compute_backoff-allowed_iff retry_schedule_ms 100 1 second_retry

drive-eq-schedule_example : drive retry_schedule_ms 100 9 0 ≡ some retry_schedule_ms
drive-eq-schedule_example = drive-eq-schedule retry_schedule_ms 100 9 (omega arith)

abbrev new_breaker : CircuitBreaker
new_breaker = record {
  state = closed;
  consecutive_failures = 0;
  last_failure_at = none;
  threshold = 2;
  reset_timeout_ms = 30000;
}

abbrev open_breaker : CircuitBreaker
open_breaker = record {
  state = open_state;
  consecutive_failures = 2;
  last_failure_at = some 20;
  threshold = 2;
  reset_timeout_ms = 30000;
}

abbrev later_checks : List ℕ
later_checks = 30 ∷ 25 ∷ []

abbrev failure_times : List ℕ
failure_times = 10 ∷ 20 ∷ []

abbrev calls : List Call
calls = failure_at 10 ∷ failure_at 20 ∷ Call.check_at 30 ∷ success ∷ []

run-IsValid_example : IsValid (Circuit.run new_breaker calls)
unfolding new
run-IsValid_example = run-IsValid 2 none new_breaker calls refl

answers-open_example :
    (answers open_breaker later_checks ≡ map (λ _. Circuit.refused open_state) later_checks)
    × (Circuit.run open_breaker (map Call.check_at later_checks) ≡ open_breaker)
answers-open_example =
    answers-open open_breaker 20 later_checks refl refl (omega arith, (omega arith, tt))

granted-le-one_example : granted (answers open_breaker (40000 ∷ 40001 ∷ [])) ≤ 1
granted-le-one_example = granted-le-one open_breaker (40000 ∷ 40001 ∷ []) (λ h. absurd (cc h))

failures-state_example :
    (Circuit.run new_breaker (failures failure_times)).state
    ≡ (if leb 2 (0 + length failure_times) then open_state else closed)
failures-state_example = failures-state new_breaker failure_times refl (omega arith)

abbrev done : RecordedOutcome
done = record {
  outcome = Idempotency.success;
  status = 200;
  body_digest = "digest";
  receipt_id = none;
  at = 5;
}

abbrev no_records : IdempotencyRegistry
no_records = record { records = []; ttl_ms = 100 }

abbrev one_record : IdempotencyRegistry
one_record = record {
  records =
      ("tenant::key-00001", record { request_hash = "h1"; outcome = done; expires_at = 105 }) ∷ [];
  ttl_ms = 100;
}

resolve-record_outcome_example :
    resolve one_record 50 "tenant" "key-00001" "h1"
    ≡ ok (if ltb (5 + 100) 50 then fresh else if "h1" == "h1" then duplicate done else conflicting)
unfolding record_outcome is_valid_key arma_partner_api_sandbox.Prelude.matches_class
    arma_partner_api_sandbox.Prelude.is_token_char composite_key get
    arma_partner_api_sandbox.Prelude.Map.set joined
resolve-record_outcome_example =
    resolve-record_outcome no_records 5 "tenant" "key-00001" "h1" done one_record 50 "h1" refl

resolve-record_outcome_ne_example :
    resolve one_record 50 "other" "key-00001" "h2" ≡ resolve no_records 50 "other" "key-00001" "h2"
unfolding record_outcome is_valid_key arma_partner_api_sandbox.Prelude.matches_class
    arma_partner_api_sandbox.Prelude.is_token_char composite_key get
    arma_partner_api_sandbox.Prelude.Map.set joined
resolve-record_outcome_ne_example =
    resolve-record_outcome_ne no_records 5 "tenant" "key-00001" "h1" done one_record 50 "other"
      "key-00001" "h2" refl (inl (eq_ne "tenant" "other" refl))

expired_key_unrecordable_example :
    (resolve one_record 200 "tenant" "key-00001" "h2" ≡ ok fresh)
    × (record_outcome one_record 200 "tenant" "key-00001" "h2" done
        ≡ err "IDEMPOTENCY_RECORD_CONFLICT")
unfolding is_valid_key arma_partner_api_sandbox.Prelude.matches_class
    arma_partner_api_sandbox.Prelude.is_token_char get joined
expired_key_unrecordable_example =
    expired_key_unrecordable one_record 200 "tenant" "key-00001" "h2" done
      (record { request_hash = "h1"; outcome = done; expires_at = 105 }) refl
      (eq_ne "tenant" "" refl) refl (omega arith) (eq_ne "h1" "h2" refl)

abbrev no_nonces : ReplayGuard
no_nonces = record { nonces = []; window_ms = 100 }

abbrev seen : Replay.NonceRecord
seen = record { first_seen_at = 7; first_seen_request_id = some "req" }

abbrev one_nonce : String → ReplayGuard
one_nonce key = record { nonces = (key, seen) ∷ []; window_ms = 100 }

check-replayed_example :
    Replay.check (Replay.run (one_nonce "a::n") (prune_at 50 ∷ [])) 60 "a" "n" none
    ≡ ok (Replay.run (one_nonce "a::n") (prune_at 50 ∷ []), replayed seen)
unfolding Replay.check composite_key get arma_partner_api_sandbox.Prelude.Map.set joined
check-replayed_example =
    check-replayed no_nonces 7 "a" "n" (some "req") (one_nonce "a::n") (prune_at 50 ∷ []) 60 none
      refl (omega arith, tt) (omega arith)

check-shared_key_example :
    Replay.check (one_nonce "a::b::c") 60 "a" (joined "b" "c") none
    ≡ ok (one_nonce "a::b::c", replayed seen)
unfolding Replay.check composite_key joined get arma_partner_api_sandbox.Prelude.Map.set
check-shared_key_example =
    check-shared_key no_nonces 7 "a" "b" "c" (some "req") (one_nonce "a::b::c") 60 none refl
      (eq_ne "a" "" refl) (omega arith)
