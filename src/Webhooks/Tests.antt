-- ===== src/Webhooks/Tests.antt =====
-- The webhook guard and the delivery at concrete events.
use arma_partner_api_sandbox.Prelude.{
  ℕ, ◌+◌, String, Option, none, some, List, [], ◌∷◌, ◌≡◌, ◌≢◌, ◌⊎◌, refl, arith, eqb, false, Result,
  ok,
}
use arma_partner_api_sandbox.Prelude.Map.{get}
use arma_partner_api_sandbox.Webhooks.Guard.{
  WebhookEventGuard, WebhookGuardCheckInput, passed, check, run,
}
use arma_partner_api_sandbox.Webhooks.Guard.Laws.{check_once, check_consecutive}
use arma_partner_api_sandbox.Webhooks.Delivery.{
  TransportResult, WebhookEnvelope, WebhookDeliveryService, Delivered, DeliveryResult, delivered,
  succeeded, failed, delivered_duplicate, deliver,
}
use arma_partner_api_sandbox.Webhooks.Delivery.Laws.{HasEnded, deliver-HasEnded}
use arma_partner_api_sandbox.Webhooks.Delivery.Repeats.{
  Delivery, made, run as run_calls, delivered_once,
}

abbrev new_guard : WebhookEventGuard
new_guard = record { seen_nonces = []; seen_event_ids = []; stream_sequence = ("s", 3) ∷ [] }

abbrev event : String → ℕ → String → WebhookGuardCheckInput
event id sequence nonce = record { stream = "s"; sequence = sequence; event_id = id; nonce = nonce }

abbrev first_event : WebhookGuardCheckInput
first_event = event "e1" 4 "nonce-nonce-nonce-01"

abbrev between : List (WebhookGuardCheckInput × ℕ)
between = (event "e2" 5 "nonce-nonce-nonce-02", 20) ∷ []

check_once_example :
    (check
      (event "e1" 6 "nonce-nonce-nonce-03")
      900000
      (run between (check first_event 10 new_guard).1)).0
    ≢ passed
unfolding check arma_partner_api_sandbox.Prelude.matches_class
    arma_partner_api_sandbox.Prelude.is_token_char get arma_partner_api_sandbox.Prelude.Map.retain
    arma_partner_api_sandbox.Prelude.contains
check_once_example =
    check_once first_event 10 new_guard between (event "e1" 6 "nonce-nonce-nonce-03") 900000 refl
      refl

check_consecutive_example :
    ((get "s" new_guard.stream_sequence ≡ none)
      ⊎ ((last : ℕ) × (get "s" new_guard.stream_sequence ≡ some last) × (4 ≡ last + 1)))
    × (get "s" (check first_event 10 new_guard).1.stream_sequence ≡ some 4)
unfolding check arma_partner_api_sandbox.Prelude.matches_class
    arma_partner_api_sandbox.Prelude.is_token_char get arma_partner_api_sandbox.Prelude.Map.retain
    arma_partner_api_sandbox.Prelude.contains
check_consecutive_example = check_consecutive first_event 10 new_guard refl

abbrev envelope : WebhookEnvelope
envelope = record { event_id = "e1"; partner_id = "p"; stream = "s" }

abbrev service : WebhookDeliveryService
service = record { max_attempts = 5; delivered_events = []; dead_letters = [] }

abbrev done : Delivered
done = record { at = 7; attempts = 2 }

abbrev used_service : WebhookDeliveryService
used_service = record service { delivered_events = ("e1", done) ∷ [] }

-- the first attempt fails on the way, and the second arrives
abbrev transport : ℕ → Option TransportResult
transport attempt =
    some (record { is_ok = eqb attempt 2; code = some "UNAVAILABLE"; is_ambiguous = false })

abbrev clock : ℕ → ℕ
clock attempt = attempt + 5

deliver-HasEnded_example :
    (r : DeliveryResult) × (s' : WebhookDeliveryService) × (deliver transport clock "dlv" "secret"
        "target" envelope service
      ≡ ok (r, s'))
    × HasEnded transport clock "dlv" envelope service r s'
unfolding arma_partner_api_sandbox.Prelude.is_blank get
deliver-HasEnded_example =
    deliver-HasEnded transport clock "dlv" "secret" "target" envelope service (omega arith) refl
      refl refl

abbrev first_call : Delivery
first_call = record {
  transport = transport;
  clock = clock;
  delivery_id = "dlv";
  secret = "secret";
  target_id = "target";
  envelope = envelope;
}

-- a delivery of another event, which is lost
abbrev other_call : Delivery
other_call = record first_call {
  transport = λ _. none;
  envelope = record envelope { event_id = "e2" };
}

abbrev delivered_result : DeliveryResult
delivered_result = record {
  delivery_id = "dlv";
  event_id = "e1";
  outcome = delivered;
  attempts =
      record { attempt = 1; at = 6; outcome = failed; reason_code = some "UNAVAILABLE" }
      ∷ record { attempt = 2; at = 7; outcome = succeeded; reason_code = none }
      ∷ [];
  dead_lettered = false;
  partner_id = "p";
  stream = "s";
}

first_delivered : made first_call service ≡ ok (delivered_result, used_service)
unfolding deliver arma_partner_api_sandbox.Prelude.is_blank get
    arma_partner_api_sandbox.Webhooks.Delivery.decide arma_partner_api_sandbox.Sdk.Retries.classify
    arma_partner_api_sandbox.Prelude.contains arma_partner_api_sandbox.Sdk.Retries.compute_backoff
    arma_partner_api_sandbox.Prelude.Map.set
first_delivered = refl

delivered_once_example :
    (r' : DeliveryResult) × (made first_call (run_calls (other_call ∷ []) used_service)
      ≡ ok (r', run_calls (other_call ∷ []) used_service))
    × (r'.outcome ≡ delivered_duplicate)
    × (r'.attempts ≡ [])
    × (r'.dead_lettered ≡ false)
    × (r'.event_id ≡ "e1")
unfolding arma_partner_api_sandbox.Prelude.is_blank
delivered_once_example =
    delivered_once first_call first_call (other_call ∷ []) service used_service delivered_result
      (omega arith) first_delivered refl refl refl refl
