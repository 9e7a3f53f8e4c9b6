-- ===== src/Webhooks/Delivery.antt =====
-- `WebhookDeliveryService` of shared/webhooks/delivery.ts. The signing of an attempt belongs to the
-- transport here, which is a function of the attempt's number, as is the clock; random ids are arguments.
pub mod Laws
pub mod Repeats
use arma_partner_api_sandbox.Prelude.{
  ℕ, zero, suc, ◌+◌, ◌-◌, String, Bool, true, false, not, ◌||◌, Option, none, some, List, [], ◌∷◌,
  ◌++◌, ◌==◌, is_blank, Result, ok, err, leb, if◌then◌else◌,
}
use arma_partner_api_sandbox.Prelude.Map.{Map, get, set}
use arma_partner_api_sandbox.Sdk.Retries.{
  RetryDecision, compute_backoff, retry_schedule_ms, classify,
}

pub data DeliveryOutcomeCode : Type 0 where
  delivered delivered_duplicate dead_lettered_ambiguous retry_exhausted endpoint_invalid :
      DeliveryOutcomeCode

pub data AttemptOutcome : Type 0 where
  succeeded failed ambiguous : AttemptOutcome

pub record DeliveryAttemptRecord : Type 0 where
  pub attempt : ℕ
  pub at : ℕ
  pub outcome : AttemptOutcome
  pub reason_code : Option String

pub record DeliveryResult : Type 0 where
  pub delivery_id : String
  pub event_id : String
  pub outcome : DeliveryOutcomeCode
  pub attempts : List DeliveryAttemptRecord
  pub dead_lettered : Bool
  pub partner_id : String
  pub stream : String

-- `undefined` fields are `none`
pub record TransportResult : Type 0 where
  pub is_ok : Bool
  pub code : Option String
  pub is_ambiguous : Bool

pub record WebhookEnvelope : Type 0 where
  pub event_id : String
  pub partner_id : String
  pub stream : String

pub record DeadLetter : Type 0 where
  pub delivery_id : String
  pub event_id : String
  pub stream : String
  pub partner_id : String
  pub reason_code : String
  pub at : ℕ
  pub attempts : ℕ

-- an event that was delivered: when, and by how many attempts
pub record Delivered : Type 0 where
  pub at : ℕ
  pub attempts : ℕ

pub record WebhookDeliveryService : Type 0 where
  pub max_attempts : ℕ
  pub delivered_events : Map Delivered
  pub dead_letters : List DeadLetter

-- How the loop ended: by a success, a dead letter of this outcome, or with no attempt left.
pub data Ending : Type 0 where
  arrived : (attempt : ℕ) → List DeliveryAttemptRecord → Ending
  lost : DeliveryOutcomeCode → (attempt : ℕ) → List DeliveryAttemptRecord → Ending
  ran_out : (attempt : ℕ) → List DeliveryAttemptRecord → Ending

-- What one attempt decides: stop, or go on with this reason.
pub data Step : Type 0 where
  arrive : Step
  lose : DeliveryOutcomeCode → AttemptOutcome → String → Step
  again : String → Step

is_allowed : RetryDecision → Bool
is_allowed (RetryDecision.allowed a) = true
is_allowed (RetryDecision.refused n) = false

-- The end of the loop: the number of attempts, then the schedule.
unfoldable pub retry_allowed : (max_attempts attempt now : ℕ) → Bool
unfolding is_allowed
retry_allowed max_attempts attempt now =
    if leb max_attempts attempt
    then false
    else is_allowed (compute_backoff retry_schedule_ms now (attempt - 1))

unfoldable pub by_code : (max_attempts attempt now : ℕ) → Bool → String → Step
unfolding retry_allowed
by_code max_attempts attempt now said_ambiguous code =
    if said_ambiguous || (classify code).ambiguous
    then lose dead_lettered_ambiguous ambiguous code
    else if not (classify code).clean_retryable
    then lose dead_lettered_ambiguous failed code
    else if retry_allowed max_attempts attempt now
    then again code
    else lose retry_exhausted failed code

unfoldable pub decide : (max_attempts attempt now : ℕ) → Option TransportResult → Step
unfolding by_code
decide max_attempts attempt now none = by_code max_attempts attempt now false "TRANSPORT_ERROR"
decide max_attempts attempt now (some r) =
    if r.is_ok
    then arrive
    else by_code max_attempts attempt now r.is_ambiguous
        (elim r.code [ some code ↦ code | none ↦ "TRANSPORT_ERROR" ])

unfoldable pub entry : (attempt at : ℕ) → AttemptOutcome → Option String → DeliveryAttemptRecord
entry attempt at outcome reason_code = record {
  attempt = attempt;
  at = at;
  outcome = outcome;
  reason_code = reason_code;
}

module _ (transport : ℕ → Option TransportResult) (clock : ℕ → ℕ) where
  -- The loop, with the attempts that are left; the history is in order.
  unfoldable pub attempts_from :
      (max_attempts left attempt : ℕ) → List DeliveryAttemptRecord → Ending
  unfolding entry
  attempts_from max_attempts zero attempt history = ran_out attempt history
  attempts_from max_attempts (suc left) attempt history =
      elim (decide max_attempts (attempt + 1) (clock (attempt + 1)) (transport (attempt + 1))) [
        | arrive ↦
            arrived (attempt + 1)
              (history ++ entry (attempt + 1) (clock (attempt + 1)) succeeded none ∷ [])
        | lose outcome how code ↦
            lost outcome (attempt + 1)
              (history ++ entry (attempt + 1) (clock (attempt + 1)) how (some code) ∷ [])
        | again code ↦
            attempts_from max_attempts left (attempt + 1)
              (history ++ entry (attempt + 1) (clock (attempt + 1)) failed (some code) ∷ [])
      ]

  unfoldable pub result_of :
      String
      → WebhookEnvelope
      → DeliveryOutcomeCode
      → List DeliveryAttemptRecord
      → Bool
      → DeliveryResult
  result_of delivery_id envelope outcome history dead_lettered = record {
    delivery_id = delivery_id;
    event_id = envelope.event_id;
    outcome = outcome;
    attempts = history;
    dead_lettered = dead_lettered;
    partner_id = envelope.partner_id;
    stream = envelope.stream;
  }

  unfoldable pub letter_of : String → WebhookEnvelope → DeliveryOutcomeCode → ℕ → DeadLetter
  letter_of delivery_id envelope outcome attempt = record {
    delivery_id = delivery_id;
    event_id = envelope.event_id;
    stream = envelope.stream;
    partner_id = envelope.partner_id;
    reason_code = elim outcome [ retry_exhausted ↦ "RETRY_EXHAUSTED" | _ ↦ "AMBIGUOUS_OUTCOME" ];
    at = clock attempt;
    attempts = attempt;
  }

  unfoldable pub settled :
      String
      → WebhookEnvelope
      → Ending
      → WebhookDeliveryService
      → DeliveryResult × WebhookDeliveryService
  unfolding result_of letter_of
  settled delivery_id envelope (arrived attempt history) s = (
    result_of delivery_id envelope delivered history false,
    record s {
      delivered_events =
          set envelope.event_id (record { at = clock attempt; attempts = attempt })
            s.delivered_events;
    },
  )
  settled delivery_id envelope (lost outcome attempt history) s = (
    result_of delivery_id envelope outcome history true,
    record s {
      dead_letters = s.dead_letters ++ letter_of delivery_id envelope outcome attempt ∷ [];
    },
  )
  settled delivery_id envelope (ran_out attempt history) s =
      (result_of delivery_id envelope delivered history false, s)

  unfoldable pub by_prior :
      String
      → WebhookEnvelope
      → Option Delivered
      → WebhookDeliveryService
      → DeliveryResult × WebhookDeliveryService
  unfolding settled attempts_from result_of
  by_prior delivery_id envelope (some d) s =
      (result_of delivery_id envelope delivered_duplicate [] false, s)
  by_prior delivery_id envelope none s =
      settled delivery_id envelope (attempts_from s.max_attempts s.max_attempts 0 []) s

  unfoldable pub deliver :
      (delivery_id secret target_id : String)
      → WebhookEnvelope
      → WebhookDeliveryService
      → Result (DeliveryResult × WebhookDeliveryService)
  unfolding by_prior result_of
  deliver delivery_id secret target_id envelope s =
      if secret == ""
      then err "DELIVERY_SECRET_REQUIRED"
      else if is_blank target_id
      then ok (result_of delivery_id envelope endpoint_invalid [] false, s)
      else ok (by_prior delivery_id envelope (get envelope.event_id s.delivered_events) s)
