-- ===== src/LawShield/Processor/Status.antt =====
-- `buildStatusResponse` of law-shield/lawshield/durable/processor.js: what reconciliation is told.
use arma_partner_api_sandbox.Prelude.{
  ℕ, String, Option, none, some, List, map, ◌==◌, ◌≡◌, ◌≢◌, refl, length, if◌then◌else◌, eq_iff,
  Bool-cases, inl, inr,
}
use arma_partner_api_sandbox.Prelude.Json.{Json}
use arma_partner_api_sandbox.LawShield.Store.{
  Store, Decision, Binding, Transfer, Receipt, AuditEvent,
}
use arma_partner_api_sandbox.LawShield.Store.Writes.{
  get_durable_transfer, get_durable_transfer_by_idempotency_key, get_idempotency_binding,
  get_receipt_record, get_audit_events,
}

pub record StatusEvent : Type 0 where
  pub audit_sequence : ℕ
  pub event_type : String
  pub actor_type : String
  pub source : String
  pub outcome : String
  pub created_at : ℕ

pub record StatusBinding : Type 0 where
  pub outcome : Decision
  pub receipt_id : Option String
  pub accepted_at : Option ℕ
  pub error_code : Option String

pub record StatusReceipt : Type 0 where
  pub receipt_id : String
  pub accepted_at : ℕ
  pub processing_result : String
  pub payload_hash : String

pub record StatusBody : Type 0 where
  pub transfer_id : String
  pub idempotency_key : String
  pub schema_version : String
  pub status : Decision
  pub receipt_id : Option String
  pub accepted_at : Option ℕ
  pub quarantined_at : Option ℕ
  pub rejected_at : Option ℕ
  pub last_error_code : Option String
  pub payload_hash : String
  pub arma_org_id : String
  pub law_shield_org_id : String
  pub incident_id : Json
  pub law_shield_case_id : Json
  pub record_type : String
  pub record_id : String
  pub idempotency : Option StatusBinding
  pub receipt : Option StatusReceipt
  pub audit_events : List StatusEvent
  pub audit_event_count : ℕ

-- 200 with what was found, or 404 TRANSFER_NOT_FOUND
pub data StatusResponse : Type 0 where
  transfer_found : StatusBody → StatusResponse
  transfer_not_found : (transfer_id idempotency_key : Option String) → StatusResponse

unfoldable pub event_status : AuditEvent → StatusEvent
event_status e = record {
  audit_sequence = e.audit_sequence;
  event_type = e.event_type;
  actor_type = e.actor_type;
  source = e.source;
  outcome = e.outcome;
  created_at = e.created_at;
}

unfoldable pub binding_status : Option Binding → Option StatusBinding
binding_status none = none
binding_status (some b) = some (record {
  outcome = b.outcome;
  receipt_id = b.receipt_id;
  accepted_at = b.accepted_at;
  error_code = b.error_code;
})

unfoldable pub receipt_status : Option Receipt → Option StatusReceipt
receipt_status none = none
receipt_status (some r) = some (record {
  receipt_id = r.receipt_id;
  accepted_at = r.accepted_at;
  processing_result = r.processing_result;
  payload_hash = r.payload_hash;
})

unfoldable pub status_of : Store → Transfer → StatusBody
unfolding event_status binding_status receipt_status
status_of s t =
    let events = map event_status (get_audit_events s (some t.transfer_id)) in
    record {
      transfer_id = t.transfer_id;
      idempotency_key = t.idempotency_key;
      schema_version = t.schema_version;
      status = t.status;
      receipt_id = t.receipt_id;
      accepted_at = t.accepted_at;
      quarantined_at = t.quarantined_at;
      rejected_at = t.rejected_at;
      last_error_code = t.last_error_code;
      payload_hash = t.payload_hash;
      arma_org_id = t.arma_org_id;
      law_shield_org_id = t.law_shield_org_id;
      incident_id = t.incident_id;
      law_shield_case_id = t.law_shield_case_id;
      record_type = t.record_type;
      record_id = t.record_id;
      idempotency = binding_status (get_idempotency_binding s t.schema_version t.idempotency_key);
      receipt = receipt_status (get_receipt_record s t.receipt_id);
      audit_events = events;
      audit_event_count = length events;
    }

found_transfer : Store → Option String → Option String → Option Transfer → StatusResponse
unfolding status_of
found_transfer s transfer_id idempotency_key none = transfer_not_found transfer_id idempotency_key
found_transfer s transfer_id idempotency_key (some t) = transfer_found (status_of s t)

by_key : Store → String → Option String → Option Transfer
by_key s schema_version none = get_durable_transfer_by_idempotency_key s schema_version "null"
by_key s schema_version (some key) = get_durable_transfer_by_idempotency_key s schema_version key

-- an empty transfer id counts as none
looked_up : Store → String → Option String → Option String → Option Transfer
unfolding by_key
looked_up s schema_version none idempotency_key = by_key s schema_version idempotency_key
looked_up s schema_version (some transfer_id) idempotency_key =
    if transfer_id == ""
    then by_key s schema_version idempotency_key
    else get_durable_transfer s transfer_id

unfoldable pub build_status_response :
    Store → Option String → Option String → String → StatusResponse
unfolding looked_up found_transfer
build_status_response s transfer_id idempotency_key schema_version =
    found_transfer s transfer_id idempotency_key
      (looked_up s schema_version transfer_id idempotency_key)

-- A question for a stored transfer is answered with that transfer.
pub build_status_response-stored :
    (s : Store) (id : String) (key : Option String) (schema_version : String) (t : Transfer)
    → id ≢ ""
    → get_durable_transfer s id ≡ some t
    → build_status_response s (some id) key schema_version ≡ transfer_found (status_of s t)
unfolding build_status_response looked_up found_transfer
build_status_response-stored s id key schema_version t n g = elim (Bool-cases (id == "")) [
  | inl e ↦ absurd (n ((eq_iff id "").0 e))
  | inr e ↦ rw (e, g) refl
]
