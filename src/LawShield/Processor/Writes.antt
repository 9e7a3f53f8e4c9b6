-- ===== src/LawShield/Processor/Writes.antt =====
-- What the transactions of law-shield/lawshield/durable/processor.js write.
use arma_partner_api_sandbox.Prelude.{
  ℕ, String, Bool, not, Option, none, some, List, [], ◌∷◌, ◌==◌, ◌<+>◌, contains, if◌then◌else◌,
}
use arma_partner_api_sandbox.Prelude.Json.{
  Json, null, str, arr, obj, Items, nil, cons, Fields, end, field,
}
use arma_partner_api_sandbox.LawShield.Store.{
  NonceRecord, Decision, accepted, rejected, quarantined, Binding, TransferInput, Transfer, Receipt,
  AuditEntry,
}
use arma_partner_api_sandbox.LawShield.Store.Exec.{Exec, ◌>>=◌, ◌>>◌}
use arma_partner_api_sandbox.LawShield.Store.Writes.{
  register_nonce, bind_idempotency_key, create_durable_transfer, get_durable_transfer,
  create_receipt_record, append_audit,
}
use arma_partner_api_sandbox.LawShield.Envelope.{Envelope}
use arma_partner_api_sandbox.LawShield.Processor.{Request, Kind, Body, Outcome}

unfoldable pub answer : Kind → ℕ → Body → Outcome
answer kind http_status body = record { kind = kind; http_status = http_status; body = body }

unfoldable pub decision_name : Decision → String
decision_name accepted = "ACCEPTED"
decision_name rejected = "REJECTED"
decision_name quarantined = "QUARANTINED"

unfoldable pub opt_text : Option String → Json
opt_text none = null
opt_text (some s) = str s

unfoldable pub texts : List String → Items
texts [] = nil
texts (s ∷ ss) = cons (str s) (texts ss)

unfoldable pub opt_texts : Option (List String) → Json
unfolding texts
opt_texts none = null
opt_texts (some ss) = arr (texts ss)

-- an event of the gateway about the envelope, or of the processor
unfoldable pub gateway_entry : Envelope → String → String → Fields → AuditEntry
gateway_entry e event_type outcome detail = record {
  transfer_id = some e.transfer_id;
  idempotency_key = some e.idempotency_key;
  arma_org_id = some e.arma_org_id;
  law_shield_org_id = some e.law_shield_org_id;
  event_type = event_type;
  actor_type = "GATEWAY";
  source = "GATEWAY_FORWARD";
  outcome = outcome;
  detail = obj detail;
}

unfoldable pub processor_entry : Envelope → String → String → String → Fields → AuditEntry
processor_entry e transfer_id event_type outcome detail = record {
  transfer_id = some transfer_id;
  idempotency_key = some e.idempotency_key;
  arma_org_id = some e.arma_org_id;
  law_shield_org_id = some e.law_shield_org_id;
  event_type = event_type;
  actor_type = "PROCESSOR";
  source = "PROCESSOR_DECISION";
  outcome = outcome;
  detail = obj detail;
}

-- the record that every branch persists, as far as the envelope gives it
unfoldable pub transfer_for : Envelope → String → Decision → TransferInput
transfer_for e transfer_id status = record {
  transfer_id = transfer_id;
  idempotency_key = e.idempotency_key;
  schema_version = e.schema_version;
  arma_org_id = e.arma_org_id;
  law_shield_org_id = e.law_shield_org_id;
  incident_id = e.incident_id;
  law_shield_case_id = e.law_shield_case_id;
  record_type = e.record_type;
  record_id = e.record_id;
  authorized_by = e.authorized_by;
  payload_hash = e.payload_hash;
  status = status;
  receipt_id = none;
  accepted_at = none;
  rejected_at = none;
  quarantined_at = none;
  last_error_code = none;
  minimum_necessary_fields = [];
}

unfoldable pub conflict_id : Envelope → String
conflict_id e = "CONFLICT-" <+> e.transfer_id

unfoldable pub differs_from : Envelope → Option Transfer → Option String
differs_from e none = none
differs_from e (some prior) =
    if not (prior.payload_hash == e.payload_hash) then some prior.transfer_id else none

-- the rest of the transaction, once it is known whether the id is in use for another content
unfoldable pub conflict_found :
    Request → Envelope → String → Option String → Option String → Exec (Unit {0})
unfolding processor_entry transfer_for opt_text
conflict_found q e code existing (some prior_id) =
    append_audit
      (processor_entry e e.transfer_id "TRANSFER_QUARANTINED" "QUARANTINED" (
        field "code" (str "TRANSFER_CONTENT_CONFLICT") (
          field "existingTransferId" (str prior_id)
            (field "payloadHash" (str e.payload_hash) end))))
      q.clock
conflict_found q e code existing none = do
  t ←
      create_durable_transfer
        (record (transfer_for e (conflict_id e) quarantined) {
          quarantined_at = some q.clock;
          last_error_code = some code;
        })
        q.clock
  append_audit
      (processor_entry e (conflict_id e) "TRANSFER_QUARANTINED" "QUARANTINED" (
        field "code" (str code) (
          field "existingTransferId" (opt_text existing)
            (field "payloadHash" (str e.payload_hash) end))))
      q.clock

unfoldable pub conflict_writes : Request → Envelope → String → Option String → Exec (Unit {0})
unfolding conflict_found differs_from
conflict_writes q e code existing = do
  register_nonce e.schema_version q.forwarded.nonce e.transfer_id q.clock
  λ s. conflict_found q e code existing (differs_from e (get_durable_transfer s e.transfer_id)) s

-- A duplicate delivery: the nonce is used up and the collapse is audited. This is not in a `try`.
unfoldable pub collapse_writes : Request → Envelope → Decision → Fields → Exec (Unit {0})
unfolding gateway_entry
collapse_writes q e outcome detail = do
  register_nonce e.schema_version q.forwarded.nonce e.transfer_id q.now
  append_audit (gateway_entry e "DUPLICATE_DELIVERY_COLLAPSED" (decision_name outcome) detail)
      q.clock

unfoldable pub binding_for : Envelope → Decision → ℕ → Binding
binding_for e outcome clock = record {
  schema_version = e.schema_version;
  idempotency_key = e.idempotency_key;
  transfer_id = e.transfer_id;
  payload_hash = e.payload_hash;
  outcome = outcome;
  receipt_id = none;
  accepted_at = none;
  error_code = none;
  bound_at = clock;
}

unfoldable pub is_quarantine_code : String → Bool
is_quarantine_code code =
    contains
      ("MINIMUM_NECESSARY_VIOLATION" ∷ "ALWAYS_REDACTED_FIELD_PRESENT" ∷ "IDEMPOTENCY_KEY_CONFLICT"
        ∷ [])
      code

unfoldable pub refused_as : String → Decision
refused_as code = if is_quarantine_code code then quarantined else rejected

unfoldable pub refused_event : Decision → String
refused_event quarantined = "TRANSFER_QUARANTINED"
refused_event _ = "TRANSFER_REJECTED"

unfoldable pub rejection_writes :
    Request → Envelope → String → Option (List String) → Exec (Unit {0})
unfolding transfer_for binding_for processor_entry opt_texts refused_event
rejection_writes q e code violation_paths = do
  register_nonce e.schema_version q.forwarded.nonce e.transfer_id q.now
  t ←
      create_durable_transfer
        (record (transfer_for e e.transfer_id (refused_as code)) {
          quarantined_at = if is_quarantine_code code then some q.now else none;
          rejected_at = if is_quarantine_code code then none else some q.now;
          last_error_code = some code;
        })
        q.clock
  b ←
      bind_idempotency_key
        (record (binding_for e (refused_as code) q.clock) { error_code = some code })
  append_audit
      (processor_entry e e.transfer_id (refused_event (refused_as code))
        (decision_name (refused_as code))
        (field "code" (str code) (
          field "violationPaths" (opt_texts violation_paths)
            (field "recordType" (str e.record_type) (field "recordId" (str e.record_id) end)))))
      q.clock

unfoldable pub receipt_id_for : Envelope → String
receipt_id_for e = "RCP-" <+> e.transfer_id

unfoldable pub receipt_for : Request → Envelope → Receipt
receipt_for q e = record {
  receipt_id = receipt_id_for e;
  transfer_id = e.transfer_id;
  idempotency_key = e.idempotency_key;
  accepted_at = q.now;
  processing_result = "PERSISTED";
  payload_hash = e.payload_hash;
  created_at = q.clock;
}

unfoldable pub acceptance_writes : Request → Envelope → List String → Exec (Unit {0})
unfolding transfer_for binding_for processor_entry texts
acceptance_writes q e fields = do
  register_nonce e.schema_version q.forwarded.nonce e.transfer_id q.now
  t ←
      create_durable_transfer
        (record (transfer_for e e.transfer_id accepted) {
          receipt_id = some (receipt_id_for e);
          accepted_at = some q.now;
          minimum_necessary_fields = fields;
        })
        q.clock
  r ← create_receipt_record (receipt_for q e)
  b ← bind_idempotency_key (record (binding_for e accepted q.clock) {
    receipt_id = some (receipt_id_for e);
    accepted_at = some q.now;
  })
  append_audit
      (processor_entry e e.transfer_id "TRANSFER_ACCEPTED" "ACCEPTED" (
        field "code" (str "ACCEPTED") (
          field "receiptId" (str (receipt_id_for e)) (
            field "payloadHash" (str e.payload_hash) (
              field "processingResult" (str "PERSISTED")
                (field "minimumNecessaryFields" (arr (texts fields)) end))))))
      q.clock

-- A nonce seen before is refused; the audit of it is not in a `try`.
unfoldable pub replay_writes : Request → Envelope → NonceRecord → Exec (Unit {0})
unfolding gateway_entry
replay_writes q e r =
    append_audit
      (gateway_entry e "NONCE_REPLAY_REJECTED" "REJECTED" (
        field "code" (str "REPLAYED_NONCE") (
          field "nonce" (str q.forwarded.nonce)
            (field "firstSeenTransferId" (str r.transfer_id) end))))
      q.clock
