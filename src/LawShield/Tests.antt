-- ===== src/LawShield/Tests.antt =====
-- Examples: a transfer's status that a commander of org-arma-1 sends to its Law Shield organization.
use arma_partner_api_sandbox.Prelude.{
  inl, if◌then◌else◌, ◌==◌, ℕ, String, Bool, true, false, Option, none, some, List, [], ◌∷◌, ◌≡◌,
  refl, Result, ok, ◌||◌, not, eq_ne,
}
use arma_partner_api_sandbox.Prelude.Map.{empty, get}
use arma_partner_api_sandbox.Prelude.Json.{Json, null, num, str, obj, Fields, end, field}
use arma_partner_api_sandbox.LawShield.Store.{Store, FailPoints, Receipt, accepted}
use arma_partner_api_sandbox.LawShield.Store.Directory.{
  seed_synthetic_processor_directory, upsert_authorizer, upsert_case_mapping, upsert_org_mapping,
}
use arma_partner_api_sandbox.LawShield.Envelope.{Platform, Envelope}
use arma_partner_api_sandbox.LawShield.Processor.{
  Request, Kind, accepted_kind, duplicate_kind, ReceiptBody, receipt_in, receipt_of, kind_in,
}
use arma_partner_api_sandbox.LawShield.Processor.Decide.{process_transfer_request}
use arma_partner_api_sandbox.LawShield.Processor.Acceptance.{
  IsChecked, process_transfer_request-IsChecked,
}
use arma_partner_api_sandbox.LawShield.Processor.Status.{
  StatusBody, transfer_found, build_status_response,
}
use arma_partner_api_sandbox.LawShield.Processor.Handler.{
  Settings, HttpRequest, read, failed, processor_disabled, authorized, handle,
}
use arma_partner_api_sandbox.LawShield.Processor.Handler.Guards.{
  IsOpen, Acts, IsServed, handle-IsServed,
}
use arma_partner_api_sandbox.LawShield.Redaction.{Redacted, redact_payload}
use arma_partner_api_sandbox.LawShield.Redaction.Laws.{is_shallow, redact_payload-admitted}
use arma_partner_api_sandbox.LawShield.Disclosure.{admit, enforce_disclosure_policy}
use arma_partner_api_sandbox.LawShield.Ledger.Rollback.{
  IsAuditOnly, has_failed, process_transfer_request-IsAuditOnly,
}
use arma_partner_api_sandbox.LawShield.Ledger.Inquiry.{receipt-status}
use arma_partner_api_sandbox.LawShield.Ledger.{key_of, envelope_of}
use arma_partner_api_sandbox.LawShield.Ledger.Invariant.{IsValid, empty-IsConsistent}
use arma_partner_api_sandbox.LawShield.Ledger.Refinement.{IsRefined}
use arma_partner_api_sandbox.LawShield.Ledger.Requests.{process_transfer_request-IsRefined}
use arma_partner_api_sandbox.LawShield.Ledger.Runs.{receipts_once, run}

abbrev hash : String
hash = "aaaaaaaaaaaaaaaaaaaaaaaaaaaaaaaaaaaaaaaaaaaaaaaaaaaaaaaaaaaaaaaa"

abbrev payload : Json
payload = obj (field "status" (str "SENT") end)

abbrev message : Json
message = obj (
    field "schemaVersion" (str "arma-lawshield.v1") (
      field "transferId" (str "T1") (
        field "idempotencyKey" (str "K1") (
          field "sourceSystem" (str "ARMA_360") (
            field "destinationSystem" (str "LAW_SHIELD") (
              field "armaOrgId" (str "org-arma-1") (
                field "lawShieldOrgId" (str "ls-org-1") (
                  field "recordType" (str "TRANSFER_STATUS") (
                    field "recordId" (str "R1") (
                      field "authorizedBy" (str "user-77") (
                        field "authorizationReason" (str "status") (
                          field "mapping"
                            (obj (
                              field "armaOrgId" (str "org-arma-1")
                                (field "lawShieldOrgId" (str "ls-org-1") end)))
                            (field "createdAt" (num 900) (
                              field "sentAt" (num 950) (
                                field "expiresAt" (num 2000) (
                                  field "payload" payload
                                    (field "payloadHash" (str hash) end)))))))))))))))))

abbrev platform : Platform
platform = record {
  sha256_hex = λ _. hash;
  stringify = λ _. "";
  parse = λ _. some message;
  to_text = λ _. "";
}

abbrev store : Store
store = seed_synthetic_processor_directory 0 (record {
  org_mappings = empty;
  case_mappings = empty;
  authorizers = empty;
  nonces = empty;
  idempotency = empty;
  transfers = empty;
  transfers_by_idempotency = empty;
  receipts = empty;
  audit = [];
  audit_sequence = 0;
  fail_points = record { persist_transfer = false; persist_receipt = false; audit_write = false };
  tx_depth = 0;
})

-- a delivery of the message under a nonce
abbrev delivery : String → Request
delivery nonce = record {
  raw_body = "{}";
  forwarded = record {
    nonce = nonce;
    content_sha256 = hash;
    schema_version = "arma-lawshield.v1";
    transfer_id = "T1";
  };
  now = 1000;
  clock = 1000;
  is_disabled = false;
}

abbrev first_delivery : Request
first_delivery = delivery "nonce-nonce-nonce-one"

abbrev second_delivery : Request
second_delivery = delivery "nonce-nonce-nonce-two"

store-IsValid : IsValid store
unfolding seed_synthetic_processor_directory upsert_authorizer upsert_case_mapping
    upsert_org_mapping
store-IsValid = record { bound = empty-IsConsistent.bound; receipts = empty-IsConsistent.receipts }

process_transfer_request-IsRefined_example :
    IsRefined store
      (envelope_of platform first_delivery)
      (process_transfer_request platform first_delivery store)
process_transfer_request-IsRefined_example =
    process_transfer_request-IsRefined platform first_delivery store store-IsValid

abbrev envelope : Envelope
envelope = record {
  schema_version = "arma-lawshield.v1";
  transfer_id = "T1";
  idempotency_key = "K1";
  source_system = "ARMA_360";
  destination_system = "LAW_SHIELD";
  arma_org_id = "org-arma-1";
  law_shield_org_id = "ls-org-1";
  record_type = "TRANSFER_STATUS";
  record_id = "R1";
  authorized_by = "user-77";
  authorization_reason = "status";
  incident_id = null;
  law_shield_case_id = null;
  created_at = 900;
  sent_at = 950;
  expires_at = 2000;
  payload = payload;
  payload_hash = hash;
}

abbrev receipt_body : ReceiptBody
receipt_body = record {
  receipt_id = "RCP-T1";
  transfer_id = "T1";
  accepted_at = 1000;
  processing_result = "PERSISTED";
  payload_hash = hash;
}

carried : (nonce : String) → envelope_of platform (delivery nonce) ≡ some envelope
unfolding envelope_of arma_partner_api_sandbox.LawShield.Envelope.validate_envelope
    arma_partner_api_sandbox.Prelude.Json.get_field
    arma_partner_api_sandbox.LawShield.Envelope.fields_of arma_partner_api_sandbox.Prelude.is_blank
    arma_partner_api_sandbox.Prelude.contains arma_partner_api_sandbox.LawShield.Envelope.is_ai
    arma_partner_api_sandbox.LawShield.Envelope.is_text
    arma_partner_api_sandbox.LawShield.Envelope.is_object
    arma_partner_api_sandbox.LawShield.Envelope.truthy
    arma_partner_api_sandbox.LawShield.Envelope.timing_safe_equal_hex
    arma_partner_api_sandbox.Prelude.Json.utf16_length
    arma_partner_api_sandbox.LawShield.Envelope.is_hex_digit
    arma_partner_api_sandbox.LawShield.Envelope.Screening.assert_payload_safe
    arma_partner_api_sandbox.LawShield.Envelope.Screening.assert_no_instructions
    arma_partner_api_sandbox.LawShield.Envelope.Screening.is_instruction_key
    arma_partner_api_sandbox.Governance.Classification.same_codes
    arma_partner_api_sandbox.Governance.Classification.normalize_key
    arma_partner_api_sandbox.Prelude.is_alnum
    arma_partner_api_sandbox.LawShield.Envelope.Screening.holds_instruction
carried nonce = refl

first_accepted :
    kind_in (process_transfer_request platform first_delivery store).0 ≡ some accepted_kind
unfolding kind_in process_transfer_request arma_partner_api_sandbox.LawShield.Store.Writes.is_nonce
    arma_partner_api_sandbox.Prelude.is_token_char
    arma_partner_api_sandbox.LawShield.Envelope.is_hex_digit
    arma_partner_api_sandbox.LawShield.Envelope.validate_envelope
    arma_partner_api_sandbox.Prelude.Json.get_field
    arma_partner_api_sandbox.LawShield.Envelope.fields_of arma_partner_api_sandbox.Prelude.is_blank
    arma_partner_api_sandbox.Prelude.contains arma_partner_api_sandbox.LawShield.Envelope.is_ai
    arma_partner_api_sandbox.LawShield.Envelope.is_text
    arma_partner_api_sandbox.LawShield.Envelope.is_object
    arma_partner_api_sandbox.LawShield.Envelope.truthy
    arma_partner_api_sandbox.LawShield.Envelope.timing_safe_equal_hex
    arma_partner_api_sandbox.Prelude.Json.utf16_length
    arma_partner_api_sandbox.LawShield.Envelope.Screening.assert_payload_safe
    arma_partner_api_sandbox.LawShield.Envelope.Screening.assert_no_instructions
    arma_partner_api_sandbox.LawShield.Envelope.Screening.is_instruction_key
    arma_partner_api_sandbox.Governance.Classification.same_codes
    arma_partner_api_sandbox.Governance.Classification.normalize_key
    arma_partner_api_sandbox.LawShield.Envelope.Screening.holds_instruction
    arma_partner_api_sandbox.LawShield.Processor.Decide.process_envelope
    arma_partner_api_sandbox.LawShield.Processor.Decide.process_fresh
    arma_partner_api_sandbox.LawShield.Store.Writes.get_nonce_record
    arma_partner_api_sandbox.Prelude.Map.get seed_synthetic_processor_directory upsert_authorizer
    upsert_case_mapping upsert_org_mapping
    arma_partner_api_sandbox.LawShield.Store.Writes.resolve_idempotency_key
    arma_partner_api_sandbox.LawShield.Store.Writes.resolve_found
    arma_partner_api_sandbox.LawShield.Processor.business_verdict
    arma_partner_api_sandbox.LawShield.Processor.check_processor_authorizer
    arma_partner_api_sandbox.LawShield.Store.Directory.get_authorizer
    arma_partner_api_sandbox.Prelude.Map.set
    arma_partner_api_sandbox.LawShield.Processor.check_processor_mappings
    arma_partner_api_sandbox.LawShield.Store.Directory.get_org_mapping
    arma_partner_api_sandbox.LawShield.Disclosure.enforce_disclosure_policy
    arma_partner_api_sandbox.LawShield.Redaction.policy_for
    arma_partner_api_sandbox.LawShield.Disclosure.verdict_on
    arma_partner_api_sandbox.LawShield.Disclosure.check_entry
    arma_partner_api_sandbox.LawShield.Redaction.entries
    arma_partner_api_sandbox.LawShield.Redaction.is_always_redacted
    arma_partner_api_sandbox.LawShield.Processor.Decide.accept_transfer
    arma_partner_api_sandbox.LawShield.Store.Transactions.run_transaction
    arma_partner_api_sandbox.LawShield.Processor.Writes.acceptance_writes
    arma_partner_api_sandbox.LawShield.Store.Writes.register_nonce
    arma_partner_api_sandbox.LawShield.Store.Writes.prune
    arma_partner_api_sandbox.Prelude.Map.retain
    arma_partner_api_sandbox.LawShield.Store.Writes.create_durable_transfer
    arma_partner_api_sandbox.LawShield.Store.Writes.create_receipt_record
    arma_partner_api_sandbox.LawShield.Store.Writes.bind_idempotency_key
    arma_partner_api_sandbox.LawShield.Store.Writes.append_audit
    arma_partner_api_sandbox.LawShield.Store.Writes.get_receipt_record
    arma_partner_api_sandbox.LawShield.Processor.Writes.receipt_for
    arma_partner_api_sandbox.LawShield.Processor.Writes.receipt_id_for
first_accepted = refl

first_receipted :
    receipt_in (process_transfer_request platform first_delivery store).0 ≡ some receipt_body
unfolding receipt_in receipt_of process_transfer_request
    arma_partner_api_sandbox.LawShield.Store.Writes.is_nonce
    arma_partner_api_sandbox.Prelude.is_token_char
    arma_partner_api_sandbox.LawShield.Envelope.is_hex_digit
    arma_partner_api_sandbox.LawShield.Envelope.validate_envelope
    arma_partner_api_sandbox.Prelude.Json.get_field
    arma_partner_api_sandbox.LawShield.Envelope.fields_of arma_partner_api_sandbox.Prelude.is_blank
    arma_partner_api_sandbox.Prelude.contains arma_partner_api_sandbox.LawShield.Envelope.is_ai
    arma_partner_api_sandbox.LawShield.Envelope.is_text
    arma_partner_api_sandbox.LawShield.Envelope.is_object
    arma_partner_api_sandbox.LawShield.Envelope.truthy
    arma_partner_api_sandbox.LawShield.Envelope.timing_safe_equal_hex
    arma_partner_api_sandbox.Prelude.Json.utf16_length
    arma_partner_api_sandbox.LawShield.Envelope.Screening.assert_payload_safe
    arma_partner_api_sandbox.LawShield.Envelope.Screening.assert_no_instructions
    arma_partner_api_sandbox.LawShield.Envelope.Screening.is_instruction_key
    arma_partner_api_sandbox.Governance.Classification.same_codes
    arma_partner_api_sandbox.Governance.Classification.normalize_key
    arma_partner_api_sandbox.LawShield.Envelope.Screening.holds_instruction
    arma_partner_api_sandbox.LawShield.Processor.Decide.process_envelope
    arma_partner_api_sandbox.LawShield.Processor.Decide.process_fresh
    arma_partner_api_sandbox.LawShield.Store.Writes.get_nonce_record
    arma_partner_api_sandbox.Prelude.Map.get seed_synthetic_processor_directory upsert_authorizer
    upsert_case_mapping upsert_org_mapping
    arma_partner_api_sandbox.LawShield.Store.Writes.resolve_idempotency_key
    arma_partner_api_sandbox.LawShield.Store.Writes.resolve_found
    arma_partner_api_sandbox.LawShield.Processor.business_verdict
    arma_partner_api_sandbox.LawShield.Processor.check_processor_authorizer
    arma_partner_api_sandbox.LawShield.Store.Directory.get_authorizer
    arma_partner_api_sandbox.Prelude.Map.set
    arma_partner_api_sandbox.LawShield.Processor.check_processor_mappings
    arma_partner_api_sandbox.LawShield.Store.Directory.get_org_mapping
    arma_partner_api_sandbox.LawShield.Disclosure.enforce_disclosure_policy
    arma_partner_api_sandbox.LawShield.Redaction.policy_for
    arma_partner_api_sandbox.LawShield.Disclosure.verdict_on
    arma_partner_api_sandbox.LawShield.Disclosure.check_entry
    arma_partner_api_sandbox.LawShield.Redaction.entries
    arma_partner_api_sandbox.LawShield.Redaction.is_always_redacted
    arma_partner_api_sandbox.LawShield.Processor.Decide.accept_transfer
    arma_partner_api_sandbox.LawShield.Store.Transactions.run_transaction
    arma_partner_api_sandbox.LawShield.Processor.Writes.acceptance_writes
    arma_partner_api_sandbox.LawShield.Store.Writes.register_nonce
    arma_partner_api_sandbox.LawShield.Store.Writes.prune
    arma_partner_api_sandbox.Prelude.Map.retain
    arma_partner_api_sandbox.LawShield.Store.Writes.create_durable_transfer
    arma_partner_api_sandbox.LawShield.Store.Writes.create_receipt_record
    arma_partner_api_sandbox.LawShield.Store.Writes.bind_idempotency_key
    arma_partner_api_sandbox.LawShield.Store.Writes.append_audit
    arma_partner_api_sandbox.LawShield.Store.Writes.get_receipt_record
    arma_partner_api_sandbox.LawShield.Processor.Writes.receipt_for
    arma_partner_api_sandbox.LawShield.Processor.Writes.receipt_id_for
    arma_partner_api_sandbox.LawShield.Processor.receipt_wire_shape
first_receipted = refl

second_receipted :
    receipt_in
      (process_transfer_request platform second_delivery
        (run platform [] (process_transfer_request platform first_delivery store).1)).0
    ≡ some receipt_body
unfolding receipt_in receipt_of process_transfer_request
    arma_partner_api_sandbox.LawShield.Store.Writes.is_nonce
    arma_partner_api_sandbox.Prelude.is_token_char
    arma_partner_api_sandbox.LawShield.Envelope.is_hex_digit
    arma_partner_api_sandbox.LawShield.Envelope.validate_envelope
    arma_partner_api_sandbox.Prelude.Json.get_field
    arma_partner_api_sandbox.LawShield.Envelope.fields_of arma_partner_api_sandbox.Prelude.is_blank
    arma_partner_api_sandbox.Prelude.contains arma_partner_api_sandbox.LawShield.Envelope.is_ai
    arma_partner_api_sandbox.LawShield.Envelope.is_text
    arma_partner_api_sandbox.LawShield.Envelope.is_object
    arma_partner_api_sandbox.LawShield.Envelope.truthy
    arma_partner_api_sandbox.LawShield.Envelope.timing_safe_equal_hex
    arma_partner_api_sandbox.Prelude.Json.utf16_length
    arma_partner_api_sandbox.LawShield.Envelope.Screening.assert_payload_safe
    arma_partner_api_sandbox.LawShield.Envelope.Screening.assert_no_instructions
    arma_partner_api_sandbox.LawShield.Envelope.Screening.is_instruction_key
    arma_partner_api_sandbox.Governance.Classification.same_codes
    arma_partner_api_sandbox.Governance.Classification.normalize_key
    arma_partner_api_sandbox.LawShield.Envelope.Screening.holds_instruction
    arma_partner_api_sandbox.LawShield.Processor.Decide.process_envelope
    arma_partner_api_sandbox.LawShield.Processor.Decide.process_fresh
    arma_partner_api_sandbox.LawShield.Store.Writes.get_nonce_record
    arma_partner_api_sandbox.Prelude.Map.get seed_synthetic_processor_directory upsert_authorizer
    upsert_case_mapping upsert_org_mapping
    arma_partner_api_sandbox.LawShield.Store.Writes.resolve_idempotency_key
    arma_partner_api_sandbox.LawShield.Store.Writes.resolve_found
    arma_partner_api_sandbox.LawShield.Processor.business_verdict
    arma_partner_api_sandbox.LawShield.Processor.check_processor_authorizer
    arma_partner_api_sandbox.LawShield.Store.Directory.get_authorizer
    arma_partner_api_sandbox.Prelude.Map.set
    arma_partner_api_sandbox.LawShield.Processor.check_processor_mappings
    arma_partner_api_sandbox.LawShield.Store.Directory.get_org_mapping
    arma_partner_api_sandbox.LawShield.Disclosure.enforce_disclosure_policy
    arma_partner_api_sandbox.LawShield.Redaction.policy_for
    arma_partner_api_sandbox.LawShield.Disclosure.verdict_on
    arma_partner_api_sandbox.LawShield.Disclosure.check_entry
    arma_partner_api_sandbox.LawShield.Redaction.entries
    arma_partner_api_sandbox.LawShield.Redaction.is_always_redacted
    arma_partner_api_sandbox.LawShield.Processor.Decide.accept_transfer
    arma_partner_api_sandbox.LawShield.Store.Transactions.run_transaction
    arma_partner_api_sandbox.LawShield.Processor.Writes.acceptance_writes
    arma_partner_api_sandbox.LawShield.Store.Writes.register_nonce
    arma_partner_api_sandbox.LawShield.Store.Writes.prune
    arma_partner_api_sandbox.Prelude.Map.retain
    arma_partner_api_sandbox.LawShield.Store.Writes.create_durable_transfer
    arma_partner_api_sandbox.LawShield.Store.Writes.create_receipt_record
    arma_partner_api_sandbox.LawShield.Store.Writes.bind_idempotency_key
    arma_partner_api_sandbox.LawShield.Store.Writes.append_audit
    arma_partner_api_sandbox.LawShield.Store.Writes.get_receipt_record
    arma_partner_api_sandbox.LawShield.Processor.Writes.receipt_for
    arma_partner_api_sandbox.LawShield.Processor.Writes.receipt_id_for
    arma_partner_api_sandbox.LawShield.Processor.receipt_wire_shape
    arma_partner_api_sandbox.LawShield.Ledger.Runs.run arma_partner_api_sandbox.Prelude.joined
    arma_partner_api_sandbox.LawShield.Processor.Decide.collapse_duplicate
    arma_partner_api_sandbox.LawShield.Processor.Writes.collapse_writes
second_receipted = refl

process_transfer_request-IsChecked_example : IsChecked platform first_delivery store
process_transfer_request-IsChecked_example =
    process_transfer_request-IsChecked platform first_delivery store first_accepted

receipts_once_example :
    (kind_in
        (process_transfer_request platform second_delivery
          (run platform [] (process_transfer_request platform first_delivery store).1)).0
      ≡ some duplicate_kind)
    × ◌≡◌ {A = String} "T1" "T1"
    × ◌≡◌ {A = String} hash hash
    × ◌≡◌ {A = String} "T1" "T1"
    × ◌≡◌ {A = String} hash hash
receipts_once_example =
    receipts_once platform first_delivery second_delivery [] store envelope envelope receipt_body
      receipt_body store-IsValid (carried _) first_receipted (carried _) refl second_receipted

-- the same store, where the transfer cannot be written
abbrev broken_store : Store
broken_store = record store {
  fail_points = record { persist_transfer = true; persist_receipt = false; audit_write = false };
}

broken_store-IsValid : IsValid broken_store
unfolding seed_synthetic_processor_directory upsert_authorizer upsert_case_mapping
    upsert_org_mapping
broken_store-IsValid = record {
  bound = empty-IsConsistent.bound;
  receipts = empty-IsConsistent.receipts;
}

broken_fails : has_failed (process_transfer_request platform first_delivery broken_store).0 ≡ true
unfolding has_failed process_transfer_request
    arma_partner_api_sandbox.LawShield.Store.Writes.is_nonce
    arma_partner_api_sandbox.Prelude.is_token_char
    arma_partner_api_sandbox.LawShield.Envelope.is_hex_digit
    arma_partner_api_sandbox.LawShield.Envelope.validate_envelope
    arma_partner_api_sandbox.Prelude.Json.get_field
    arma_partner_api_sandbox.LawShield.Envelope.fields_of arma_partner_api_sandbox.Prelude.is_blank
    arma_partner_api_sandbox.Prelude.contains arma_partner_api_sandbox.LawShield.Envelope.is_ai
    arma_partner_api_sandbox.LawShield.Envelope.is_text
    arma_partner_api_sandbox.LawShield.Envelope.is_object
    arma_partner_api_sandbox.LawShield.Envelope.truthy
    arma_partner_api_sandbox.LawShield.Envelope.timing_safe_equal_hex
    arma_partner_api_sandbox.Prelude.Json.utf16_length
    arma_partner_api_sandbox.LawShield.Envelope.Screening.assert_payload_safe
    arma_partner_api_sandbox.LawShield.Envelope.Screening.assert_no_instructions
    arma_partner_api_sandbox.LawShield.Envelope.Screening.is_instruction_key
    arma_partner_api_sandbox.Governance.Classification.same_codes
    arma_partner_api_sandbox.Governance.Classification.normalize_key
    arma_partner_api_sandbox.LawShield.Envelope.Screening.holds_instruction
    arma_partner_api_sandbox.LawShield.Processor.Decide.process_envelope
    arma_partner_api_sandbox.LawShield.Processor.Decide.process_fresh
    arma_partner_api_sandbox.LawShield.Store.Writes.get_nonce_record
    arma_partner_api_sandbox.Prelude.Map.get seed_synthetic_processor_directory upsert_authorizer
    upsert_case_mapping upsert_org_mapping
    arma_partner_api_sandbox.LawShield.Store.Writes.resolve_idempotency_key
    arma_partner_api_sandbox.LawShield.Store.Writes.resolve_found
    arma_partner_api_sandbox.LawShield.Processor.business_verdict
    arma_partner_api_sandbox.LawShield.Processor.check_processor_authorizer
    arma_partner_api_sandbox.LawShield.Store.Directory.get_authorizer
    arma_partner_api_sandbox.Prelude.Map.set
    arma_partner_api_sandbox.LawShield.Processor.check_processor_mappings
    arma_partner_api_sandbox.LawShield.Store.Directory.get_org_mapping
    arma_partner_api_sandbox.LawShield.Disclosure.enforce_disclosure_policy
    arma_partner_api_sandbox.LawShield.Redaction.policy_for
    arma_partner_api_sandbox.LawShield.Disclosure.verdict_on
    arma_partner_api_sandbox.LawShield.Disclosure.check_entry
    arma_partner_api_sandbox.LawShield.Redaction.entries
    arma_partner_api_sandbox.LawShield.Redaction.is_always_redacted
    arma_partner_api_sandbox.LawShield.Processor.Decide.accept_transfer
    arma_partner_api_sandbox.LawShield.Store.Transactions.run_transaction
    arma_partner_api_sandbox.LawShield.Processor.Writes.acceptance_writes
    arma_partner_api_sandbox.LawShield.Store.Writes.register_nonce
    arma_partner_api_sandbox.LawShield.Store.Writes.prune
    arma_partner_api_sandbox.Prelude.Map.retain
    arma_partner_api_sandbox.LawShield.Store.Writes.create_durable_transfer
    arma_partner_api_sandbox.LawShield.Store.Writes.create_receipt_record
    arma_partner_api_sandbox.LawShield.Store.Writes.bind_idempotency_key
    arma_partner_api_sandbox.LawShield.Store.Writes.append_audit
    arma_partner_api_sandbox.LawShield.Store.Writes.get_receipt_record
    arma_partner_api_sandbox.LawShield.Processor.Writes.receipt_for
    arma_partner_api_sandbox.LawShield.Processor.Writes.receipt_id_for
    arma_partner_api_sandbox.LawShield.Processor.Decide.persistence_failure
broken_fails = refl

process_transfer_request-IsAuditOnly_example :
    IsAuditOnly broken_store (process_transfer_request platform first_delivery broken_store).1
process_transfer_request-IsAuditOnly_example =
    process_transfer_request-IsAuditOnly platform first_delivery broken_store broken_store-IsValid
      broken_fails

-- a payload with a field that is always redacted
abbrev fields : Fields
fields = field "status" (str "SENT") (field "ssn" (str "1") (field "reason" (obj end) end))

abbrev redacted : Redacted
redacted = record {
  payload = field "status" (str "SENT") (field "reason" (obj end) end);
  minimum_necessary_fields = "status" ∷ "reason" ∷ [];
  redacted_fields = "ssn" ∷ [];
}

redacted_lem : redact_payload "TRANSFER_STATUS" (obj fields) ≡ ok redacted
unfolding redact_payload arma_partner_api_sandbox.LawShield.Redaction.policy_for
    arma_partner_api_sandbox.LawShield.Redaction.redact_fields
    arma_partner_api_sandbox.LawShield.Redaction.is_redacted
    arma_partner_api_sandbox.LawShield.Redaction.is_always_redacted
    arma_partner_api_sandbox.Governance.Classification.same_codes
    arma_partner_api_sandbox.Prelude.contains
    arma_partner_api_sandbox.LawShield.Redaction.filter_value
    arma_partner_api_sandbox.LawShield.Redaction.filter_entries
redacted_lem = refl

fields_shallow : is_shallow fields ≡ true
unfolding is_shallow
fields_shallow = refl

redact_payload-admitted_example :
    (names : List String) × (enforce_disclosure_policy "TRANSFER_STATUS" (obj redacted.payload)
      ≡ admit names)
redact_payload-admitted_example =
    redact_payload-admitted "TRANSFER_STATUS" fields redacted redacted_lem fields_shallow

abbrev settings : Settings
settings = record { disabled = none; token = some "token"; processor_token = none }

abbrev only : String → Option String
only name = if name == "transferId" then some "T1" else none

-- an inquiry with the token
abbrev inquiry : HttpRequest
inquiry = record {
  method = "GET";
  url = "/status?transferId=T1";
  search = λ name. only name;
  headers = λ _. some "Bearer token";
  body = read "";
}

inquiry_answered : Acts store (handle platform settings inquiry 1000 1000 store)
unfolding handle processor_disabled authorized Acts IsOpen
    arma_partner_api_sandbox.LawShield.Processor.Handler.is_status_url
inquiry_answered = inl tt

handle-IsServed_example : IsServed settings inquiry
handle-IsServed_example = handle-IsServed platform settings inquiry 1000 1000 store inquiry_answered

-- a delivery with another token
stranger_refused :
    (handle platform settings
      (record inquiry { headers = λ _. some "Bearer other" })
      1000
      1000
      store).0
    ≡ failed 401 "PROCESSOR_AUTH_FAILED"
unfolding handle processor_disabled authorized
    arma_partner_api_sandbox.LawShield.Processor.Handler.is_status_url
stranger_refused = refl

abbrev after_first : Store
after_first = (process_transfer_request platform first_delivery store).1

abbrev stored_receipt : Receipt
stored_receipt = record {
  receipt_id = "RCP-T1";
  transfer_id = "T1";
  idempotency_key = "K1";
  accepted_at = 1000;
  processing_result = "PERSISTED";
  payload_hash = hash;
  created_at = 1000;
}

first_stored : get "RCP-T1" after_first.receipts ≡ some stored_receipt
unfolding process_transfer_request arma_partner_api_sandbox.LawShield.Store.Writes.is_nonce
    arma_partner_api_sandbox.Prelude.is_token_char
    arma_partner_api_sandbox.LawShield.Envelope.is_hex_digit
    arma_partner_api_sandbox.LawShield.Envelope.validate_envelope
    arma_partner_api_sandbox.Prelude.Json.get_field
    arma_partner_api_sandbox.LawShield.Envelope.fields_of arma_partner_api_sandbox.Prelude.is_blank
    arma_partner_api_sandbox.Prelude.contains arma_partner_api_sandbox.LawShield.Envelope.is_ai
    arma_partner_api_sandbox.LawShield.Envelope.is_text
    arma_partner_api_sandbox.LawShield.Envelope.is_object
    arma_partner_api_sandbox.LawShield.Envelope.truthy
    arma_partner_api_sandbox.LawShield.Envelope.timing_safe_equal_hex
    arma_partner_api_sandbox.Prelude.Json.utf16_length
    arma_partner_api_sandbox.LawShield.Envelope.Screening.assert_payload_safe
    arma_partner_api_sandbox.LawShield.Envelope.Screening.assert_no_instructions
    arma_partner_api_sandbox.LawShield.Envelope.Screening.is_instruction_key
    arma_partner_api_sandbox.Governance.Classification.same_codes
    arma_partner_api_sandbox.Governance.Classification.normalize_key
    arma_partner_api_sandbox.LawShield.Envelope.Screening.holds_instruction
    arma_partner_api_sandbox.LawShield.Processor.Decide.process_envelope
    arma_partner_api_sandbox.LawShield.Processor.Decide.process_fresh
    arma_partner_api_sandbox.LawShield.Store.Writes.get_nonce_record
    arma_partner_api_sandbox.Prelude.Map.get seed_synthetic_processor_directory upsert_authorizer
    upsert_case_mapping upsert_org_mapping
    arma_partner_api_sandbox.LawShield.Store.Writes.resolve_idempotency_key
    arma_partner_api_sandbox.LawShield.Store.Writes.resolve_found
    arma_partner_api_sandbox.LawShield.Processor.business_verdict
    arma_partner_api_sandbox.LawShield.Processor.check_processor_authorizer
    arma_partner_api_sandbox.LawShield.Store.Directory.get_authorizer
    arma_partner_api_sandbox.Prelude.Map.set
    arma_partner_api_sandbox.LawShield.Processor.check_processor_mappings
    arma_partner_api_sandbox.LawShield.Store.Directory.get_org_mapping
    arma_partner_api_sandbox.LawShield.Disclosure.enforce_disclosure_policy
    arma_partner_api_sandbox.LawShield.Redaction.policy_for
    arma_partner_api_sandbox.LawShield.Disclosure.verdict_on
    arma_partner_api_sandbox.LawShield.Disclosure.check_entry
    arma_partner_api_sandbox.LawShield.Redaction.entries
    arma_partner_api_sandbox.LawShield.Redaction.is_always_redacted
    arma_partner_api_sandbox.LawShield.Processor.Decide.accept_transfer
    arma_partner_api_sandbox.LawShield.Store.Transactions.run_transaction
    arma_partner_api_sandbox.LawShield.Processor.Writes.acceptance_writes
    arma_partner_api_sandbox.LawShield.Store.Writes.register_nonce
    arma_partner_api_sandbox.LawShield.Store.Writes.prune
    arma_partner_api_sandbox.Prelude.Map.retain
    arma_partner_api_sandbox.LawShield.Store.Writes.create_durable_transfer
    arma_partner_api_sandbox.LawShield.Store.Writes.create_receipt_record
    arma_partner_api_sandbox.LawShield.Store.Writes.bind_idempotency_key
    arma_partner_api_sandbox.LawShield.Store.Writes.append_audit
    arma_partner_api_sandbox.LawShield.Store.Writes.get_receipt_record
    arma_partner_api_sandbox.LawShield.Processor.Writes.receipt_for
    arma_partner_api_sandbox.LawShield.Processor.Writes.receipt_id_for
first_stored = refl

receipt-status_example :
    (b : StatusBody) × (build_status_response after_first (some "T1") none "arma-lawshield.v1"
      ≡ transfer_found b)
    × (b.status ≡ accepted)
    × (b.payload_hash ≡ hash)
receipt-status_example =
    receipt-status after_first "RCP-T1" stored_receipt none "arma-lawshield.v1"
      (process_transfer_request-IsRefined platform first_delivery store store-IsValid).valid
      first_stored (eq_ne "T1" "" refl)
