-- ===== src/LawShield/Processor/Decide.antt =====
-- `processTransferRequest` of law-shield/lawshield/durable/processor.js: which transaction is
-- run, and what is answered.
use arma_partner_api_sandbox.Prelude.{
  String, Bool, true, false, not, ◌&&◌, Option, none, some, List, [], ◌∷◌, ◌==◌, ltb, abs_diff,
  contains, every, codes, eqb, length, Result, ok, err, if◌then◌else◌,
}
use arma_partner_api_sandbox.Prelude.Json.{Json, bool, str, obj, end, field, get_field, as_string}
use arma_partner_api_sandbox.LawShield.Store.{
  NonceRecord, Decision, accepted, rejected, quarantined, Binding, Receipt, AuditEntry,
}
use arma_partner_api_sandbox.LawShield.Store.Exec.{Exec, ◌>>◌, pure, throw, catching}
use arma_partner_api_sandbox.LawShield.Store.Writes.{
  nonce_validity_window_ms, is_nonce, get_nonce_record, Resolution, first_use, duplicate,
  conflicting, resolve_idempotency_key, get_receipt_record, append_audit,
}
use arma_partner_api_sandbox.LawShield.Store.Transactions.{run_transaction}
use arma_partner_api_sandbox.LawShield.Envelope.{
  Platform, Envelope, integration_schema_version, is_hex_digit, fields_of, validate_envelope,
}
use arma_partner_api_sandbox.LawShield.Disclosure.{Verdict, refuse, admit}
use arma_partner_api_sandbox.LawShield.Processor.{
  Request, Kind, error_kind, rejected_kind, quarantined_kind, duplicate_kind, accepted_kind,
  without_receipt, Outcome, receipt_wire_shape, bare_error, rejected_wire_shape, business_verdict,
}
use arma_partner_api_sandbox.LawShield.Processor.Writes.{
  acceptance_writes, answer, collapse_writes, conflict_writes, decision_name, is_quarantine_code,
  opt_text, processor_entry, receipt_id_for, refused_as, rejection_writes, replay_writes,
}

failure_code : String → String
failure_code raw =
    if contains ("TRANSFER_ALREADY_PROCESSED" ∷ "IDEMPOTENCY_RECEIPT_DIVERGENCE" ∷ []) raw
    then raw
    else "PROCESSOR_PERSISTENCE_FAILED"

-- `persistenceFailure`: the audit of the failure is tried, its own failure is swallowed. The messages
-- of fail points are no known failures.
unfoldable pub persistence_failure : Request → Envelope → String → Exec Outcome
unfolding answer processor_entry failure_code
persistence_failure q e raw =
    let code = failure_code raw in
    let failed : Outcome = answer error_kind 500 (rejected_wire_shape e (some code) false none) in
    catching
      (run_transaction (
        append_audit
          (processor_entry e e.transfer_id "PROCESSOR_TRANSACTION_FAILED" "FAILED" (
            field "code" (str code) (
              field "nonce" (str q.forwarded.nonce)
                (field "payloadHash" (str e.payload_hash) end))))
          q.clock))
      (λ _. pure failed) (λ _. pure failed)

-- `quarantineIntegrityConflict`
unfoldable pub quarantine_integrity_conflict :
    Request → Envelope → String → Option String → Exec Outcome
unfolding answer
quarantine_integrity_conflict q e code existing =
    catching (run_transaction (conflict_writes q e code existing))
      (λ _. pure (answer quarantined_kind 200 (rejected_wire_shape e (some code) true none)))
      (persistence_failure q e)

unfoldable pub duplicate_receipt : Request → Envelope → Binding → Option Receipt → Exec Outcome
unfolding answer opt_text
duplicate_receipt q e b none =
    quarantine_integrity_conflict q e "IDEMPOTENCY_RECEIPT_DIVERGENCE" none
duplicate_receipt q e b (some r) = do
  run_transaction (
      collapse_writes q e accepted (
        field "code" (str "DUPLICATE_COLLAPSED_TO_STORED_RECEIPT") (
          field "receiptId" (opt_text b.receipt_id) (
            field "duplicateDelivery" (bool true) (field "payloadHash" (str b.payload_hash) end)))))
  pure (answer duplicate_kind 200 (receipt_wire_shape r))

unfoldable pub duplicate_error : Request → Envelope → Binding → Exec Outcome
unfolding answer
duplicate_error q e b = do
  run_transaction (
      collapse_writes q e b.outcome (
        field "code" (str "DUPLICATE_COLLAPSED_TO_STORED_OUTCOME") (
          field "result" (str (decision_name b.outcome))
            (field "duplicateDelivery" (bool true) end))))
  pure (answer duplicate_kind 200 (rejected_wire_shape e b.error_code false none))

unfoldable pub duplicate_by : Request → Envelope → Binding → Decision → Exec Outcome
unfolding duplicate_receipt duplicate_error
duplicate_by q e b accepted s = duplicate_receipt q e b (get_receipt_record s b.receipt_id) s
duplicate_by q e b rejected s = duplicate_error q e b s
duplicate_by q e b quarantined s = duplicate_error q e b s

unfoldable pub collapse_duplicate : Request → Envelope → Binding → Exec Outcome
unfolding duplicate_by
collapse_duplicate q e b = duplicate_by q e b b.outcome

unfoldable pub refused_kind : Decision → Kind
refused_kind quarantined = quarantined_kind
refused_kind _ = rejected_kind

unfoldable pub reject_transfer : Request → Envelope → String → Option (List String) → Exec Outcome
unfolding answer refused_kind
reject_transfer q e code violation_paths =
    catching (run_transaction (rejection_writes q e code violation_paths))
      (λ _. pure (
        answer (refused_kind (refused_as code)) 200
          (rejected_wire_shape e (some code) (is_quarantine_code code) violation_paths)))
      (persistence_failure q e)

-- Reading a missing receipt would throw, inside the `try`.
unfoldable pub accepted_with : Request → Envelope → Option Receipt → Exec Outcome
unfolding answer
accepted_with q e none = persistence_failure q e "TypeError"
accepted_with q e (some r) = pure (answer accepted_kind 200 (receipt_wire_shape r))

unfoldable pub accept_transfer : Request → Envelope → List String → Exec Outcome
unfolding accepted_with
accept_transfer q e fields =
    catching (run_transaction (acceptance_writes q e fields))
      (λ _ s. accepted_with q e (get_receipt_record s (some (receipt_id_for e))) s)
      (persistence_failure q e)

unfoldable pub by_verdict : Request → Envelope → Verdict → Exec Outcome
by_verdict q e (refuse code violation_paths) = reject_transfer q e code violation_paths
by_verdict q e (admit fields) = accept_transfer q e fields

unfoldable pub by_resolution : Platform → Request → Envelope → Resolution → Exec Outcome
unfolding by_verdict
by_resolution p q e first_use s = by_verdict q e (business_verdict p s e) s
by_resolution p q e (duplicate b) s = collapse_duplicate q e b s
by_resolution p q e (conflicting b) s =
    quarantine_integrity_conflict q e "IDEMPOTENCY_KEY_CONFLICT" (some b.transfer_id) s

-- The audit of a replay is not in a `try`.
unfoldable pub refuse_replay : Request → Envelope → NonceRecord → Exec Outcome
refuse_replay q e r = do
  run_transaction (replay_writes q e r)
  pure (answer rejected_kind 200 (rejected_wire_shape e (some "REPLAYED_NONCE") false none))

unfoldable pub by_nonce : Platform → Request → Envelope → Option NonceRecord → Exec Outcome
unfolding refuse_replay by_resolution
by_nonce p q e (some r) s = refuse_replay q e r s
by_nonce p q e none s =
    by_resolution p q e
      (resolve_idempotency_key s e.schema_version e.idempotency_key e.transfer_id e.payload_hash) s

-- from the registries on
unfoldable pub process_fresh : Platform → Request → Envelope → Exec Outcome
unfolding by_nonce
process_fresh p q e s = by_nonce p q e (get_nonce_record s e.schema_version q.forwarded.nonce) s

unfoldable pub process_envelope : Platform → Request → Envelope → Exec Outcome
unfolding answer
process_envelope p q e s =
    if not (q.forwarded.transfer_id == "") && not (q.forwarded.transfer_id == e.transfer_id)
    then pure
        (answer error_kind 400
          (rejected_wire_shape e (some "PROCESSOR_TRANSFER_ID_MISMATCH") false none))
        s
    else if not (p.sha256_hex q.raw_body == q.forwarded.content_sha256)
    then pure
        (answer error_kind 400
          (rejected_wire_shape e (some "PROCESSOR_CONTENT_HASH_MISMATCH") false none))
        s
    else if ltb nonce_validity_window_ms (abs_diff q.now e.sent_at)
    then pure
        (answer rejected_kind 200
          (rejected_wire_shape e (some "STALE_OR_FUTURE_REQUEST") false none))
        s
    else process_fresh p q e s

-- `typeof envelope?.name === 'string' ? envelope.name : null`
unfoldable pub id_in : String → Json → Option String
id_in name v = as_string (get_field name (fields_of v))

unfoldable pub invalid_entry : Request → Json → String → AuditEntry
unfolding id_in
invalid_entry q v code = record {
  transfer_id = id_in "transferId" v;
  idempotency_key = id_in "idempotencyKey" v;
  arma_org_id = none;
  law_shield_org_id = none;
  event_type = "TRANSFER_ENVELOPE_REJECTED";
  actor_type = "GATEWAY";
  source = "GATEWAY_FORWARD";
  outcome = "REJECTED";
  detail =
      obj (field "code" (str code) (field "schemaVersion" (str q.forwarded.schema_version) end));
}

-- `bestEffortAudit`
unfoldable pub best_effort_audit : Request → AuditEntry → Exec (Unit {0})
best_effort_audit q entry =
    catching (run_transaction (append_audit entry q.clock)) (λ _. pure tt) (λ _. pure tt)

unfoldable pub invalid_answer : Json → String → Outcome
unfolding id_in
invalid_answer v code = answer rejected_kind 200 (
    without_receipt (record {
      error = some code;
      transfer_id = id_in "transferId" v;
      idempotency_key = id_in "idempotencyKey" v;
      is_quarantined = false;
      violation_paths = none;
    }))

unfoldable pub by_validation : Platform → Request → Json → Result Envelope → Exec Outcome
by_validation p q v (ok e) = process_envelope p q e
by_validation p q v (err code) = do
  best_effort_audit q (invalid_entry q v code)
  pure (invalid_answer v code)

unfoldable pub by_parse : Platform → Request → Option Json → Exec Outcome
unfolding by_validation
by_parse p q none = pure (bare_error 400 "INVALID_JSON")
by_parse p q (some v) = by_validation p q v (validate_envelope p q.clock v)

unfoldable pub is_content_hash : String → Bool
is_content_hash s = every is_hex_digit (codes s) && eqb (length (codes s)) 64

unfoldable pub process_transfer_request : Platform → Request → Exec Outcome
unfolding by_parse is_content_hash
process_transfer_request p q s =
    if q.is_disabled
    then throw "PROCESSOR_DISABLED" s
    else if q.raw_body == ""
    then pure (bare_error 400 "INVALID_JSON") s
    else if not (is_nonce q.forwarded.nonce)
    then pure (bare_error 400 "INVALID_NONCE") s
    else if not (is_content_hash q.forwarded.content_sha256)
    then pure (bare_error 400 "INVALID_CONTENT_HASH") s
    else if not (q.forwarded.schema_version == integration_schema_version)
    then pure (bare_error 422 "SCHEMA_VERSION_UNSUPPORTED") s
    else by_parse p q (p.parse q.raw_body) s
