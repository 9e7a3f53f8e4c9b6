-- ===== src/Patches/Activation/Settle.antt =====
-- `processActivation` from the downstream service's reply on (patches/lib/server.ts).
use arma_partner_api_sandbox.Prelude.{
  String, Bool, true, false, none, some, ◌<+>◌, Result, ok, err, if◌then◌else◌,
}
use arma_partner_api_sandbox.Prelude.Json.{str, obj, Fields, end, field}
use arma_partner_api_sandbox.Patches.Store.{
  ActivationRecord, ActivationStatus, IdempotencyRecord, RecordedOutcome, ReceiptRecord,
  EventRecord, ActorKind, AuditOutcome,
}
use arma_partner_api_sandbox.Patches.Store.Exec.{Exec, ◌>>=◌, ◌>>◌, pure}
use arma_partner_api_sandbox.Patches.Store.Reads.{get_activation}
use arma_partner_api_sandbox.Patches.Store.Writes.{
  put_activation, put_receipt, put_idempotency, append_event, append_audit,
}
use arma_partner_api_sandbox.Patches.Store.Transactions.{run_transaction}
use arma_partner_api_sandbox.Patches.Bodies.{Outcome, activation_view, receipt_body}
use arma_partner_api_sandbox.Patches.Activation.{
  ServiceReply, replied, threw, ServiceInput, Options, Request, Pending, Prepared, answered,
  pending, activation_id_for, audit_entry, prepare,
}

reply_of : ServiceReply → Bool × String
reply_of (replied up none) = (up, if up then "SYNTHETIC_OK" else "SYNTHETIC_FAILED")
reply_of (replied up (some status)) = (up, status)
reply_of threw = (false, "DOWNSTREAM_THREW")

unfoldable pub await_downstream : Options → ServiceInput → Bool × String
unfolding reply_of
await_downstream o input = elim o.protection_service [
  | none ↦ (true, "SYNTHETIC_NO_DOWNSTREAM")
  | some service ↦ reply_of (service input)
]

unfoldable pub activation_for : Request → Pending → ActivationRecord
activation_for q p = record {
  activation_id = activation_id_for q;
  org_id = p.input.org_id;
  capability = p.input.capability;
  binding_id = p.input.binding_id;
  partner_id = q.partner_id;
  status = ActivationStatus.active;
  activated_at = q.now;
  deactivated_at = none;
  revoked_at = none;
  last_request_id = some q.request_id;
  idempotency_key = some p.input.idempotency_key;
  activated_via_idempotency_key = some p.input.idempotency_key;
  payload_hash = p.request_hash;
}

unfoldable pub idempotency_for : Request → Pending → IdempotencyRecord
idempotency_for q p = record {
  client_id = q.client_id;
  idempotency_key = p.input.idempotency_key;
  request_hash = p.request_hash;
  outcome = RecordedOutcome.success;
  activation_id = some (activation_id_for q);
  request_id = some q.request_id;
  at = q.now;
}

abbrev pub receipt_id_for : Request → String
receipt_id_for q = "RCP-ACT-" <+> q.request_id

unfoldable pub receipt_for : Request → Pending → ReceiptRecord
receipt_for q p = record {
  receipt_id = receipt_id_for q;
  request_id = q.request_id;
  client_id = q.client_id;
  operation = "activation.create";
  outcome = "SUCCESS";
  activation_id = some (activation_id_for q);
  org_id = some p.input.org_id;
  capability = some p.input.capability;
  payload_hash = some p.request_hash;
  at = q.now;
}

unfoldable pub event_for : Request → Pending → EventRecord
event_for q p = record {
  event_id = "EVT-" <+> q.request_id;
  org_id = p.input.org_id;
  capability = p.input.capability;
  activation_id = some (activation_id_for q);
  kind = "activation.created";
  at = q.now;
  payload_digest = some p.request_hash;
}

-- the body of the transaction
unfoldable pub create_writes : Request → Pending → Exec (Unit {0})
unfolding activation_for idempotency_for receipt_for event_for audit_entry
create_writes q p = do
  put_activation (activation_for q p)
  put_receipt (receipt_for q p)
  put_idempotency (idempotency_for q p)
  append_event (event_for q p)
  append_audit (
      audit_entry q AuditOutcome.success (
        field "code" (str "ACTIVATION_CREATED") (
          field "activationId" (str (activation_id_for q)) (
            field "orgId" (str p.input.org_id) (
              field "capability" (str p.input.capability)
                (field "bindingId" (str p.input.binding_id) end))))))

-- The audit names `activation.create` whatever failed. Its own failure is thrown on.
unfoldable pub persistence_failure : Request → Exec Outcome
persistence_failure q = do
  run_transaction (
      append_audit (record {
        at = q.now;
        actor_kind = ActorKind.system;
        client_id = q.client_id;
        request_id = q.request_id;
        operation = "activation.create";
        outcome = AuditOutcome.failed;
        detail = obj (field "code" (str "PARTNER_TRANSACTION_FAILED") end);
      }))
  pure (record {
    status = 500;
    body =
        field "error" (str "PARTNER_PERSISTENCE_FAILED")
          (field "errorClass" (str "PERSISTENCE") end);
    receipt = none;
    register_nonce = false;
  })

-- `try { … } catch (err) { return persistenceFailureResponse(…); }` and what follows it
unfoldable pub or_failure : Request → Result (Unit {0}) → Exec Outcome → Exec Outcome
or_failure q (ok _) rest = rest
or_failure q (err e) rest = persistence_failure q

unfoldable pub created : Request → Pending → Exec Outcome
created q p s =
    pure
      (record {
        status = 200;
        body = receipt_body "activation.create" q.request_id q.client_id q.now (receipt_id_for q) (
            field "activationId" (str (activation_id_for q)) (
              field "orgId" (str p.input.org_id) (
                field "capability" (str p.input.capability) (
                  field "payloadHash" (str p.request_hash) (
                    field "result" (activation_view (get_activation s (activation_id_for q)))
                      end)))));
        receipt = some (receipt_id_for q);
        register_nonce = true;
      })
      s

unfoldable pub downstream_failed : Request → String → Exec Outcome
unfolding audit_entry
downstream_failed q downstream_status = do
  append_audit (
      audit_entry q AuditOutcome.failed (
        field "code" (str "DOWNSTREAM_UNAVAILABLE")
          (field "downstreamStatus" (str downstream_status) end)))
  pure (record {
    status = 503;
    body = field "error" (str "DOWNSTREAM_UNAVAILABLE") (field "errorClass" (str "DOWNSTREAM") end);
    receipt = none;
    register_nonce = true;
  })

-- `processActivation` from the service's reply on
unfoldable pub settle : Request → Pending → Bool × String → Exec Outcome
unfolding or_failure created downstream_failed
settle q p (false, downstream_status) s = downstream_failed q downstream_status s
settle q p (true, downstream_status) s =
    let (r, s') = run_transaction (create_writes q p) s in or_failure q r (created q p) s'

unfoldable pub after_prepare : Options → Request → Prepared → Exec Outcome
after_prepare o q (answered outcome) = pure outcome
after_prepare o q (pending p) = settle q p (
    await_downstream o (record {
      activation_id = activation_id_for q;
      capability = p.input.capability;
      org_id = p.input.org_id;
      binding_id = p.input.binding_id;
    }))

-- `processActivation`, if no other request runs during its `await`
unfoldable pub process_activation : Options → Request → Fields → Exec Outcome
unfolding prepare settle after_prepare
process_activation o q body = do prepared ← prepare o q body; after_prepare o q prepared
