-- ===== src/Patches/Activation/Admitted.antt =====
-- What `processActivation` of patches/lib/server.ts answers and stores for an admitted request.
use arma_partner_api_sandbox.Prelude.{
  ◌+◌, String, true, none, some, [], ◌∷◌, ◌++◌, ◌<+>◌, ◌≡◌, refl, ok,
}
use arma_partner_api_sandbox.Prelude.Map.{set, get-set_self}
use arma_partner_api_sandbox.Prelude.Json.{null, num, str, obj, Fields, end, field}
use arma_partner_api_sandbox.Patches.Store.{
  Store, ActivationStatus, RecordedOutcome, ActorKind, AuditOutcome,
}
use arma_partner_api_sandbox.Patches.Store.Reads.{get_activation, idempotency_key}
use arma_partner_api_sandbox.Patches.Store.Writes.{audit_record}
use arma_partner_api_sandbox.Patches.Store.Transactions.{run_transaction}
use arma_partner_api_sandbox.Patches.Bodies.{Outcome}
use arma_partner_api_sandbox.Patches.Activation.{
  Options, Request, Pending, activation_id_for, audit_entry,
}
use arma_partner_api_sandbox.Patches.Activation.Settle.{
  activation_for, idempotency_for, receipt_for, event_for, settle, after_prepare,
  process_activation,
}
use arma_partner_api_sandbox.Patches.Activation.Policies.{IsAdmitted, prepare-pending_iff}
use arma_partner_api_sandbox.Patches.Activation.Created.{
  IsSound, created_store, create_writes_sound,
}
use arma_partner_api_sandbox.Patches.Activation.Race.{Accepts}

-- The answer, with the activation as it is shown.
unfoldable pub answer : Request → Pending → Outcome
answer q p = record {
  status = 200;
  body = field "schemaVersion" (str "patches-partner-v1") (
      field "receiptId" (str ("RCP-ACT-" <+> q.request_id)) (
        field "requestId" (str q.request_id) (
          field "clientId" (str q.client_id) (
            field "operation" (str "activation.create") (
              field "outcome" (str "SUCCESS") (
                field "at" (num q.now) (
                  field "activationId" (str ("ACT-" <+> q.request_id)) (
                    field "orgId" (str p.input.org_id) (
                      field "capability" (str p.input.capability) (
                        field "payloadHash" (str p.request_hash) (
                          field "result"
                            (obj (
                              field "activationId" (str ("ACT-" <+> q.request_id)) (
                                field "orgId" (str p.input.org_id) (
                                  field "capability" (str p.input.capability) (
                                    field "bindingId" (str p.input.binding_id) (
                                      field "status" (str "ACTIVE") (
                                        field "activatedAt" (num q.now) (
                                          field "deactivatedAt" null
                                            (field "revokedAt" null end)))))))))
                            end)))))))))));
  receipt = some ("RCP-ACT-" <+> q.request_id);
  register_nonce = true;
}

-- The five writes.
unfoldable pub written : Request → Pending → Store → Store
written q p s = record s {
  activations =
      set ("ACT-" <+> q.request_id)
        (record {
          activation_id = "ACT-" <+> q.request_id;
          org_id = p.input.org_id;
          capability = p.input.capability;
          binding_id = p.input.binding_id;
          partner_id = q.partner_id;
          status = ActivationStatus.active;
          activated_at = q.now;
          deactivated_at = none;
          revoked_at = none;
          last_request_id = some q.request_id;
          idempotency_key = some p.input.idempotency_key;
          activated_via_idempotency_key = some p.input.idempotency_key;
          payload_hash = p.request_hash;
        })
        s.activations;
  receipts =
      set ("RCP-ACT-" <+> q.request_id)
        (record {
          receipt_id = "RCP-ACT-" <+> q.request_id;
          request_id = q.request_id;
          client_id = q.client_id;
          operation = "activation.create";
          outcome = "SUCCESS";
          activation_id = some ("ACT-" <+> q.request_id);
          org_id = some p.input.org_id;
          capability = some p.input.capability;
          payload_hash = some p.request_hash;
          at = q.now;
        })
        s.receipts;
  idempotency =
      set (idempotency_key q.client_id p.input.idempotency_key)
        (record {
          client_id = q.client_id;
          idempotency_key = p.input.idempotency_key;
          request_hash = p.request_hash;
          outcome = RecordedOutcome.success;
          activation_id = some ("ACT-" <+> q.request_id);
          request_id = some q.request_id;
          at = q.now;
        })
        s.idempotency;
  events =
      s.events
      ++ record {
        event_id = "EVT-" <+> q.request_id;
        org_id = p.input.org_id;
        capability = p.input.capability;
        activation_id = some ("ACT-" <+> q.request_id);
        kind = "activation.created";
        at = q.now;
        payload_digest = some p.request_hash;
      }
        ∷ [];
  audit_sequence = s.audit_sequence + 1;
  audit =
      s.audit
      ++ audit_record (s.audit_sequence + 1) (record {
        at = q.now;
        actor_kind = ActorKind.partner;
        client_id = q.client_id;
        request_id = q.request_id;
        operation = "activation.create";
        outcome = AuditOutcome.success;
        detail = obj (
            field "code" (str "ACTIVATION_CREATED") (
              field "activationId" (str ("ACT-" <+> q.request_id)) (
                field "orgId" (str p.input.org_id) (
                  field "capability" (str p.input.capability)
                    (field "bindingId" (str p.input.binding_id) end)))));
      })
        ∷ [];
}

settle-answer :
    (q : Request) (p : Pending) (status : String) (s : Store)
    → IsSound s
    → settle q p (true, status) s ≡ (ok (answer q p), written q p s)
unfolding settle run_transaction created_store activation_for idempotency_for receipt_for event_for
    audit_entry activation_id_for get_activation answer written
settle-answer q p status s h =
    rw
      (
        h.outside,
        create_writes_sound q p (record s { tx_depth = 1 }) h.activation h.receipt h.audit h.event,
        get-set_self,
      )
      refl

-- An admitted request (a readable body, an owned and active organization, an active entitlement and
-- binding, an offered capability and an unused key), whose service accepts, with no fail point set and
-- no transaction open, is answered 200 with the activation shown active, and exactly the five writes
-- are in the store: activation, receipt, idempotency record, event and audit record.
pub process_activation-created :
    (o : Options) (q : Request) (body : Fields) (p : Pending) (s : Store)
    → Accepts o
    → IsSound s
    → IsAdmitted o q body s p
    → process_activation o q body s ≡ (ok (answer q p), written q p s)
unfolding process_activation after_prepare
process_activation-created o q body p s up h w =
    let (status, replied) = up (record {
      activation_id = activation_id_for q;
      capability = p.input.capability;
      org_id = p.input.org_id;
      binding_id = p.input.binding_id;
    }) in
    rw ((prepare-pending_iff o q body s s p).1 (w, refl), replied) (settle-answer q p status s h)
