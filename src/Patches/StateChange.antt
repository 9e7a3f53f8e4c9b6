-- ===== src/Patches/StateChange.antt =====
-- `processActivationStateChange` of patches/lib/server.ts: deactivation and revocation.
pub mod Lifecycle
pub mod Revoked
pub mod Later
use arma_partner_api_sandbox.Prelude.{
  ℕ, String, Bool, true, false, Option, none, some, List, [], ◌∷◌, ◌<+>◌, Result, ok, err,
  if◌then◌else◌,
}
use arma_partner_api_sandbox.Prelude.Json.{Json, str, obj, Fields, end, field}
use arma_partner_api_sandbox.Patches.Store.{
  Store, ActivationRecord, ActivationStatus, ReceiptRecord, EventRecord, ActorKind, AuditOutcome,
  AuditEntry,
}
use arma_partner_api_sandbox.Patches.Store.Exec.{Exec, ◌>>=◌, ◌>>◌, pure, gets}
use arma_partner_api_sandbox.Patches.Store.Reads.{get_activation}
use arma_partner_api_sandbox.Patches.Store.Writes.{
  put_activation, put_receipt, append_event, append_audit,
}
use arma_partner_api_sandbox.Patches.Store.Transactions.{run_transaction}
use arma_partner_api_sandbox.Patches.Policy.{
  Verdict, allow, deny, ◌then_check◌, authorize_org, check_entitlement,
}
use arma_partner_api_sandbox.Patches.Bodies.{
  Outcome, refusal, activation_view, receipt_body, verdict_code,
}
use arma_partner_api_sandbox.Patches.Activation.{Request}
use arma_partner_api_sandbox.Patches.Activation.Settle.{persistence_failure}

pub data Action : Type 0 where
  deactivate revoke : Action

abbrev operation : Action → String
operation deactivate = "activation.deactivate"
operation revoke = "activation.revoke"

abbrev event_kind : Action → String
event_kind deactivate = "activation.deactivated"
event_kind revoke = "activation.revoked"

abbrev audit_code : Action → String
audit_code deactivate = "ACTIVATION_DEACTIVATED"
audit_code revoke = "ACTIVATION_REVOKED"

abbrev pub receipt_id : Action → Request → String
receipt_id deactivate q = "RCP-DEACTIVATE-" <+> q.request_id
receipt_id revoke q = "RCP-REVOKE-" <+> q.request_id

abbrev pub new_status : Action → ActivationStatus
new_status deactivate = ActivationStatus.deactivated
new_status revoke = ActivationStatus.revoked

-- `action === 'deactivate' ? now : activation.deactivatedAt`, and so for the revocation
unfoldable pub changed : Action → Request → ActivationRecord → ActivationRecord
changed deactivate q a = record a {
  status = ActivationStatus.deactivated;
  deactivated_at = some q.now;
  last_request_id = some q.request_id;
}
changed revoke q a = record a {
  status = ActivationStatus.revoked;
  revoked_at = some q.now;
  last_request_id = some q.request_id;
}

receipt_for : Action → Request → String → ActivationRecord → ReceiptRecord
receipt_for act q id a = record {
  receipt_id = receipt_id act q;
  request_id = q.request_id;
  client_id = q.client_id;
  operation = operation act;
  outcome = "SUCCESS";
  activation_id = some id;
  org_id = some a.org_id;
  capability = some a.capability;
  payload_hash = none;
  at = q.now;
}

event_for : Action → Request → String → ActivationRecord → EventRecord
event_for act q id a = record {
  event_id = "EVT-" <+> q.request_id;
  org_id = a.org_id;
  capability = a.capability;
  activation_id = some id;
  kind = event_kind act;
  at = q.now;
  payload_digest = some a.payload_hash;
}

entry_for : Action → Request → String → ActivationRecord → AuditEntry
entry_for act q id a = record {
  at = q.now;
  actor_kind = ActorKind.partner;
  client_id = q.client_id;
  request_id = q.request_id;
  operation = operation act;
  outcome = AuditOutcome.success;
  detail = obj (
      field "code" (str (audit_code act)) (
        field "activationId" (str id)
          (field "orgId" (str a.org_id) (field "capability" (str a.capability) end))));
}

-- the body of the transaction
change_writes : Action → Request → String → ActivationRecord → Exec (Unit {0})
unfolding changed receipt_for event_for entry_for
change_writes act q id a = do
  put_activation (changed act q a)
  put_receipt (receipt_for act q id a)
  append_event (event_for act q id a)
  append_audit (entry_for act q id a)

success : Action → Request → String → ActivationRecord → Option ActivationRecord → Outcome
success act q id a shown = record {
  status = 200;
  body = receipt_body (operation act) q.request_id q.client_id q.now (receipt_id act q) (
      field "activationId" (str id) (
        field "orgId" (str a.org_id)
          (field "capability" (str a.capability) (field "result" (activation_view shown) end))));
  receipt = some (receipt_id act q);
  register_nonce = true;
}

or_failure : Action → Request → String → ActivationRecord → Result (Unit {0}) → Exec Outcome
unfolding success
or_failure act q id a (ok _) s = pure (success act q id a (get_activation s id)) s
or_failure act q id a (err e) s = persistence_failure q s

commit : Action → Request → String → ActivationRecord → Exec Outcome
unfolding change_writes or_failure
commit act q id a s =
    let (r, s') = run_transaction (change_writes act q id a) s in or_failure act q id a r s'

revoked_already : Outcome
revoked_already = record {
  status = 409;
  body = field "error" (str "ACTIVATION_REVOKED") (field "errorClass" (str "STATE") end);
  receipt = none;
  register_nonce = true;
}

-- A repeated change is a success that writes nothing; a revoked activation stays revoked.
by_status : Action → Request → String → ActivationRecord → ActivationStatus → Exec Outcome
unfolding commit revoked_already success
by_status revoke q id a ActivationStatus.revoked s = pure (success revoke q id a (some a)) s
by_status deactivate q id a ActivationStatus.deactivated s =
    pure (success deactivate q id a (some a)) s
by_status deactivate q id a ActivationStatus.revoked s = pure revoked_already s
by_status act q id a _ s = commit act q id a s

by_policy : Action → Request → String → ActivationRecord → Verdict → Exec Outcome
unfolding by_status
by_policy act q id a (deny code) s = pure (refusal 403 (verdict_code code) true) s
by_policy act q id a allow s = by_status act q id a a.status s

unknown : Outcome
unknown = record {
  status = 404;
  body = field "error" (str "ACTIVATION_UNKNOWN") (field "errorClass" (str "NOT_FOUND") end);
  receipt = none;
  register_nonce = true;
}

unfoldable pub change_policy : Store → Request → ActivationRecord → Verdict
change_policy s q a =
    authorize_org s q.partner_id a.org_id
    then_check check_entitlement s q.partner_id a.org_id a.capability q.now

on_found : Action → Request → String → Option ActivationRecord → Exec Outcome
unfolding by_policy unknown
on_found act q id none s = pure unknown s
on_found act q id (some a) s = by_policy act q id a (change_policy s q a) s

unfoldable pub process_state_change : Action → Request → String → Exec Outcome
unfolding on_found
process_state_change act q id s = on_found act q id (get_activation s id) s
