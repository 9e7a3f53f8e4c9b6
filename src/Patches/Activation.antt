-- ===== src/Patches/Activation.antt =====
-- `processActivation` and its helpers (patches/lib/server.ts).
-- `processActivation` waits for the downstream service between its checks and its transaction, and
-- other requests run meanwhile: `prepare` is the code before the `await` and `settle` the code
-- after it. The hash and the service are not in the repository and are parameters.
pub mod Settle
pub mod Policies
pub mod Created
pub mod Admitted
pub mod Race
use arma_partner_api_sandbox.Prelude.{
  ℕ, String, Bool, true, false, Option, none, some, List, [], ◌∷◌, ◌<+>◌, ◌==◌, ◌||◌, not, contains,
  Result, ok, err, if◌then◌else◌,
}
use arma_partner_api_sandbox.Prelude.Json.{Json, null, bool, str, num, obj, arr, Fields, end, field}
use arma_partner_api_sandbox.Patches.Store.{
  Store, ActivationRecord, ActivationStatus, IdempotencyRecord, RecordedOutcome, ReceiptRecord,
  EventRecord, ActorKind, AuditOutcome, AuditEntry,
}
use arma_partner_api_sandbox.Patches.Store.Exec.{Exec, ◌>>=◌, ◌>>◌, pure, throw, gets}
use arma_partner_api_sandbox.Patches.Store.Reads.{get_activation, get_idempotency}
use arma_partner_api_sandbox.Patches.Store.Writes.{
  put_activation, put_receipt, put_idempotency, append_event, append_audit,
}
use arma_partner_api_sandbox.Patches.Store.Transactions.{run_transaction}
use arma_partner_api_sandbox.Patches.Bodies.{
  Outcome, refusal, activation_view, receipt_body, verdict_code, read_string, missing_fields,
}
use arma_partner_api_sandbox.Patches.Policy.{
  Verdict, allow, deny, ◌then_check◌, authorize_org, check_entitlement, check_capability,
  check_binding,
}

pub data ServiceReply : Type 0 where
  replied : Bool → Option String → ServiceReply
  threw : ServiceReply

pub record ServiceInput : Type 0 where
  pub activation_id : String
  pub capability : String
  pub org_id : String
  pub binding_id : String

-- `hash_object` is the SHA-256 of the JSON text
pub record Options : Type 0 where
  pub hash_object : Fields → String
  pub protection_service : Option (ServiceInput → ServiceReply)

-- the principal, the request id and the time of a request
pub record Request : Type 0 where
  pub client_id : String
  pub partner_id : String
  pub request_id : String
  pub now : ℕ

pub record ActivationInput : Type 0 where
  pub org_id : String
  pub capability : String
  pub binding_id : String
  pub idempotency_key : String

-- `none` if a field is missing or empty
read_four : Option String → Option String → Option String → Option String → Option ActivationInput
read_four (some o) (some c) (some b) (some k) =
    if o == "" || c == "" || b == "" || k == ""
    then none
    else some (record { org_id = o; capability = c; binding_id = b; idempotency_key = k })
read_four _ _ _ _ = none

unfoldable pub read_activation_input : Fields → Option ActivationInput
unfolding read_four
read_activation_input body =
    read_four (read_string "orgId" body) (read_string "capability" body)
      (read_string "bindingId" body) (read_string "idempotencyKey" body)

pub data IdempotencyResolution : Type 0 where
  fresh : IdempotencyResolution
  duplicate conflicting : IdempotencyRecord → IdempotencyResolution

resolve_found : String → Option IdempotencyRecord → IdempotencyResolution
resolve_found request_hash none = fresh
resolve_found request_hash (some existing) =
    if existing.request_hash == request_hash then duplicate existing else conflicting existing

unfoldable pub resolve_idempotency : Store → String → String → String → IdempotencyResolution
unfolding resolve_found
resolve_idempotency s client_id key request_hash =
    resolve_found request_hash (get_idempotency s client_id key)

-- partner -> org -> entitlement -> capability -> binding
unfoldable pub activation_policy : Store → Request → ActivationInput → Verdict
activation_policy s q i =
    authorize_org s q.partner_id i.org_id
    then_check check_entitlement s q.partner_id i.org_id i.capability q.now
    then_check check_capability s i.capability "v1"
    then_check check_binding s i.binding_id i.org_id i.capability

-- What the request holds across the `await`.
pub record Pending : Type 0 where
  pub input : ActivationInput
  pub request_hash : String

pub data Prepared : Type 0 where
  answered : Outcome → Prepared
  pending : Pending → Prepared

abbrev pub activation_id_for : Request → String
activation_id_for q = "ACT-" <+> q.request_id

unfoldable pub audit_entry : Request → AuditOutcome → Fields → AuditEntry
audit_entry q outcome detail = record {
  at = q.now;
  actor_kind = ActorKind.partner;
  client_id = q.client_id;
  request_id = q.request_id;
  operation = "activation.create";
  outcome = outcome;
  detail = obj detail;
}

abbrev opt_str : Option String → Json
opt_str none = null
opt_str (some s) = str s

lookup_existing : Store → Option String → Option ActivationRecord
lookup_existing s none = none
lookup_existing s (some id) = if id == "" then none else get_activation s id

unfoldable pub by_resolution :
    Request → ActivationInput → String → IdempotencyResolution → Exec Prepared
unfolding audit_entry lookup_existing
by_resolution q i request_hash fresh =
    pure (pending (record { input = i; request_hash = request_hash }))
by_resolution q i request_hash (conflicting existing) = do
  append_audit (
      audit_entry q AuditOutcome.conflict (
        field "code" (str "IDEMPOTENCY_CONFLICT") (
          field "idempotencyKey" (str i.idempotency_key) (
            field "existingRequestHash" (str existing.request_hash)
              (field "existingActivationId" (opt_str existing.activation_id) end)))))
  pure (
      answered (record {
        status = 409;
        body = field "error" (str "IDEMPOTENCY_KEY_CONFLICT") (
            field "errorClass" (str "IDEMPOTENCY")
              (field "existingActivationId" (opt_str existing.activation_id) end));
        receipt = none;
        register_nonce = true;
      }))
by_resolution q i request_hash (duplicate existing) = do
  append_audit (
      audit_entry q AuditOutcome.conflict (
        field "code" (str "DUPLICATE_DELIVERY_COLLAPSED") (
          field "idempotencyKey" (str i.idempotency_key) (
            field "existingActivationId" (opt_str existing.activation_id)
              (field "existingRequestHash" (str existing.request_hash) end)))))
  activation ← gets (λ s. lookup_existing s existing.activation_id)
  let receipt_id = "RCP-DUP-" <+> q.request_id
  pure (
      answered (record {
        status = 200;
        body = receipt_body "activation.create" q.request_id q.client_id q.now receipt_id (
            field "activationId" (opt_str existing.activation_id) (
              field "orgId" (str i.org_id) (
                field "capability" (str i.capability) (
                  field "payloadHash" (str request_hash) (
                    field "result" (activation_view activation)
                      (field "duplicate" (bool true) end))))));
        receipt = some receipt_id;
        register_nonce = true;
      }))

unfoldable pub by_policy : Request → ActivationInput → String → Verdict → Exec Prepared
unfolding by_resolution
by_policy q i request_hash (deny code) s = pure (answered (refusal 403 (verdict_code code) true)) s
by_policy q i request_hash allow s =
    by_resolution q i request_hash
      (resolve_idempotency s q.client_id i.idempotency_key request_hash) s

input_missing : Fields → Outcome
input_missing body = record {
  status = 400;
  body =
      field "error" (str "ACTIVATION_INPUT_MISSING")
        (field "fields" (arr (missing_fields body)) end);
  receipt = none;
  register_nonce = false;
}

unfoldable pub with_input : Options → Request → Fields → Option ActivationInput → Exec Prepared
unfolding by_policy input_missing
with_input o q body none s = pure (answered (input_missing body)) s
with_input o q body (some i) s = by_policy q i (o.hash_object body) (activation_policy s q i) s

-- `processActivation` up to the `await`
unfoldable pub prepare : Options → Request → Fields → Exec Prepared
unfolding with_input
prepare o q body = with_input o q body (read_activation_input body)
