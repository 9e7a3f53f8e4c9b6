-- ===== src/Patches/Bodies.antt =====
-- The bodies of the answers, and the reading of the request's (patches/lib/server.ts).
use arma_partner_api_sandbox.Prelude.{ℕ, String, Bool, Option, none, some}
use arma_partner_api_sandbox.Prelude.Json.{
  Json, null, str, num, obj, Items, nil, cons, Fields, end, field, get_field, as_string,
}
use arma_partner_api_sandbox.Patches.Store.{ActivationRecord, ActivationStatus}
use arma_partner_api_sandbox.Patches.Policy.{
  PolicyFailureCode, org_unknown, org_suspended, org_not_bound_to_partner, entitlement_missing,
  entitlement_inactive, entitlement_revoked, entitlement_expired, capability_unknown,
  capability_version_unsupported, binding_unknown, binding_inactive, binding_org_mismatch,
  binding_capability_mismatch,
}

-- `receipt` is the receipt's id
pub record Outcome : Type 0 where
  pub status : ℕ
  pub body : Fields
  pub receipt : Option String
  pub register_nonce : Bool

abbrev pub verdict_code : PolicyFailureCode → String
verdict_code org_unknown = "ORG_UNKNOWN"
verdict_code org_suspended = "ORG_SUSPENDED"
verdict_code org_not_bound_to_partner = "ORG_NOT_BOUND_TO_PARTNER"
verdict_code entitlement_missing = "ENTITLEMENT_MISSING"
verdict_code entitlement_inactive = "ENTITLEMENT_INACTIVE"
verdict_code entitlement_revoked = "ENTITLEMENT_REVOKED"
verdict_code entitlement_expired = "ENTITLEMENT_EXPIRED"
verdict_code capability_unknown = "CAPABILITY_UNKNOWN"
verdict_code capability_version_unsupported = "CAPABILITY_VERSION_UNSUPPORTED"
verdict_code binding_unknown = "BINDING_UNKNOWN"
verdict_code binding_inactive = "BINDING_INACTIVE"
verdict_code binding_org_mismatch = "BINDING_ORG_MISMATCH"
verdict_code binding_capability_mismatch = "BINDING_CAPABILITY_MISMATCH"

-- an error of the class AUTHORIZATION
abbrev pub refusal : ℕ → String → Bool → Outcome
refusal status code register_nonce = record {
  status = status;
  body = field "error" (str code) (field "errorClass" (str "AUTHORIZATION") end);
  receipt = none;
  register_nonce = register_nonce;
}

unfoldable pub read_string : String → Fields → Option String
read_string name body = as_string (get_field name body)

push_missing : String → Fields → Items → Items
push_missing name body rest = elim (read_string name body) [
  | none ↦ cons (str name) rest
  | some _ ↦ rest
]

unfoldable pub missing_fields : Fields → Items
unfolding push_missing
missing_fields body = push_missing "orgId" body (
    push_missing "capability" body
      (push_missing "bindingId" body (push_missing "idempotencyKey" body nil)))

abbrev status_name : ActivationStatus → String
status_name ActivationStatus.active = "ACTIVE"
status_name ActivationStatus.deactivated = "DEACTIVATED"
status_name ActivationStatus.revoked = "REVOKED"

abbrev opt_num : Option ℕ → Json
opt_num none = null
opt_num (some n) = num n

abbrev pub activation_view : Option ActivationRecord → Json
activation_view none = null
activation_view (some a) = obj (
    field "activationId" (str a.activation_id) (
      field "orgId" (str a.org_id) (
        field "capability" (str a.capability) (
          field "bindingId" (str a.binding_id) (
            field "status" (str (status_name a.status)) (
              field "activatedAt" (num a.activated_at) (
                field "deactivatedAt" (opt_num a.deactivated_at)
                  (field "revokedAt" (opt_num a.revoked_at) end))))))))

-- every caller's `outcome` is SUCCESS
abbrev pub receipt_body : String → String → String → ℕ → String → Fields → Fields
receipt_body operation request_id client_id now receipt_id extra =
    field "schemaVersion" (str "patches-partner-v1") (
      field "receiptId" (str receipt_id) (
        field "requestId" (str request_id) (
          field "clientId" (str client_id) (
            field "operation" (str operation)
              (field "outcome" (str "SUCCESS") (field "at" (num now) extra))))))
