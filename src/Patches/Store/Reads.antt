-- ===== src/Patches/Store/Reads.antt =====
-- The keyed reads of `SyntheticPartnerStore`, and the composite keys (patches/lib/store.ts).
use arma_partner_api_sandbox.Prelude.{
  String, Bool, true, false, Option, none, some, List, [], ◌∷◌, joined, ◌==◌, ◌&&◌, keep,
  if◌then◌else◌,
}
use arma_partner_api_sandbox.Prelude.Map.{Map, get}
use arma_partner_api_sandbox.Patches.Store.{
  Store, PartnerRecord, CredentialRecord, CredentialStatus, OrganizationRecord, EntitlementRecord,
  CapabilityRecord, BindingRecord, ActivationRecord, IdempotencyRecord, NonceRecord, ReceiptRecord,
  AuditEventRecord,
}

unfoldable pub credential_key : String → String → String
credential_key client_id key_id = joined client_id key_id

unfoldable pub entitlement_key : String → String → String → String
entitlement_key partner_id org_id capability = joined partner_id (joined org_id capability)

unfoldable pub idempotency_key : String → String → String
idempotency_key client_id key = joined client_id key

unfoldable pub nonce_key : String → String → String
nonce_key client_id nonce = joined client_id nonce

unfoldable pub get_partner_by_client_id : Store → String → Option PartnerRecord
get_partner_by_client_id s client_id = get client_id s.partners

unfoldable pub get_credential : Store → String → String → Option CredentialRecord
get_credential s client_id key_id = get (credential_key client_id key_id) s.credentials

is_active : CredentialStatus → Bool
is_active CredentialStatus.active = true
is_active _ = false

is_grace : CredentialStatus → Bool
is_grace CredentialStatus.grace = true
is_grace _ = false

-- the loop of `activeCredentialFor`: the first active one, else the first in grace
active_from : String → Option CredentialRecord → Map CredentialRecord → Option CredentialRecord
active_from client_id found [] = found
active_from client_id found ((k, c) ∷ rest) = elim (c.client_id == client_id) [
  | false ↦ active_from client_id found rest
  | true ↦ elim (is_active c.status) [
    | true ↦ some c
    | false ↦
        active_from client_id
          (if is_grace c.status then (elim found [ none ↦ some c | some f ↦ some f ]) else found)
          rest
  ]
]

unfoldable pub active_credential_for : Store → String → Option CredentialRecord
unfolding active_from is_active is_grace
active_credential_for s client_id = active_from client_id none s.credentials

unfoldable pub get_organization : Store → String → Option OrganizationRecord
get_organization s org_id = get org_id s.organizations

unfoldable pub get_entitlement : Store → String → String → String → Option EntitlementRecord
get_entitlement s partner_id org_id capability =
    get (entitlement_key partner_id org_id capability) s.entitlements

unfoldable pub get_capability : Store → String → Option CapabilityRecord
get_capability s capability = get capability s.capabilities

unfoldable pub get_binding : Store → String → Option BindingRecord
get_binding s binding_id = get binding_id s.bindings

unfoldable pub get_activation : Store → String → Option ActivationRecord
get_activation s activation_id = get activation_id s.activations

unfoldable pub get_idempotency : Store → String → String → Option IdempotencyRecord
get_idempotency s client_id key = get (idempotency_key client_id key) s.idempotency

unfoldable pub get_nonce_record : Store → String → String → Option NonceRecord
get_nonce_record s client_id nonce = get (nonce_key client_id nonce) s.nonces

unfoldable pub get_receipt : Store → String → Option ReceiptRecord
get_receipt s receipt_id = get receipt_id s.receipts

-- `filter !== undefined && field !== filter` drops an event
agrees : Option String → String → Bool
agrees none field = true
agrees (some f) field = field == f

unfoldable pub get_audit_events : Store → Option String → Option String → List AuditEventRecord
unfolding agrees
get_audit_events s client_id request_id =
    keep (λ e. agrees client_id e.client_id && agrees request_id e.request_id) s.audit
