-- ===== src/Patches/Store/Writes.antt =====
-- The operations of `SyntheticPartnerStore` that change it (patches/lib/store.ts).
use arma_partner_api_sandbox.Prelude.{
  ℕ, ◌+◌, String, Bool, Option, none, some, [], ◌∷◌, ◌++◌, ltb, not, if◌then◌else◌,
}
use arma_partner_api_sandbox.Prelude.Map.{get, set, retain}
use arma_partner_api_sandbox.Prelude.Json.{Json, null, obj}
use arma_partner_api_sandbox.Patches.Store.{
  PartnerRecord, CredentialRecord, OrganizationRecord, EntitlementRecord, CapabilityRecord,
  BindingRecord, ActivationRecord, IdempotencyRecord, NonceRecord, ReceiptRecord, EventRecord,
  AuditEntry, AuditEventRecord, FailPoints,
}
use arma_partner_api_sandbox.Patches.Store.Exec.{Exec, ◌>>◌, pure, throw, modify}
use arma_partner_api_sandbox.Patches.Store.Reads.{
  credential_key, entitlement_key, idempotency_key, nonce_key,
}
use arma_partner_api_sandbox.Patches.Store.Sanitize.{sanitize_detail}

-- `_fail(name)`
unfoldable pub fail : (FailPoints → Bool) → String → Exec (Unit {0})
fail point message s = if point s.fail_points then throw message s else pure tt s

unfoldable pub add_partner : PartnerRecord → Exec (Unit {0})
add_partner p = modify λ s. record s { partners = set p.client_id p s.partners }

unfoldable pub put_credential : CredentialRecord → Exec (Unit {0})
put_credential c =
    modify λ s. record s { credentials = set (credential_key c.client_id c.key_id) c s.credentials }

unfoldable pub add_organization : OrganizationRecord → Exec (Unit {0})
add_organization o = modify λ s. record s { organizations = set o.org_id o s.organizations }

unfoldable pub put_entitlement : EntitlementRecord → Exec (Unit {0})
put_entitlement e = modify λ s. record s {
  entitlements = set (entitlement_key e.partner_id e.org_id e.capability) e s.entitlements;
}

unfoldable pub put_capability : CapabilityRecord → Exec (Unit {0})
put_capability c = modify λ s. record s { capabilities = set c.capability c s.capabilities }

unfoldable pub put_binding : BindingRecord → Exec (Unit {0})
put_binding b = modify λ s. record s { bindings = set b.binding_id b s.bindings }

unfoldable pub put_activation : ActivationRecord → Exec (Unit {0})
unfolding fail
put_activation a = do
  fail (λ p. p.persist_activation) "FAILPOINT_persistActivation"
  modify λ s. record s { activations = set a.activation_id a s.activations }

unfoldable pub put_idempotency : IdempotencyRecord → Exec (Unit {0})
put_idempotency r = modify λ s. record s {
  idempotency = set (idempotency_key r.client_id r.idempotency_key) r s.idempotency;
}

-- The existing record is returned; `none` says that the nonce is new and now registered.
register_found : String → NonceRecord → Option NonceRecord → Exec (Option NonceRecord)
register_found key r (some existing) = pure (some existing)
register_found key r none = do modify λ s. record s { nonces = set key r s.nonces }; pure none

unfoldable pub register_nonce : String → String → ℕ → Option String → Exec (Option NonceRecord)
unfolding register_found
register_nonce client_id nonce at request_id s =
    let key = nonce_key client_id nonce in
    register_found key
      (record {
        client_id = client_id;
        nonce = nonce;
        first_seen_at = at;
        first_seen_request_id = request_id;
      })
      (get key s.nonces) s

unfoldable pub prune_nonces_before : ℕ → Exec (Unit {0})
prune_nonces_before at =
    modify λ s. record s { nonces = retain (λ r. not (ltb r.first_seen_at at)) s.nonces }

unfoldable pub put_receipt : ReceiptRecord → Exec (Unit {0})
unfolding fail
put_receipt r = do
  fail (λ p. p.persist_receipt) "FAILPOINT_persistReceipt"
  modify λ s. record s { receipts = set r.receipt_id r s.receipts }

unfoldable pub append_event : EventRecord → Exec (Unit {0})
unfolding fail
append_event e = do
  fail (λ p. p.event_write) "FAILPOINT_eventWrite"
  modify λ s. record s { events = s.events ++ e ∷ [] }

-- a sanitized detail is kept only if it is an object
kept_detail : Option Json → Json
kept_detail (some (obj fs)) = obj fs
kept_detail _ = null

unfoldable pub audit_record : ℕ → AuditEntry → AuditEventRecord
unfolding kept_detail
audit_record sequence e = record {
  sequence = sequence;
  entry = record e { detail = kept_detail (sanitize_detail e.detail 0) };
}

unfoldable pub append_audit : AuditEntry → Exec (Unit {0})
unfolding fail
append_audit e = do
  fail (λ p. p.audit_write) "FAILPOINT_auditWrite"
  modify λ s. record s {
    audit_sequence = s.audit_sequence + 1;
    audit = s.audit ++ audit_record (s.audit_sequence + 1) e ∷ [];
  }
