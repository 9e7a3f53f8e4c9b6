-- ===== src/Patches/Store.antt =====
-- The records of patches/lib/store.ts and the state of `SyntheticPartnerStore`. The operations are
-- in the modules below; those that only read sorted listings (`localeCompare`) and the counts that
-- tests read are left out.
pub mod Exec
pub mod Sanitize
pub mod Writes
pub mod Reads
pub mod Transactions
use arma_partner_api_sandbox.Prelude.{ℕ, String, Bool, Option, List}
use arma_partner_api_sandbox.Prelude.Map.{Map}
use arma_partner_api_sandbox.Prelude.Json.{Json}

pub data Status : Type 0 where
  active suspended : Status

pub record PartnerRecord : Type 0 where
  pub partner_id : String
  pub client_id : String
  pub status : Status

pub data CredentialStatus : Type 0 where
  active grace retired revoked : CredentialStatus

-- `kind` has the one value CLIENT_SECRET
pub record CredentialRecord : Type 0 where
  pub client_id : String
  pub key_id : String
  pub secret_hash : String
  pub status : CredentialStatus
  pub activated_at : ℕ
  pub rotated_from : Option String
  pub retired_at : Option ℕ
  pub revoked_at : Option ℕ
  pub revoked_reason : Option String

pub record OrganizationRecord : Type 0 where
  pub org_id : String
  pub owning_partner_id : String
  pub status : Status

pub data EntitlementStatus : Type 0 where
  active inactive revoked : EntitlementStatus

pub record EntitlementRecord : Type 0 where
  pub entitlement_id : String
  pub partner_id : String
  pub org_id : String
  pub capability : String
  pub status : EntitlementStatus
  pub licensed_from : ℕ
  pub licensed_until : ℕ

pub record CapabilityRecord : Type 0 where
  pub capability : String
  pub min_api_version : String
  pub max_api_version : String
  pub description : String

pub data BindingStatus : Type 0 where
  active inactive : BindingStatus

pub record BindingRecord : Type 0 where
  pub binding_id : String
  pub org_id : String
  pub capability : String
  pub device_id : String
  pub subject_ref : String
  pub status : BindingStatus
  pub bound_at : ℕ

pub data ActivationStatus : Type 0 where
  active deactivated revoked : ActivationStatus

pub record ActivationRecord : Type 0 where
  pub activation_id : String
  pub org_id : String
  pub capability : String
  pub binding_id : String
  pub partner_id : String
  pub status : ActivationStatus
  pub activated_at : ℕ
  pub deactivated_at : Option ℕ
  pub revoked_at : Option ℕ
  pub last_request_id : Option String
  pub idempotency_key : Option String
  pub activated_via_idempotency_key : Option String
  pub payload_hash : String

pub data RecordedOutcome : Type 0 where
  success conflict : RecordedOutcome

pub record IdempotencyRecord : Type 0 where
  pub client_id : String
  pub idempotency_key : String
  pub request_hash : String
  pub outcome : RecordedOutcome
  pub activation_id : Option String
  pub request_id : Option String
  pub at : ℕ

pub record NonceRecord : Type 0 where
  pub client_id : String
  pub nonce : String
  pub first_seen_at : ℕ
  pub first_seen_request_id : Option String

pub record ReceiptRecord : Type 0 where
  pub receipt_id : String
  pub request_id : String
  pub client_id : String
  pub operation : String
  pub outcome : String
  pub activation_id : Option String
  pub org_id : Option String
  pub capability : Option String
  pub payload_hash : Option String
  pub at : ℕ

pub record EventRecord : Type 0 where
  pub event_id : String
  pub org_id : String
  pub capability : String
  pub activation_id : Option String
  pub kind : String
  pub at : ℕ
  pub payload_digest : Option String

pub data ActorKind : Type 0 where
  partner system : ActorKind

pub data AuditOutcome : Type 0 where
  success rejected failed quarantined conflict : AuditOutcome

-- `Omit<AuditEventRecord, 'sequence'>`
pub record AuditEntry : Type 0 where
  pub at : ℕ
  pub actor_kind : ActorKind
  pub client_id : String
  pub request_id : String
  pub operation : String
  pub outcome : AuditOutcome
  pub detail : Json

pub record AuditEventRecord : Type 0 where
  pub sequence : ℕ
  pub entry : AuditEntry
  pub open entry use *

pub record FailPoints : Type 0 where
  pub persist_activation : Bool
  pub persist_receipt : Bool
  pub audit_write : Bool
  pub event_write : Bool

pub record Store : Type 0 where
  pub partners : Map PartnerRecord
  pub credentials : Map CredentialRecord
  pub organizations : Map OrganizationRecord
  pub entitlements : Map EntitlementRecord
  pub capabilities : Map CapabilityRecord
  pub bindings : Map BindingRecord
  pub activations : Map ActivationRecord
  pub idempotency : Map IdempotencyRecord
  pub nonces : Map NonceRecord
  pub receipts : Map ReceiptRecord
  pub events : List EventRecord
  pub audit : List AuditEventRecord
  pub fail_points : FailPoints
  pub audit_sequence : ℕ
  pub tx_depth : ℕ
