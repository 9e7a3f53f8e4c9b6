-- ===== src/LawShield/Store.antt =====
-- The records of law-shield/lawshield/durable/store.js and the state of
-- `SyntheticDurableLawShieldStore`. The operations are in the modules below; the counts that only
-- tests read are left out. `null` is `none`.
pub mod Exec
pub mod Sanitize
pub mod Directory
pub mod Writes
pub mod Transactions
use arma_partner_api_sandbox.Prelude.{ℕ, String, Bool, Option, List}
use arma_partner_api_sandbox.Prelude.Map.{Map}
use arma_partner_api_sandbox.Prelude.Json.{Json}

pub record OrgMapping : Type 0 where
  pub arma_org_id : String
  pub law_shield_org_id : String
  pub is_active : Bool
  pub created_by_user_id : String
  pub created_at : ℕ
  pub updated_by_user_id : String
  pub updated_at : ℕ

pub record CaseMapping : Type 0 where
  pub arma_org_id : String
  pub incident_id : String
  pub law_shield_org_id : String
  pub law_shield_case_id : String
  pub is_active : Bool
  pub created_by_user_id : String
  pub created_at : ℕ
  pub updated_by_user_id : String
  pub updated_at : ℕ

pub record Authorizer : Type 0 where
  pub user_id : String
  pub arma_org_id : String
  pub is_active : Bool
  pub created_at : ℕ
  pub updated_at : ℕ

pub record NonceRecord : Type 0 where
  pub schema_version : String
  pub nonce : String
  pub transfer_id : String
  pub seen_at : ℕ
  pub window_ms : ℕ

-- ACCEPTED | REJECTED | QUARANTINED: the outcome of a binding and the status of a transfer
pub data Decision : Type 0 where
  accepted rejected quarantined : Decision

pub record Binding : Type 0 where
  pub schema_version : String
  pub idempotency_key : String
  pub transfer_id : String
  pub payload_hash : String
  pub outcome : Decision
  pub receipt_id : Option String
  pub accepted_at : Option ℕ
  pub error_code : Option String
  pub bound_at : ℕ

-- What the caller of `createDurableTransfer` gives; `incidentId` and `lawShieldCaseId` are as they
-- came in the envelope.
pub record TransferInput : Type 0 where
  pub transfer_id : String
  pub idempotency_key : String
  pub schema_version : String
  pub arma_org_id : String
  pub law_shield_org_id : String
  pub incident_id : Json
  pub law_shield_case_id : Json
  pub record_type : String
  pub record_id : String
  pub authorized_by : String
  pub payload_hash : String
  pub status : Decision
  pub receipt_id : Option String
  pub accepted_at : Option ℕ
  pub rejected_at : Option ℕ
  pub quarantined_at : Option ℕ
  pub last_error_code : Option String
  pub minimum_necessary_fields : List String

pub record Transfer : Type 0 where
  pub input : TransferInput
  pub open input use *
  pub created_at : ℕ
  pub updated_at : ℕ

pub record Receipt : Type 0 where
  pub receipt_id : String
  pub transfer_id : String
  pub idempotency_key : String
  pub accepted_at : ℕ
  pub processing_result : String
  pub payload_hash : String
  pub created_at : ℕ

-- What the caller of `appendAudit` gives.
pub record AuditEntry : Type 0 where
  pub transfer_id : Option String
  pub idempotency_key : Option String
  pub arma_org_id : Option String
  pub law_shield_org_id : Option String
  pub event_type : String
  pub actor_type : String
  pub source : String
  pub outcome : String
  pub detail : Json

pub record AuditEvent : Type 0 where
  pub audit_sequence : ℕ
  pub entry : AuditEntry
  pub open entry use *
  pub created_at : ℕ

-- Whether a fail point is set; the side effect of a hook that is a function is left out.
pub record FailPoints : Type 0 where
  pub persist_transfer : Bool
  pub persist_receipt : Bool
  pub audit_write : Bool

pub record Store : Type 0 where
  pub org_mappings : Map OrgMapping
  pub case_mappings : Map CaseMapping
  pub authorizers : Map Authorizer
  pub nonces : Map NonceRecord
  pub idempotency : Map Binding
  pub transfers : Map Transfer
  pub transfers_by_idempotency : Map String
  pub receipts : Map Receipt
  pub audit : List AuditEvent
  pub audit_sequence : ℕ
  pub fail_points : FailPoints
  pub tx_depth : ℕ
