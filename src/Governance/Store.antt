-- ===== src/Governance/Store.antt =====
-- The governance store of ai-governance/store.ts: engines, envelopes, reviews and the audit log.
use arma_partner_api_sandbox.Prelude.{
  ℕ, ◌+◌, String, Option, none, is_some, Result, ok, err, if◌then◌else◌,
}
use arma_partner_api_sandbox.Prelude.Map.{Map, get, set}
use arma_partner_api_sandbox.Prelude.Json.{bool, str, Fields, end, field}
use arma_partner_api_sandbox.Governance.Classification.{
  EngineRegistration, RegisteredEngine, validate_engine_registration,
}
use arma_partner_api_sandbox.Governance.Audit.{
  AuditLog, GovernanceAuditRecord, RecordAuditEntry, numbered, record_audit,
}

pub record HumanReviewRecord : Type 0 where
  pub review_id : String
  pub reviewer_id : String
  pub org_id : String
  pub action : String
  pub output_hash : String
  pub at : ℕ
  pub audit_id : String

-- An envelope is the object that its maker or a caller presents; see Provenance and Deterministic.
pub record GovernanceStore : Type 0 where
  pub policy_version : String
  pub integrity_key : String
  pub audit_log : AuditLog
  pub engines : Map RegisteredEngine
  pub provenance : Map Fields
  pub deterministic : Map Fields
  pub reviews : Map HumanReviewRecord
  pub provenance_seq : ℕ
  pub deterministic_seq : ℕ
  pub review_seq : ℕ

-- Code that changes the governance store and may throw; `now` is the clock's reading.
abbrev pub Governed : Type 0 → Type 0
Governed A = ℕ → GovernanceStore → Result A × GovernanceStore

abbrev with_log :
    {A : Type 0} → Result (A × AuditLog) → GovernanceStore → Result A × GovernanceStore
with_log (ok (a, log)) s = (ok a, record s { audit_log = log })
with_log (err e) s = (err e, s)

unfoldable pub store_audit : RecordAuditEntry → Governed GovernanceAuditRecord
store_audit entry now s = with_log (record_audit entry now s.audit_log) s

registered : EngineRegistration → ℕ → RegisteredEngine
registered reg now = record {
  engine_id = reg.engine_id;
  engine_class = reg.engine_class;
  engine_version = reg.engine_version;
  designation = reg.designation;
  advisory_only = reg.advisory_only;
  registered_at = now;
}

registration_entry : EngineRegistration → RecordAuditEntry
registration_entry reg = record {
  kind = "governance.engine.registered";
  subject_id = reg.engine_id;
  reason_code = "ENGINE_REGISTERED";
  details = field "engineClass" (str reg.engine_class) (
      field "engineVersion" (str reg.engine_version) (
        field "designation" (str reg.designation)
          (field "advisoryOnly" (bool reg.advisory_only) end)));
  org_ref = none;
}

-- `this.recordAudit` after the engine is in the map: a throw leaves it there.
returning : {A B : Type 0} → A → Result B × GovernanceStore → Result A × GovernanceStore
returning a (ok b, s) = (ok a, s)
returning a (err e, s) = (err e, s)

after_validation : EngineRegistration → Result (Unit {0}) → Governed RegisteredEngine
unfolding registered registration_entry returning
after_validation reg (err e) now s = (err e, s)
after_validation reg (ok _) now s =
    let stored : GovernanceStore = record s {
      engines = set reg.engine_id (registered reg now) s.engines;
    } in
    if is_some (get reg.engine_id s.engines)
    then (err "ENGINE_ALREADY_REGISTERED", s)
    else returning (registered reg now) (store_audit (registration_entry reg) now stored)

unfoldable pub register_engine : EngineRegistration → Governed RegisteredEngine
unfolding after_validation
register_engine reg now s = after_validation reg (validate_engine_registration reg) now s

unfoldable pub get_engine : String → GovernanceStore → Option RegisteredEngine
get_engine engine_id s = get engine_id s.engines

-- the id that `nextReviewId` returns, and its change of the store
unfoldable pub next_review_id : GovernanceStore → String × GovernanceStore
next_review_id s = (numbered "REV-" (s.review_seq + 1), record s { review_seq = s.review_seq + 1 })

unfoldable pub put_review :
    HumanReviewRecord → GovernanceStore → Result (Unit {0}) × GovernanceStore
put_review review s =
    if is_some (get review.review_id s.reviews)
    then (err "STORE_REVIEW_ID_COLLISION", s)
    else (ok tt, record s { reviews = set review.review_id review s.reviews })

unfoldable pub get_review : String → GovernanceStore → Option HumanReviewRecord
get_review review_id s = get review_id s.reviews
