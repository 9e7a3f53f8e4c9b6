-- ===== src/Governance/Protected.antt =====
-- The policies and decisions of ai-governance/protectedActions.ts.
pub mod Judge
pub mod Laws
pub mod Decisions
use arma_partner_api_sandbox.Prelude.{
  is_blank, ℕ, String, Bool, true, false, not, ◌&&◌, ◌||◌, Option, none, some, List, [], ◌∷◌, ◌==◌,
  Result, ok, err, if◌then◌else◌, is_sha256_hex, contains,
}
use arma_partner_api_sandbox.Prelude.Json.{Json, str, Items, Fields, end, field}
use arma_partner_api_sandbox.Governance.Audit.{GovernanceAuditRecord, RecordAuditEntry}
use arma_partner_api_sandbox.Governance.Store.{
  GovernanceStore, HumanReviewRecord, Governed, store_audit,
}
use arma_partner_api_sandbox.Governance.Provenance.{text_of, verify_provenance_envelope}
use arma_partner_api_sandbox.Governance.Deterministic.{
  ruling_of, verify_deterministic_result_envelope,
}
use arma_partner_api_sandbox.Governance.HumanReview.{verify_human_review}

abbrev pub active_policy_version : String
active_policy_version = "ai-governance.policy.v1"

abbrev protected_action_kinds : List String
protected_action_kinds =
    "LAW_SHIELD_DISCLOSURE" ∷ "RBAC_CHANGE" ∷ "ADMIN_GRANT" ∷ "TENANT_OWNERSHIP_CHANGE"
    ∷ "PARTNER_CREDENTIAL_CHANGE" ∷ "ENTITLEMENT_OVERRIDE" ∷ "SECURITY_POLICY_OVERRIDE"
    ∷ "EVIDENCE_DESTRUCTION" ∷ "PROTECTED_PARTNER_ACTIVATION_OVERRIDE" ∷ "AUDIT_MUTATION" ∷ []

-- The fields that are the same in every policy are the constants of the code below.
pub record ProtectedActionPolicy : Type 0 where
  pub action : String
  pub description : String
  pub allowed_actor_classes : List String
  pub deterministic_allowed : Bool
  pub allowed_deterministic_decisions : List String

abbrev by_default : String → String → ProtectedActionPolicy
by_default action description = record {
  action = action;
  description = description;
  allowed_actor_classes = "HUMAN_OPERATOR" ∷ [];
  deterministic_allowed = false;
  allowed_deterministic_decisions = [];
}

abbrev protected_action_policies : List ProtectedActionPolicy
protected_action_policies =
    by_default "LAW_SHIELD_DISCLOSURE" "Authorize a Law Shield disclosure"
    ∷ by_default "RBAC_CHANGE" "Create or change RBAC roles/permissions"
    ∷ by_default "ADMIN_GRANT" "Grant admin access"
    ∷ by_default "TENANT_OWNERSHIP_CHANGE" "Change tenant ownership"
    ∷ by_default "PARTNER_CREDENTIAL_CHANGE" "Change partner credentials"
    ∷ by_default "ENTITLEMENT_OVERRIDE" "Bypass or override entitlements"
    ∷ by_default "SECURITY_POLICY_OVERRIDE" "Override security policy"
    ∷ record (by_default "EVIDENCE_DESTRUCTION" "Destroy evidence") {
      deterministic_allowed = true;
      allowed_deterministic_decisions = "AUTO_BLOCK_RETENTION_HOLD" ∷ [];
    }
    ∷ by_default "PROTECTED_PARTNER_ACTIVATION_OVERRIDE" "Override a protected partner activation"
    ∷ record (by_default "AUDIT_MUTATION" "Rewrite or delete audit records") {
      allowed_actor_classes = [];
    }
    ∷ []

unfoldable pub policy_in : List ProtectedActionPolicy → String → Option ProtectedActionPolicy
policy_in [] action = none
policy_in (p ∷ ps) action = if p.action == action then some p else policy_in ps action

unfoldable pub get_protected_action_policy : String → Option ProtectedActionPolicy
unfolding policy_in
get_protected_action_policy action =
    if contains protected_action_kinds action
    then policy_in protected_action_policies action
    else none

-- `safeString`
abbrev pub safe_string : String → String → String
safe_string value fallback = if value == "" then fallback else value

abbrev pub safe_option : Option String → String → String
safe_option none fallback = fallback
safe_option (some value) fallback = safe_string value fallback

-- An envelope is the object presented with the request.
pub record ProtectedActionRequest : Type 0 where
  pub action : String
  pub org_id : String
  pub actor_class : String
  pub actor_id : String
  pub policy_version : String
  pub review_id : Option String
  pub output_hash : Option String
  pub ai_assisted : Bool
  pub ai_provenance : Option Fields
  pub deterministic_provenance : Option Fields

abbrev pub actor_of : ProtectedActionRequest → String
actor_of q = safe_string q.actor_id "UNKNOWN_ACTOR"

abbrev pub org_of : ProtectedActionRequest → String
org_of q = safe_string q.org_id "UNKNOWN_ORG"

-- What an allowed request rests on.
pub record Grant : Type 0 where
  pub review_id : String
  pub reviewed_provenance_id : Option String

-- How a request is judged before the decision is audited: granted, or denied with a reason code,
-- its details and the deterministic ruling that stands.
pub data Judgement (A : Type 0) : Type 0 where
  granted : A → Judgement A
  denied : String → Fields → Option String → Judgement A

infixl 5 ◌>>=◌ ◌>>◌
abbrev pub ◌>>=◌ : {A B : Type 0} → Judgement A → (A → Judgement B) → Judgement B
granted a >>= f = f a
denied code details ruling >>= f = denied code details ruling

abbrev pub ◌>>◌ : {B : Type 0} → Judgement (Unit {0}) → Judgement B → Judgement B
m >> n = m >>= λ _. n

-- `if (!b) return decide('DENIED', code, details)`
abbrev pub require : Bool → String → Fields → Judgement (Unit {0})
require true code details = granted tt
require false code details = denied code details none

abbrev pub present : {A : Type 0} → Option A → String → Fields → Judgement A
present none code details = denied code details none
present (some a) code details = granted a

abbrev pub sound : {A : Type 0} → Result A → (String → Fields) → String → Judgement A
sound (ok a) details code = granted a
sound (err reason) details code = denied code (details reason) none
