-- ===== src/LawShield/Authorization.antt =====
-- `checkDisclosureAuthorization` of law-shield/arma/authorizationGuard.js: who may disclose.
pub mod Laws
mod Tests
use arma_partner_api_sandbox.Prelude.{
  String, Bool, not, Option, List, [], ◌==◌, ltb, is_blank, joined, Result, ok, guard, ◌>>=◌, ◌>>◌,
  if◌then◌else◌, none, some,
}
use arma_partner_api_sandbox.Prelude.Map.{get}
use arma_partner_api_sandbox.Prelude.Json.{utf16_length}
use arma_partner_api_sandbox.LawShield.Store.{OrgMapping, CaseMapping}
use arma_partner_api_sandbox.LawShield.Reconciliation.{
  Directory, belongs_to_org, trim, Store, present, text_or, check_human,
}

-- What the guard reads of the request; none is a value that is no text, or no list.
pub record Disclosure : Type 0 where
  pub arma_org_id : String
  pub law_shield_org_id : String
  pub incident_id : Option String
  pub authorization_reason : Option String
  pub phi_categories : Option (List String)
  pub minimum_necessary_fields : Option (List String)
  pub redacted_fields : Option (List String)

-- `policyFields`, with the id of the user who authorizes
pub record Approval : Type 0 where
  pub authorized_by_user_id : String
  pub phi_categories : List String
  pub minimum_necessary_fields : List String
  pub redacted_fields : List String

unfoldable pub get_org_mapping : Store → String → Option OrgMapping
get_org_mapping s arma_org_id = get arma_org_id s.org_mappings

unfoldable pub get_case_mapping : Store → String → String → Option CaseMapping
get_case_mapping s arma_org_id incident_id = get (joined arma_org_id incident_id) s.case_mappings

unfoldable pub case_found : String → Option CaseMapping → Result (Unit {0})
case_found law_shield_org_id o = present "CASE_MAPPING_MISSING" o >>= λ m.
    guard m.is_active "CASE_MAPPING_INACTIVE"
    >> guard (m.law_shield_org_id == law_shield_org_id) "CASE_MAPPING_TENANT_MISMATCH"

-- `if (request.incidentId)`: an empty id counts as none
unfoldable pub check_case : Store → Disclosure → Option String → Result (Unit {0})
unfolding case_found
check_case s q none = ok tt
check_case s q (some incident_id) =
    if incident_id == ""
    then ok tt
    else case_found q.law_shield_org_id (get_case_mapping s q.arma_org_id incident_id)

unfoldable pub check_reason : Option String → Result (Unit {0})
check_reason given = present "AUTHORIZATION_REASON_REQUIRED" given >>= λ reason.
    guard (not (is_blank reason)) "AUTHORIZATION_REASON_REQUIRED"
    >> guard (not (ltb (utf16_length (trim reason)) 10)) "AUTHORIZATION_REASON_TOO_SHORT"

list_or_empty : Option (List String) → List String
list_or_empty none = []
list_or_empty (some xs) = xs

unfoldable pub approval_for : String → Disclosure → Approval
unfolding list_or_empty
approval_for user_id q = record {
  authorized_by_user_id = user_id;
  phi_categories = list_or_empty q.phi_categories;
  minimum_necessary_fields = list_or_empty q.minimum_necessary_fields;
  redacted_fields = list_or_empty q.redacted_fields;
}

unfoldable pub check_disclosure_authorization :
    Store → Directory → Option String → Disclosure → Result Approval
unfolding check_case
check_disclosure_authorization s d actor q =
    check_human d actor "AI_CANNOT_AUTHORIZE_TRANSFER" >>= λ user_id.
    guard (belongs_to_org d user_id q.arma_org_id) "ACTOR_NOT_IN_TRANSFER_ORG" >>= λ _.
    present "ORG_MAPPING_MISSING" (get_org_mapping s q.arma_org_id) >>= λ mapping.
    guard mapping.is_active "ORG_MAPPING_INACTIVE"
    >> check_case s q q.incident_id
    >> check_reason q.authorization_reason
    >> ok (approval_for user_id q)
