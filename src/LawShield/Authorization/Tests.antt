-- ===== src/LawShield/Authorization/Tests.antt =====
-- Example runs of law-shield/arma/authorizationGuard.js, and the theorem at one of them.
use arma_partner_api_sandbox.Prelude.{
  String, true, false, Option, none, some, List, [], ◌∷◌, ◌≡◌, refl, Result, ok, err,
}
use arma_partner_api_sandbox.LawShield.Store.{OrgMapping, CaseMapping}
use arma_partner_api_sandbox.LawShield.Reconciliation.{Directory, seed_synthetic_identities, Store}
use arma_partner_api_sandbox.LawShield.Authorization.{
  Disclosure, Approval, check_disclosure_authorization,
}
use arma_partner_api_sandbox.LawShield.Authorization.Laws.{
  IsAuthorized, check_disclosure_authorization-IsAuthorized,
}

abbrev directory : Directory
directory = seed_synthetic_identities []

abbrev organization : OrgMapping
organization = record {
  arma_org_id = "org-arma-1";
  law_shield_org_id = "ls-org-1";
  is_active = true;
  created_by_user_id = "user-commander-1";
  created_at = 1;
  updated_by_user_id = "user-commander-1";
  updated_at = 1;
}

abbrev incident : CaseMapping
incident = record {
  arma_org_id = "org-arma-1";
  incident_id = "INC-1";
  law_shield_org_id = "ls-org-1";
  law_shield_case_id = "LS-CASE-1";
  is_active = true;
  created_by_user_id = "user-commander-1";
  created_at = 1;
  updated_by_user_id = "user-commander-1";
  updated_at = 1;
}

abbrev store : Store
store = record {
  org_mappings = ("org-arma-1", organization) ∷ [];
  case_mappings = ("org-arma-1::INC-1", incident) ∷ [];
  transfer_orgs = [];
  reconciliations = [];
}

abbrev request : Disclosure
request = record {
  arma_org_id = "org-arma-1";
  law_shield_org_id = "ls-org-1";
  incident_id = some "INC-1";
  authorization_reason = some "court referral";
  phi_categories = none;
  minimum_necessary_fields = some ("caseNumber" ∷ []);
  redacted_fields = some ("ssn" ∷ []);
}

abbrev approval : Approval
approval = record {
  authorized_by_user_id = "user-commander-1";
  phi_categories = [];
  minimum_necessary_fields = "caseNumber" ∷ [];
  redacted_fields = "ssn" ∷ [];
}

authorized :
    check_disclosure_authorization store directory (some "user-commander-1") request ≡ ok approval
unfolding check_disclosure_authorization
    arma_partner_api_sandbox.LawShield.Reconciliation.check_human
    arma_partner_api_sandbox.Prelude.Map.get seed_synthetic_identities
    arma_partner_api_sandbox.Prelude.Map.set arma_partner_api_sandbox.Prelude.contains
    arma_partner_api_sandbox.LawShield.Reconciliation.belongs_to_org
    arma_partner_api_sandbox.LawShield.Authorization.get_org_mapping
    arma_partner_api_sandbox.LawShield.Authorization.get_case_mapping
    arma_partner_api_sandbox.Prelude.joined
    arma_partner_api_sandbox.LawShield.Authorization.check_reason
    arma_partner_api_sandbox.Prelude.is_blank arma_partner_api_sandbox.Prelude.Json.utf16_length
    arma_partner_api_sandbox.LawShield.Reconciliation.trim
    arma_partner_api_sandbox.LawShield.Authorization.approval_for
authorized = refl

engine_refused :
    check_disclosure_authorization store directory (some "ai-engine-joy") request
    ≡ err "AI_CANNOT_AUTHORIZE_TRANSFER"
unfolding check_disclosure_authorization
    arma_partner_api_sandbox.LawShield.Reconciliation.check_human
    arma_partner_api_sandbox.Prelude.Map.get seed_synthetic_identities
    arma_partner_api_sandbox.Prelude.Map.set
engine_refused = refl

unmapped_incident :
    check_disclosure_authorization store directory
      (some "user-commander-1")
      (record request { incident_id = some "INC-2" })
    ≡ err "CASE_MAPPING_MISSING"
unfolding check_disclosure_authorization
    arma_partner_api_sandbox.LawShield.Reconciliation.check_human
    arma_partner_api_sandbox.Prelude.Map.get seed_synthetic_identities
    arma_partner_api_sandbox.Prelude.Map.set arma_partner_api_sandbox.Prelude.contains
    arma_partner_api_sandbox.LawShield.Reconciliation.belongs_to_org
    arma_partner_api_sandbox.LawShield.Authorization.get_org_mapping
    arma_partner_api_sandbox.LawShield.Authorization.get_case_mapping
    arma_partner_api_sandbox.Prelude.joined
unmapped_incident = refl

check_disclosure_authorization-IsAuthorized_example :
    (◌≡◌ {A = Option String} (some "user-commander-1") (some "user-commander-1"))
    × IsAuthorized store directory request "user-commander-1"
check_disclosure_authorization-IsAuthorized_example =
    check_disclosure_authorization-IsAuthorized store directory (some "user-commander-1") request
      approval authorized
