-- ===== src/LawShield/Store/Directory.antt =====
-- The directory that the processor checks a transfer against: organization mappings, case mappings
-- and authorizers (law-shield/lawshield/durable/store.js). The clock's reading is an argument.
use arma_partner_api_sandbox.Prelude.{ℕ, String, true, false, Option, none, some, joined}
use arma_partner_api_sandbox.Prelude.Map.{get, set}
use arma_partner_api_sandbox.LawShield.Store.{Store, OrgMapping, CaseMapping, Authorizer}

-- `existing?.createdAt ?? Date.now()`
org_created_at : Option OrgMapping → ℕ → ℕ
org_created_at none now = now
org_created_at (some m) now = m.created_at

unfoldable pub upsert_org_mapping : String → String → String → ℕ → Store → Store
unfolding org_created_at
upsert_org_mapping arma_org_id law_shield_org_id user_id now s = record s {
  org_mappings =
      set arma_org_id
        (record {
          arma_org_id = arma_org_id;
          law_shield_org_id = law_shield_org_id;
          is_active = true;
          created_by_user_id = user_id;
          created_at = org_created_at (get arma_org_id s.org_mappings) now;
          updated_by_user_id = user_id;
          updated_at = now;
        })
        s.org_mappings;
}

unfoldable pub get_org_mapping : Store → String → Option OrgMapping
get_org_mapping s arma_org_id = get arma_org_id s.org_mappings

org_deactivated : String → ℕ → Option OrgMapping → Store → Store
org_deactivated arma_org_id now none s = s
org_deactivated arma_org_id now (some m) s = record s {
  org_mappings = set arma_org_id (record m { is_active = false; updated_at = now }) s.org_mappings;
}

unfoldable pub deactivate_org_mapping : String → ℕ → Store → Store
unfolding org_deactivated
deactivate_org_mapping arma_org_id now s =
    org_deactivated arma_org_id now (get arma_org_id s.org_mappings) s

unfoldable pub case_key : String → String → String
case_key arma_org_id incident_id = joined arma_org_id incident_id

case_created_at : Option CaseMapping → ℕ → ℕ
case_created_at none now = now
case_created_at (some m) now = m.created_at

unfoldable pub upsert_case_mapping : String → String → String → String → String → ℕ → Store → Store
unfolding case_created_at
upsert_case_mapping arma_org_id incident_id law_shield_org_id case_id user_id now s = record s {
  case_mappings =
      set (case_key arma_org_id incident_id)
        (record {
          arma_org_id = arma_org_id;
          incident_id = incident_id;
          law_shield_org_id = law_shield_org_id;
          law_shield_case_id = case_id;
          is_active = true;
          created_by_user_id = user_id;
          created_at = case_created_at (get (case_key arma_org_id incident_id) s.case_mappings) now;
          updated_by_user_id = user_id;
          updated_at = now;
        })
        s.case_mappings;
}

unfoldable pub get_case_mapping : Store → String → String → Option CaseMapping
get_case_mapping s arma_org_id incident_id = get (case_key arma_org_id incident_id) s.case_mappings

case_deactivated : String → ℕ → Option CaseMapping → Store → Store
case_deactivated key now none s = s
case_deactivated key now (some m) s = record s {
  case_mappings = set key (record m { is_active = false; updated_at = now }) s.case_mappings;
}

unfoldable pub deactivate_case_mapping : String → String → ℕ → Store → Store
unfolding case_deactivated
deactivate_case_mapping arma_org_id incident_id now s =
    let key = case_key arma_org_id incident_id in
    case_deactivated key now (get key s.case_mappings) s

unfoldable pub upsert_authorizer : String → String → ℕ → Store → Store
upsert_authorizer user_id arma_org_id now s = record s {
  authorizers =
      set user_id
        (record {
          user_id = user_id;
          arma_org_id = arma_org_id;
          is_active = true;
          created_at = now;
          updated_at = now;
        })
        s.authorizers;
}

unfoldable pub get_authorizer : Store → String → Option Authorizer
get_authorizer s user_id = get user_id s.authorizers

authorizer_deactivated : String → ℕ → Option Authorizer → Store → Store
authorizer_deactivated user_id now none s = s
authorizer_deactivated user_id now (some a) s = record s {
  authorizers = set user_id (record a { is_active = false; updated_at = now }) s.authorizers;
}

unfoldable pub deactivate_authorizer : String → ℕ → Store → Store
unfolding authorizer_deactivated
deactivate_authorizer user_id now s =
    authorizer_deactivated user_id now (get user_id s.authorizers) s

-- `seedSyntheticProcessorDirectory`
unfoldable pub seed_synthetic_processor_directory : ℕ → Store → Store
seed_synthetic_processor_directory now s =
    let s1 = upsert_org_mapping "org-arma-1" "ls-org-1" "user-commander-1" now s in
    let s2 = upsert_org_mapping "org-arma-2" "ls-org-2" "user-commander-2" now s1 in
    let s3 =
      upsert_case_mapping "org-arma-1" "INC-1001" "ls-org-1" "LS-CASE-1" "user-commander-1" now
        s2 in
    let s4 =
      upsert_case_mapping "org-arma-2" "INC-2001" "ls-org-2" "LS-CASE-2" "user-commander-2" now
        s3 in
    let s5 = upsert_authorizer "user-commander-1" "org-arma-1" now s4 in
    let s6 = upsert_authorizer "user-commander-2" "org-arma-2" now s5 in
    upsert_authorizer "user-77" "org-arma-1" now s6
