-- ===== src/Patches/Policy.antt =====
-- patches/lib/policy.ts. A failure is its code; its `detail`, which the server does not forward, is
-- left out.
pub mod Laws
use arma_partner_api_sandbox.Prelude.{
  ℕ, String, Bool, true, false, Option, none, some, List, [], ◌∷◌, ltb, contains, ◌==◌, ◌||◌, not,
  if◌then◌else◌,
}
use arma_partner_api_sandbox.Patches.Store.{
  Store, Status, OrganizationRecord, EntitlementStatus, EntitlementRecord, CapabilityRecord,
  BindingStatus, BindingRecord,
}
use arma_partner_api_sandbox.Patches.Store.Reads.{
  get_organization, get_entitlement, get_capability, get_binding,
}

abbrev pub supported_api_versions : List String
supported_api_versions = "v1" ∷ []

unfoldable pub is_supported_api_version : String → Bool
is_supported_api_version version = contains supported_api_versions version

-- The codes that the functions below return.
pub data PolicyFailureCode : Type 0 where
  org_unknown org_suspended org_not_bound_to_partner : PolicyFailureCode
  entitlement_missing entitlement_inactive entitlement_revoked : PolicyFailureCode
  entitlement_expired : PolicyFailureCode
  capability_unknown capability_version_unsupported : PolicyFailureCode
  binding_unknown binding_inactive binding_org_mismatch : PolicyFailureCode
  binding_capability_mismatch : PolicyFailureCode

pub data Verdict : Type 0 where
  allow : Verdict
  deny : PolicyFailureCode → Verdict

-- `if (!v.ok) return v; rest`
infixr 5 ◌then_check◌
abbrev pub ◌then_check◌ : Verdict → Verdict → Verdict
allow then_check rest = rest
(deny code) then_check rest = deny code

org_found : String → Option OrganizationRecord → Verdict
org_found partner_id none = deny org_unknown
org_found partner_id (some org) = elim org.status [
  | Status.suspended ↦ deny org_suspended
  | Status.active ↦
      if org.owning_partner_id == partner_id then allow else deny org_not_bound_to_partner
]

unfoldable pub authorize_org : Store → String → String → Verdict
unfolding org_found
authorize_org s partner_id org_id = org_found partner_id (get_organization s org_id)

entitlement_found : ℕ → Option EntitlementRecord → Verdict
entitlement_found now none = deny entitlement_missing
entitlement_found now (some ent) = elim ent.status [
  | EntitlementStatus.revoked ↦ deny entitlement_revoked
  | EntitlementStatus.inactive ↦ deny entitlement_inactive
  | EntitlementStatus.active ↦
      if ltb now ent.licensed_from
      then deny entitlement_expired
      else if ltb ent.licensed_until now
      then deny entitlement_expired
      else allow
]

unfoldable pub check_entitlement : Store → String → String → String → ℕ → Verdict
unfolding entitlement_found
check_entitlement s partner_id org_id capability now =
    entitlement_found now (get_entitlement s partner_id org_id capability)

capability_found : String → Option CapabilityRecord → Verdict
capability_found api_version none = deny capability_unknown
capability_found api_version (some cap) =
    if not (api_version == cap.min_api_version) || not (api_version == cap.max_api_version)
    then deny capability_version_unsupported
    else allow

unfoldable pub check_capability : Store → String → String → Verdict
unfolding capability_found
check_capability s capability api_version =
    capability_found api_version (get_capability s capability)

binding_found : String → String → Option BindingRecord → Verdict
binding_found org_id capability none = deny binding_unknown
binding_found org_id capability (some b) = elim b.status [
  | BindingStatus.inactive ↦ deny binding_inactive
  | BindingStatus.active ↦
      if not (b.org_id == org_id)
      then deny binding_org_mismatch
      else if not (b.capability == capability)
      then deny binding_capability_mismatch
      else allow
]

unfoldable pub check_binding : Store → String → String → String → Verdict
unfolding binding_found
check_binding s binding_id org_id capability =
    binding_found org_id capability (get_binding s binding_id)
