-- ===== src/Patches/Policy/Laws.antt =====
-- When the checks of patches/lib/policy.ts let a request through.
use arma_partner_api_sandbox.Prelude.{
  ℕ, ◌≤◌, ◌≡◌, ◌↔◌, String, Option, none, some, arith, eq_iff, refl,
}
use arma_partner_api_sandbox.Patches.Store.{
  Store, Status, OrganizationRecord, EntitlementStatus, EntitlementRecord, CapabilityRecord,
  BindingStatus, BindingRecord,
}
use arma_partner_api_sandbox.Patches.Store.Reads.{
  get_organization, get_entitlement, get_capability, get_binding,
}
use arma_partner_api_sandbox.Patches.Policy.{
  allow, deny, Verdict, ◌then_check◌, authorize_org, check_entitlement, check_capability,
  check_binding, org_found, entitlement_found, capability_found, binding_found,
}

-- The partner owns the organization, which is active.
pub record Owns (s : Store) (partner_id org_id : String) : Type 0 where
  pub org : OrganizationRecord
  pub found : get_organization s org_id ≡ some org
  pub active : org.status ≡ Status.active
  pub owned : org.owning_partner_id ≡ partner_id

-- There is an active entitlement, and the time lies in its license window.
pub record IsEntitled (s : Store) (partner_id org_id capability : String) (now : ℕ) : Type 0 where
  pub ent : EntitlementRecord
  pub found : get_entitlement s partner_id org_id capability ≡ some ent
  pub active : ent.status ≡ EntitlementStatus.active
  pub started : ent.licensed_from ≤ now
  pub running : now ≤ ent.licensed_until

-- The capability exists for this version and no other.
pub record IsOffered (s : Store) (capability api_version : String) : Type 0 where
  pub cap : CapabilityRecord
  pub found : get_capability s capability ≡ some cap
  pub least : cap.min_api_version ≡ api_version
  pub most : cap.max_api_version ≡ api_version

-- There is an active binding of the capability in the organization.
pub record IsBound (s : Store) (binding_id org_id capability : String) : Type 0 where
  pub binding : BindingRecord
  pub found : get_binding s binding_id ≡ some binding
  pub active : binding.status ≡ BindingStatus.active
  pub in_org : binding.org_id ≡ org_id
  pub for_capability : binding.capability ≡ capability

org_found-allow :
    (p : String) (o : Option OrganizationRecord)
    → org_found p o ≡ allow
    → (org : OrganizationRecord) × (o ≡ some org)
      × (org.status ≡ Status.active)
      × (org.owning_partner_id ≡ p)
unfolding org_found
org_found-allow p none h = absurd (cc h)
org_found-allow p (some org) h =
    (org, refl, ground arith, ground (arith, eq_iff org.owning_partner_id p))

entitlement_found-allow :
    (now : ℕ) (o : Option EntitlementRecord)
    → entitlement_found now o ≡ allow
    → (e : EntitlementRecord) × (o ≡ some e)
      × (e.status ≡ EntitlementStatus.active)
      × (e.licensed_from ≤ now)
      × (now ≤ e.licensed_until)
unfolding entitlement_found
entitlement_found-allow now none h = absurd (cc h)
entitlement_found-allow now (some e) h = (e, refl, ground arith, ground arith, ground arith)

capability_found-allow :
    (v : String) (o : Option CapabilityRecord)
    → capability_found v o ≡ allow
    → (c : CapabilityRecord) × (o ≡ some c) × (c.min_api_version ≡ v) × (c.max_api_version ≡ v)
unfolding capability_found
capability_found-allow v none h = absurd (cc h)
capability_found-allow v (some c) h = (
  c,
  refl,
  ground (arith, eq_iff v c.min_api_version, eq_iff v c.max_api_version),
  ground (arith, eq_iff v c.min_api_version, eq_iff v c.max_api_version),
)

binding_found-allow :
    (o c : String) (found : Option BindingRecord)
    → binding_found o c found ≡ allow
    → (b : BindingRecord) × (found ≡ some b)
      × (b.status ≡ BindingStatus.active)
      × (b.org_id ≡ o)
      × (b.capability ≡ c)
unfolding binding_found
binding_found-allow o c none h = absurd (cc h)
binding_found-allow o c (some b) h = (
  b,
  refl,
  ground arith,
  ground (arith, eq_iff b.org_id o),
  ground (arith, eq_iff b.org_id o, eq_iff b.capability c),
)

-- An organization is authorized exactly when it exists, is active and is owned by the partner.
pub authorize_org_iff : (s : Store) (p o : String) → (authorize_org s p o ≡ allow) ↔ Owns s p o
unfolding authorize_org
authorize_org_iff s p o = (
  λ h.
      let (org, found, active, owned) = org_found-allow p (get_organization s o) h in
      record { org = org; found = found; active = active; owned = owned },
  λ w. ground (arith, w.found, w.active, w.owned, eq_iff w.org.owning_partner_id p),
)

-- An entitlement passes exactly when it exists, is active and its license window holds the time.
pub check_entitlement_iff :
    (s : Store) (p o c : String) (now : ℕ)
    → (check_entitlement s p o c now ≡ allow) ↔ IsEntitled s p o c now
unfolding check_entitlement
check_entitlement_iff s p o c now = (
  λ h.
      let (e, found, active, started, running) =
        entitlement_found-allow now (get_entitlement s p o c) h in
      record { ent = e; found = found; active = active; started = started; running = running },
  λ w. ground (arith, w.found, w.active, w.started, w.running),
)

-- A capability passes exactly when it exists for this version and no other.
pub check_capability_iff :
    (s : Store) (c v : String) → (check_capability s c v ≡ allow) ↔ IsOffered s c v
unfolding check_capability
check_capability_iff s c v = (
  λ h.
      let (cap, found, least, most) = capability_found-allow v (get_capability s c) h in
      record { cap = cap; found = found; least = least; most = most },
  λ w. ground (
    arith,
    w.found,
    w.least,
    w.most,
    eq_iff v w.cap.min_api_version,
    eq_iff v w.cap.max_api_version,
  ),
)

-- A binding passes exactly when it exists, is active, and is of the organization and the
-- capability.
pub check_binding_iff :
    (s : Store) (b o c : String) → (check_binding s b o c ≡ allow) ↔ IsBound s b o c
unfolding check_binding
check_binding_iff s b o c = (
  λ h.
      let (r, found, active, in_org, for_capability) =
        binding_found-allow o c (get_binding s b) h in
      record {
        binding = r;
        found = found;
        active = active;
        in_org = in_org;
        for_capability = for_capability;
      },
  λ w. ground (
    arith,
    w.found,
    w.active,
    w.in_org,
    w.for_capability,
    eq_iff w.binding.org_id o,
    eq_iff w.binding.capability c,
  ),
)

pub then_check-allow : (v w : Verdict) → ((v then_check w) ≡ allow) ↔ ((v ≡ allow) × (w ≡ allow))
then_check-allow allow w = (λ h. (refl, h), λ h. h.1)
then_check-allow (deny code) w = (λ h. absurd (cc h), λ h. absurd (cc (h.0)))
