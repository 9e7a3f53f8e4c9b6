-- ===== src/LawShield/Authorization/Laws.antt =====
-- When `checkDisclosureAuthorization` of law-shield/arma/authorizationGuard.js approves.
use mathlib.Core.Path.{subst}
use arma_partner_api_sandbox.Prelude.{
  ◌≤◌, String, Bool, true, false, not, Option, none, some, ◌≡◌, refl, sym, ap, ◌∙◌, ◌==◌, is_blank,
  Result, ok, guard, ◌>>◌, eq_iff, Bool-cases, inl, inr, if◌then◌else◌, arith, ◌≢◌,
}
use arma_partner_api_sandbox.Prelude.Json.{utf16_length}
use arma_partner_api_sandbox.LawShield.Store.{OrgMapping, CaseMapping}
use arma_partner_api_sandbox.LawShield.Processor.Permitted.{ok-guard}
use arma_partner_api_sandbox.LawShield.Reconciliation.{
  Directory, org_of, belongs_to_org, trim, Store, present, check_human,
}
use arma_partner_api_sandbox.LawShield.Reconciliation.Authorizer.{
  IsAuthorizer, bind-ok, then-ok, present-ok, check_human-ok, enough,
}
use arma_partner_api_sandbox.LawShield.Authorization.{
  Disclosure, Approval, get_org_mapping, get_case_mapping, case_found, check_case, check_reason,
  approval_for, check_disclosure_authorization,
}

-- The incident has an active mapping to the organization that is named.
pub record IsMapped (s : Store) (q : Disclosure) (incident_id : String) : Type 0 where
  pub mapping : CaseMapping
  pub found : get_case_mapping s q.arma_org_id incident_id ≡ some mapping
  pub active : mapping.is_active ≡ true
  pub org : mapping.law_shield_org_id ≡ q.law_shield_org_id

-- There is a reason of at least 10 units without the white space at its ends.
pub record HasReason (given : Option String) : Type 0 where
  pub reason : String
  pub is_given : given ≡ some reason
  pub long : 10 ≤ utf16_length (trim reason)

-- What the disclosure stands on.
pub record IsAuthorized (s : Store) (d : Directory) (q : Disclosure) (user_id : String)
    : Type 0 where
  pub authorizer : IsAuthorizer d user_id q.arma_org_id
  pub mapping : OrgMapping
  pub found : get_org_mapping s q.arma_org_id ≡ some mapping
  pub active : mapping.is_active ≡ true
  pub incident :
      (incident_id : String)
      → q.incident_id ≡ some incident_id
      → incident_id ≢ ""
      → IsMapped s q incident_id
  pub reason : HasReason q.authorization_reason

case_found-ok :
    (s : Store) (q : Disclosure) (i : String)
    → case_found q.law_shield_org_id (get_case_mapping s q.arma_org_id i) ≡ ok tt
    → IsMapped s q i
unfolding case_found
case_found-ok s q i h =
    let (m, found, h1) = bind-ok (present _ (get_case_mapping s q.arma_org_id i)) _ tt h in
    let (active, org) = then-ok (guard m.is_active _) _ tt h1 in
    record {
      mapping = m;
      found = present-ok _ _ m found;
      active = ok-guard _ _ active;
      org = (eq_iff m.law_shield_org_id q.law_shield_org_id).0 (ok-guard _ _ org);
    }

otherwise :
    (b : Bool) (m : Result (Unit {0})) → b ≡ false → (if b then ok tt else m) ≡ ok tt → m ≡ ok tt
otherwise b m f h = ground arith

check_case-ok :
    (s : Store) (q : Disclosure) (o : Option String)
    → check_case s q o ≡ ok tt
    → (i : String) → o ≡ some i
    → i ≢ ""
    → IsMapped s q i
unfolding check_case
check_case-ok s q none h i e n = absurd (cc e)
check_case-ok s q (some j) h i e n =
    let same : j ≡ i = cc e in
    elim (Bool-cases (j == "")) [
      | inl empty ↦ absurd (n (sym same ∙ (eq_iff j "").0 empty))
      | inr full ↦ subst (IsMapped s q) same (case_found-ok s q j (otherwise _ _ full h))
    ]

check_reason-ok : (o : Option String) → check_reason o ≡ ok tt → HasReason o
unfolding check_reason
check_reason-ok o h =
    let (reason, found, h1) = bind-ok (present _ o) _ tt h in
    let (_, long) = then-ok (guard (not (is_blank reason)) _) _ tt h1 in
    record {
      reason = reason;
      is_given = present-ok _ _ reason found;
      long = enough (trim reason) _ (ok-guard _ _ long) refl;
    }

abbrev author : Approval → String
author a = a.authorized_by_user_id

-- An approval names the acting user, who is human, of the organization and has the authorizer's role;
-- the organization has an active mapping, an incident that is named one to the same destination, and there
-- is a reason of at least 10 units.
pub check_disclosure_authorization-IsAuthorized :
    (s : Store) (d : Directory) (actor : Option String) (q : Disclosure) (a : Approval)
    → check_disclosure_authorization s d actor q ≡ ok a
    → (actor ≡ some a.authorized_by_user_id) × IsAuthorized s d q a.authorized_by_user_id
unfolding check_disclosure_authorization approval_for belongs_to_org
check_disclosure_authorization-IsAuthorized s d actor q a h =
    let (id, checked, h1) = bind-ok (check_human d actor _) _ a h in
    let (_, org, h2) = bind-ok (guard (belongs_to_org d id q.arma_org_id) _) _ a h1 in
    let (m, found, h3) = bind-ok (present _ (get_org_mapping s q.arma_org_id)) _ a h2 in
    let (checks, h4) = then-ok (guard m.is_active _ >> _ >> _) _ a h3 in
    let (first, reason) = then-ok (guard m.is_active _ >> _) _ tt checks in
    let (active, incident) = then-ok (guard m.is_active _) _ tt first in
    let made : approval_for id q ≡ a = cc h4 in
    let (user, known, human, role, by_actor) = check_human-ok d actor _ id checked in
    let of_org : (user.org_id == q.arma_org_id) ≡ true =
      sym (ap (λ o. org_of o q.arma_org_id) known) ∙ ok-guard _ _ (org ∙ refl) in
    let authorized : IsAuthorized s d q id = record {
      authorizer = record {
        user = user;
        found = known;
        human = human;
        role = role;
        org = (eq_iff user.org_id q.arma_org_id).0 of_org;
      };
      mapping = m;
      found = present-ok _ _ m found;
      active = ok-guard _ _ active;
      incident = check_case-ok s q _ incident;
      reason = check_reason-ok _ reason;
    } in
    subst (λ b. (actor ≡ some (author b)) × IsAuthorized s d q (author b)) made
      (by_actor, authorized)
