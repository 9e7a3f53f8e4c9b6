-- ===== src/LawShield/Reconciliation/Resolved.antt =====
-- Who may have resolved a reconciliation of law-shield/arma/reconciliation.js.
use mathlib.Core.Path.{subst}
use arma_partner_api_sandbox.Prelude.{
  ℕ, ◌≤◌, String, true, false, Option, none, some, List, [], ◌∷◌, ◌≡◌, ◌⊎◌, inl, inr, refl, sym, ap,
  ◌∙◌, ◌==◌, Result, ok, err, guard, ◌>>◌, eq_iff, Bool-cases, arith,
}
use arma_partner_api_sandbox.Prelude.Map.{Map, get, get-set, get-empty}
use arma_partner_api_sandbox.Prelude.Json.{utf16_length}
use arma_partner_api_sandbox.LawShield.Processor.Permitted.{ok-guard}
use arma_partner_api_sandbox.LawShield.Reconciliation.Authorizer.{
  IsAuthorizer, bind-ok, then-ok, present-ok, check_human-ok, enough,
}
use arma_partner_api_sandbox.LawShield.Reconciliation.{
  Directory, org_of, belongs_to_org, trim, Reconciliation, Store, get_reconciliation, put,
  Discrepancy, opened, is_opened, open_reconciliation, store_resolve, Resolution, text_or, present,
  check_human, check_resolution, resolve_checked, resolve_reconciliation, approval_of,
  reconciliation_reopen_approval,
}

-- The record names such a user of the transfer's organization, and a note of at least 10 units.
pub record IsSettled (d : Directory) (orgs : Map String) (transfer_id : String) (r : Reconciliation)
    : Type 0 where
  pub user_id : String
  pub org_id : String
  pub note : String
  pub resolver : r.authorized_resolver_user_id ≡ some user_id
  pub of_transfer : get transfer_id orgs ≡ some org_id
  pub authorizer : IsAuthorizer d user_id org_id
  pub noted : r.resolution_note ≡ some note
  pub long : 10 ≤ utf16_length note

-- Each record is open or was settled by such a user.
unfoldable pub IsSound : Directory → Store → Type 0
IsSound d s =
    (transfer_id : String) (r : Reconciliation)
    → get transfer_id s.reconciliations ≡ some r
    → (r.resolution_status ≡ "OPEN") ⊎ IsSettled d s.transfer_orgs transfer_id r

-- What the service does with reconciliations.
pub data Op : Type 0 where
  to_open : Discrepancy → ℕ → Op
  to_resolve : Option String → Resolution → ℕ → Op

unfoldable pub run : Directory → List Op → Store → Store
run d [] s = s
run d (to_open x now ∷ ops) s = run d ops (open_reconciliation x now s)
run d (to_resolve actor x now ∷ ops) s = run d ops (resolve_reconciliation d actor x now s).1

check_resolution-ok :
    (s : Store) (d : Directory) (actor : Option String) (x : Resolution)
    (user_id note status : String)
    → check_resolution s d actor x ≡ ok (user_id, note, status)
    → (org_id : String) × (get x.transfer_id s.transfer_orgs ≡ some org_id)
      × IsAuthorizer d user_id org_id
      × (10 ≤ utf16_length note)
unfolding check_resolution belongs_to_org org_of
check_resolution-ok s d actor x user_id note status h =
    let res : String × String × String = (user_id, note, status) in
    let (id, checked, h1) = bind-ok (check_human d actor _) _ res h in
    let (org_id, found, h2) = bind-ok (present _ (get x.transfer_id s.transfer_orgs)) _ res h1 in
    let (checks, h3) = then-ok (guard (belongs_to_org d id org_id) _ >> _ >> _) _ res h2 in
    let (first, long) = then-ok (guard (belongs_to_org d id org_id) _ >> _) _ tt checks in
    let (org, _) = then-ok (guard (belongs_to_org d id org_id) _) _ tt first in
    let same : id ≡ user_id = cc h3 in
    let same_note : trim (text_or "" x.note) ≡ note = cc h3 in
    let (user, known, human, role, _) = check_human-ok d actor _ id checked in
    let of_org : (user.org_id == org_id) ≡ true =
      sym (ap (λ o. org_of o org_id) known) ∙ ok-guard _ _ org in
    (
      org_id,
      present-ok _ _ org_id found,
      record {
        user = user;
        found = ap (λ i. get i d) (sym same) ∙ known;
        human = human;
        role = role;
        org = (eq_iff user.org_id org_id).0 of_org;
      },
      enough _ _ (ok-guard _ _ long) same_note,
    )

-- Writing an open or settled record.
put-IsSound :
    (d : Directory) (k : String) (r : Reconciliation) (s : Store)
    → (r.resolution_status ≡ "OPEN") ⊎ IsSettled d s.transfer_orgs k r
    → IsSound d s
    → IsSound d (put k r s)
unfolding IsSound put
put-IsSound d k r s q v j r' h = elim (Bool-cases (k == j)) [
  | inl same ↦
      let written : r ≡ r' = ground (arith, get-set k j r s.reconciliations) in
      subst (λ x. (x.resolution_status ≡ "OPEN") ⊎ IsSettled d s.transfer_orgs j x) written
        (subst (λ i. (r.resolution_status ≡ "OPEN") ⊎ IsSettled d s.transfer_orgs i r)
          ((eq_iff k j).0 same) q)
  | inr other ↦ v j r' (ground (arith, get-set k j r s.reconciliations))
]

store_resolve-IsSound :
    (d : Directory) (k user_id note status : String) (now : ℕ) (o : Option Reconciliation)
    (s : Store)
    → (org_id : String) × (get k s.transfer_orgs ≡ some org_id)
      × IsAuthorizer d user_id org_id
      × (10 ≤ utf16_length note)
    → IsSound d s
    → IsSound d (store_resolve k user_id note status now o s).1
unfolding store_resolve
store_resolve-IsSound d k user_id note status now none s a v = v
store_resolve-IsSound d k user_id note status now (some r) s (org_id, f, a, l) v =
    elim (Bool-cases (r.resolution_status == "RESOLVED")) [
      | inl done ↦ rw done v
      | inr undone ↦ rw undone (
          put-IsSound d k _ s
            (inr (record {
              user_id = user_id;
              org_id = org_id;
              note = note;
              resolver = refl;
              of_transfer = f;
              authorizer = a;
              noted = refl;
              long = l;
            }))
            v)
    ]

resolve_checked-IsSound :
    (d : Directory) (transfer_id : String) (now : ℕ) (s : Store)
    (c : Result (String × String × String))
    → ((user_id note status : String)
        → c ≡ ok (user_id, note, status)
        → (org_id : String) × (get transfer_id s.transfer_orgs ≡ some org_id)
          × IsAuthorizer d user_id org_id
          × (10 ≤ utf16_length note))
    → IsSound d s
    → IsSound d (resolve_checked transfer_id now c s).1
unfolding resolve_checked
resolve_checked-IsSound d k now s (err e) h v = v
resolve_checked-IsSound d k now s (ok (user_id, note, status)) h v =
    store_resolve-IsSound d k user_id note status now (get_reconciliation s k) s
      (h user_id note status refl) v

open_reconciliation-IsSound :
    (d : Directory) (x : Discrepancy) (now : ℕ) (s : Store)
    → IsSound d s
    → IsSound d (open_reconciliation x now s)
unfolding open_reconciliation opened
open_reconciliation-IsSound d x now s v =
    elim (Bool-cases (is_opened (get_reconciliation s x.transfer_id))) [
      | inl already ↦ rw already v
      | inr absent ↦ rw absent (put-IsSound d x.transfer_id (opened x now) s (inl refl) v)
    ]

run-IsSound : (d : Directory) (ops : List Op) (s : Store) → IsSound d s → IsSound d (run d ops s)
unfolding run resolve_reconciliation
run-IsSound d [] s v = v
run-IsSound d (to_open x now ∷ ops) s v =
    run-IsSound d ops (open_reconciliation x now s) (open_reconciliation-IsSound d x now s v)
run-IsSound d (to_resolve actor x now ∷ ops) s v =
    run-IsSound d ops (resolve_reconciliation d actor x now s).1 (
      resolve_checked-IsSound d x.transfer_id now s (check_resolution s d actor x)
        (check_resolution-ok s d actor x) v)

approval_of-settled :
    (A : Reconciliation → Type 0) (o : Option Reconciliation) (reason : String)
    → ((r : Reconciliation) → o ≡ some r → (r.resolution_status ≡ "OPEN") ⊎ A r)
    → approval_of o ≡ (true, reason)
    → (r : Reconciliation) × (o ≡ some r) × A r
unfolding approval_of
approval_of-settled A none reason v a = absurd (cc a)
approval_of-settled A (some r) reason v a = elim (v r refl) [
  | inl is_open ↦
      let closed : (r.resolution_status == "RESOLVED") ≡ false =
        ap (λ t. t == "RESOLVED") is_open in
      absurd (ground (arith, closed))
  | inr settled ↦ (r, refl, settled)
]

-- Starting without reconciliations, after any openings and attempts to resolve, a transfer may be
-- sent again only if the record kept for it names as its resolver a human user of the transfer's
-- organization (as the store has it at the end) with the authorizer's role, and a note of at least 10 units.
pub may_resend-IsSettled :
    (d : Directory) (ops : List Op) (s : Store) (transfer_id reason : String)
    → s.reconciliations ≡ []
    → reconciliation_reopen_approval (run d ops s) transfer_id ≡ (true, reason)
    → (r : Reconciliation) × (get_reconciliation (run d ops s) transfer_id ≡ some r)
      × IsSettled d (run d ops s).transfer_orgs transfer_id r
unfolding IsSound reconciliation_reopen_approval get_reconciliation
may_resend-IsSettled d ops s k reason h a =
    let v : IsSound d s = λ i r g. absurd (cc (g, ap (get i) h, get-empty i)) in
    approval_of-settled (IsSettled d (run d ops s).transfer_orgs k) _ reason
      (run-IsSound d ops s v k) a
