-- ===== src/LawShield/Reconciliation/Authorizer.antt =====
-- The user that the checks of law-shield/arma/authorizationGuard.js and reconciliation.js let through.

use arma_partner_api_sandbox.Prelude.{
  ◌≤◌, String, true, not, Option, none, some, ◌≡◌, refl, sym, ap, ◌∙◌, ◌==◌, ltb, contains, Result,
  ok, err, guard, ◌>>=◌, ◌>>◌, eq_iff, arith,
}
use arma_partner_api_sandbox.Prelude.Map.{get}
use arma_partner_api_sandbox.Prelude.Json.{utf16_length}
use arma_partner_api_sandbox.LawShield.Processor.Permitted.{ok-guard}
use arma_partner_api_sandbox.LawShield.Reconciliation.{
  User, Directory, authorizer_role, role_of, has_role, present, user_id_of, check_human,
}

-- The user is human, of the organization, and has the authorizer's role.
pub record IsAuthorizer (d : Directory) (user_id org_id : String) : Type 0 where
  pub user : User
  pub found : get user_id d ≡ some user
  pub human : user.actor_type ≡ "HUMAN"
  pub role : contains user.roles authorizer_role ≡ true
  pub org : user.org_id ≡ org_id

pub bind-ok :
    {A B : Type 0} (m : Result A) (f : A → Result B) (b : B)
    → (m >>= f) ≡ ok b
    → (a : A) × (m ≡ ok a) × (f a ≡ ok b)
bind-ok (ok a) f b h = (a, refl, h)
bind-ok (err e) f b h = absurd (cc h)

pub then-ok :
    {B : Type 0} (m : Result (Unit {0})) (n : Result B) (b : B)
    → (m >> n) ≡ ok b
    → (m ≡ ok tt) × (n ≡ ok b)
then-ok (ok u) n b h = (refl, h)
then-ok (err e) n b h = absurd (cc h)

pub present-ok : {A : Type 0} (e : String) (o : Option A) (a : A) → present e o ≡ ok a → o ≡ some a
unfolding present
present-ok e none a h = absurd (cc h)
present-ok e (some b) a h = cc h

user_id_of-ok : (o : Option String) (id : String) → user_id_of o ≡ ok id → o ≡ some id
unfolding user_id_of
user_id_of-ok none id h = absurd (cc h)
user_id_of-ok (some a) id h =
    let (_, same) = then-ok (guard (not (a == "")) _) _ id h in
    let e : a ≡ id = cc same in ap some e

-- What has passed the checks on the user.
pub check_human-ok :
    (d : Directory) (actor : Option String) (e user_id : String)
    → check_human d actor e ≡ ok user_id
    → (user : User) × (get user_id d ≡ some user)
      × (user.actor_type ≡ "HUMAN")
      × (contains user.roles authorizer_role ≡ true)
      × (actor ≡ some user_id)
unfolding check_human has_role role_of
check_human-ok d actor e user_id h =
    let (id, given, h1) = bind-ok (user_id_of actor) _ user_id h in
    let (user, found, h2) = bind-ok (present _ (get id d)) _ user_id h1 in
    let known : get id d ≡ some user = present-ok _ (get id d) user found in
    let (checks, h3) = then-ok (guard (user.actor_type == "HUMAN") e >> _) _ user_id h2 in
    let (human, role) = then-ok (guard (user.actor_type == "HUMAN") e) _ tt checks in
    let same : id ≡ user_id = cc h3 in
    (
      user,
      ap (λ i. get i d) (sym same) ∙ known,
      (eq_iff user.actor_type "HUMAN").0 (ok-guard _ _ human),
      sym (ap (λ o. role_of o authorizer_role) known) ∙ ok-guard _ _ role,
      user_id_of-ok actor id given ∙ ap some same,
    )

pub enough : (a b : String) → not (ltb (utf16_length a) 10) ≡ true → a ≡ b → 10 ≤ utf16_length b
enough a b h e =
    let long : not (ltb (utf16_length b) 10) ≡ true =
      ap (λ t. not (ltb (utf16_length t) 10)) (sym e) ∙ h in
    ground arith
