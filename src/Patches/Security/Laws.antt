-- ===== src/Patches/Security/Laws.antt =====
-- What an authenticated request has shown (patches/lib/security.ts).
use arma_partner_api_sandbox.Prelude.{
  ℕ, ◌≤◌, ◌<◌, ◌-◌, String, Bool, true, false, not, Option, none, some, ◌≡◌, ◌⊎◌, inl, inr, refl,
  ap, ltb, leb, abs_diff, ◌<+>◌, ◌∙◌, arith, Bool-cases, leb→le,
}
use mathlib.Core.Path.{subst}
use arma_partner_api_sandbox.Patches.Security.Parsing.{given-some, parse_authorization-some}
use arma_partner_api_sandbox.Prelude.Json.{Fields}
use arma_partner_api_sandbox.Patches.Store.{Store, CredentialRecord, CredentialStatus, NonceRecord}
use arma_partner_api_sandbox.Patches.Store.Reads.{
  get_partner_by_client_id, get_credential, get_nonce_record,
}
use arma_partner_api_sandbox.Patches.Security.{
  max_clock_skew_ms, nonce_validity_window_ms, AuthFailureCode, AuthResult, accepted, rejected,
  VerifyAuthInput, is_part, parse_authorization, is_timestamp, timestamp_ms, is_nonce, ◌and_then◌,
  demand, ensure, given,
}
use arma_partner_api_sandbox.Patches.Security.Verify.{
  Identity, Stamp, is_suspended, check_grace, check_status, identify, check_nonce, stamped,
}

pub ensure-accepted :
    {B : Type 0} (b : Bool) (c : AuthFailureCode) (d : Fields) (k : Unit {0} → AuthResult B) (r : B)
    → (ensure b c d and_then k) ≡ accepted r
    → (b ≡ true) × (k tt ≡ accepted r)
ensure-accepted true c d k r h = (refl, h)
ensure-accepted false c d k r h = absurd (cc h)

pub demand-accepted :
    {A B : Type 0} (o : Option A) (c : AuthFailureCode) (d : Fields) (k : A → AuthResult B) (r : B)
    → (demand o c d and_then k) ≡ accepted r
    → (a : A) × (o ≡ some a) × (k a ≡ accepted r)
demand-accepted none c d k r h = absurd (cc h)
demand-accepted (some a) c d k r h = (a, refl, h)

then-accepted :
    {A B : Type 0} (m : AuthResult A) (k : A → AuthResult B) (r : B)
    → (m and_then k) ≡ accepted r
    → (a : A) × (m ≡ accepted a) × (k a ≡ accepted r)
then-accepted (accepted a) k r h = (a, refl, h)
then-accepted (rejected e) k r h = absurd (cc h)

unfoldable pub accepted_of : {A : Type 0} → A → AuthResult A → A
accepted_of d (accepted a) = a
accepted_of d (rejected e) = d

-- In force: active, or in its grace period.
unfoldable pub IsInForce : CredentialRecord → ℕ → Type 0
IsInForce c now =
    (c.status ≡ CredentialStatus.active)
    ⊎ ((c.status ≡ CredentialStatus.grace)
        × ((c.retired_at ≡ none) ⊎ ((t : ℕ) × (c.retired_at ≡ some t) × (now < t))))

check_grace-accepted :
    (key_id : String) (o : Option ℕ) (now : ℕ) (u : Unit {0})
    → check_grace key_id o now ≡ accepted u
    → (o ≡ none) ⊎ ((t : ℕ) × (o ≡ some t) × (now < t))
unfolding check_grace
check_grace-accepted key_id none now u h = inl refl
check_grace-accepted key_id (some t) now u h = elim (Bool-cases (ltb now t)) [
  | inl e ↦ inr (t, refl, ground arith)
  | inr e ↦ absurd (cc (rw e at h))
]

check_status-accepted :
    (key_id : String) (st : CredentialStatus) (o : Option ℕ) (now : ℕ) (u : Unit {0})
    → check_status key_id st o now ≡ accepted u
    → (st ≡ CredentialStatus.active)
      ⊎ ((st ≡ CredentialStatus.grace) × ((o ≡ none) ⊎ ((t : ℕ) × (o ≡ some t) × (now < t))))
unfolding check_status
check_status-accepted key_id CredentialStatus.active o now u h = inl refl
check_status-accepted key_id CredentialStatus.grace o now u h =
    inr (refl, check_grace-accepted key_id o now u h)
check_status-accepted key_id CredentialStatus.retired o now u h = absurd (cc h)
check_status-accepted key_id CredentialStatus.revoked o now u h = absurd (cc h)

-- The partner and the credential that the Authorization header names, both in the store and in force.
pub record IsIdentified (s : Store) (input : VerifyAuthInput) (now : ℕ) (id : Identity)
    : Type 0 where
  pub of_header :
      input.headers "authorization"
      ≡ some ("PATCHES-Partner " <+> (id.client_id <+> (":" <+> id.key_id)))
  pub client_formed : is_part id.client_id ≡ true
  pub key_formed : is_part id.key_id ≡ true
  pub of_partner : get_partner_by_client_id s id.client_id ≡ some id.partner
  pub is_serving : is_suspended id.partner.status ≡ false
  pub of_credential : get_credential s id.client_id id.key_id ≡ some id.credential
  pub in_force : IsInForce id.credential now

not-false : (b : Bool) → not b ≡ true → b ≡ false
not-false true h = absurd (cc h)
not-false false h = refl

pub identify-IsIdentified :
    (s : Store) (input : VerifyAuthInput) (now : ℕ) (id : Identity)
    → identify s input now ≡ accepted id
    → IsIdentified s input now id
unfolding identify IsInForce accepted_of
identify-IsIdentified s input now id h =
    let a = demand-accepted (given (input.headers "authorization")) _ _ _ id h in
    let b = demand-accepted (parse_authorization a.0) _ _ _ id a.2 in
    let c = demand-accepted (get_partner_by_client_id s b.0.0) _ _ _ id b.2 in
    let d = ensure-accepted (not (is_suspended c.0.status)) _ _ _ id c.2 in
    let e = demand-accepted (get_credential s b.0.0 b.0.1) _ _ _ id d.1 in
    let f = then-accepted (check_status b.0.1 e.0.status e.0.retired_at now) _ id e.2 in
    let (text, client, key) = parse_authorization-some a.0 b.0.0 b.0.1 b.1 in
    subst (IsIdentified s input now) (ap (accepted_of id) f.2) (record {
      of_header = given-some (input.headers "authorization") a.0 a.1 ∙ ap some text;
      client_formed = client;
      key_formed = key;
      of_partner = c.1;
      is_serving = not-false _ d.0;
      of_credential = e.1;
      in_force = check_status-accepted b.0.1 e.0.status e.0.retired_at now f.0 f.1;
    })

-- The timestamp and the nonce of the headers: a clock reading close to the store's, and a new nonce.
pub record IsFresh (s : Store) (input : VerifyAuthInput) (client_id : String) (now : ℕ) (st : Stamp)
    : Type 0 where
  pub of_timestamp : input.headers "x-patches-timestamp" ≡ some st.timestamp
  pub is_clock : is_timestamp st.timestamp ≡ true
  pub of_nonce : input.headers "x-patches-nonce" ≡ some st.nonce
  pub is_near : abs_diff now (timestamp_ms st.timestamp) ≤ max_clock_skew_ms
  pub is_formed : is_nonce st.nonce ≡ true
  pub is_new :
      (get_nonce_record s client_id st.nonce ≡ none)
      ⊎ ((r : NonceRecord) × (get_nonce_record s client_id st.nonce ≡ some r)
          × (nonce_validity_window_ms < now - r.first_seen_at))

check_nonce-accepted :
    (o : Option NonceRecord) (now : ℕ) (u : Unit {0})
    → check_nonce o now ≡ accepted u
    → (o ≡ none)
      ⊎ ((r : NonceRecord) × (o ≡ some r) × (nonce_validity_window_ms < now - r.first_seen_at))
unfolding check_nonce
check_nonce-accepted none now u h = inl refl
check_nonce-accepted (some r) now u h =
    elim (Bool-cases (leb (now - r.first_seen_at) nonce_validity_window_ms)) [
      | inl e ↦ absurd (cc (rw e at h))
      | inr e ↦ inr (r, refl, ground arith)
    ]

pub stamped-IsFresh :
    (s : Store) (input : VerifyAuthInput) (client_id : String) (now : ℕ) (st : Stamp)
    → stamped s input client_id now ≡ accepted st
    → IsFresh s input client_id now st
unfolding stamped accepted_of
stamped-IsFresh s input client_id now st h =
    let a = demand-accepted (given (input.headers "x-patches-timestamp")) _ _ _ st h in
    let b = ensure-accepted (is_timestamp a.0) _ _ _ st a.2 in
    let c =
      ensure-accepted (leb (abs_diff now (timestamp_ms a.0)) max_clock_skew_ms) _ _ _ st b.1 in
    let d = demand-accepted (given (input.headers "x-patches-nonce")) _ _ _ st c.1 in
    let e = ensure-accepted (is_nonce d.0) _ _ _ st d.2 in
    let f = then-accepted (check_nonce (get_nonce_record s client_id d.0) now) _ st e.1 in
    subst (IsFresh s input client_id now) (ap (accepted_of st) f.2) (record {
      of_timestamp = given-some (input.headers "x-patches-timestamp") a.0 a.1;
      is_clock = b.0;
      of_nonce = given-some (input.headers "x-patches-nonce") d.0 d.1;
      is_near = leb→le (abs_diff now (timestamp_ms a.0)) max_clock_skew_ms c.0;
      is_formed = e.0;
      is_new = check_nonce-accepted (get_nonce_record s client_id d.0) now f.0 f.1;
    })
