-- ===== src/Patches/Security/Signed.antt =====
-- Authentication as a whole: what `verifyPartnerAuth` of patches/lib/security.ts accepts.

use arma_partner_api_sandbox.Prelude.{
  ℕ, ◌-◌, String, Bool, true, false, ◌&&◌, Option, some, Result, ok, err, ◌≡◌, refl, sym, ap, ◌∙◌,
  is_sha256_hex, ◌<+>◌, eq_iff,
}
use arma_partner_api_sandbox.Patches.Store.{Store}
use arma_partner_api_sandbox.Patches.Store.Writes.{prune_nonces_before}
use arma_partner_api_sandbox.Patches.Security.{
  nonce_validity_window_ms, AuthSuccess, AuthResult, accepted, rejected, VerifyAuthInput,
  timing_safe_equal_hex, canonical_request_string, given,
}
use arma_partner_api_sandbox.Patches.Security.Verify.{
  Identity, Stamp, identify, stamped, expected_signature, signed, after_stamp, after_identity,
  verify_partner_auth,
}
use arma_partner_api_sandbox.Patches.Security.Parsing.{given-some}
use arma_partner_api_sandbox.Patches.Security.Laws.{
  ensure-accepted, demand-accepted, accepted_of, IsIdentified, identify-IsIdentified, IsFresh,
  stamped-IsFresh,
}

second : (a b : Bool) → a && b ≡ true → b ≡ true
second true b h = h
second false b h = absurd (cc h)

result_of : {A : Type 0} → A → Result A → A
result_of d (ok a) = a
result_of d (err e) = d

module _ (hmac : String → String → String) (sha256 : String → String)
    (resolve_client_secret : String → String → Option String)
    (to_upper_case : String → String) where
  -- The signature header is the one expected under the secret of the credential.
  pub record IsSigned (input : VerifyAuthInput) (id : Identity) (stamp : Stamp) : Type 0 where
    pub secret : String
    pub of_secret : resolve_client_secret id.client_id id.key_id ≡ some secret
    pub of_header :
        input.headers "x-patches-signature"
        ≡ some (
            hmac secret (
              to_upper_case input.method
              <+> "\n"
              <+> input.path
              <+> "\n"
              <+> stamp.timestamp
              <+> "\n"
              <+> stamp.nonce
              <+> "\n"
              <+> sha256 input.raw_body))

  signed-IsSigned :
      (input : VerifyAuthInput) (id : Identity) (stamp : Stamp) (a : AuthSuccess)
      → signed hmac sha256 resolve_client_secret to_upper_case input id stamp ≡ accepted a
      → IsSigned input id stamp
        × (a ≡ record {
          client_id = id.client_id;
          key_id = id.key_id;
          partner = id.partner;
          credential = id.credential;
          nonce = stamp.nonce;
        })
  unfolding signed timing_safe_equal_hex accepted_of expected_signature canonical_request_string
  signed-IsSigned input id stamp a h =
      let secret = demand-accepted (resolve_client_secret id.client_id id.key_id) _ _ _ a h in
      let header = demand-accepted (given (input.headers "x-patches-signature")) _ _ _ a secret.2 in
      let expected =
        expected_signature hmac sha256 resolve_client_secret to_upper_case input secret.0 stamp in
      let same =
        ensure-accepted (is_sha256_hex header.0 && timing_safe_equal_hex expected header.0) _ _ _ a
          header.2 in
      (
        record {
          secret = secret.0;
          of_secret = secret.1;
          of_header =
              given-some (input.headers "x-patches-signature") header.0 header.1
              ∙ ap some (sym ((eq_iff expected header.0).0 (second _ _ (second _ _ same.0))));
        },
        sym (ap (accepted_of a) same.1),
      )

  -- What an accepted request has shown, against the store before it was pruned.
  pub record IsAuthentic (s : Store) (input : VerifyAuthInput) (now : ℕ) (a : AuthSuccess)
      : Type 0 where
    pub identity : Identity
    pub stamp : Stamp
    pub is_identified : IsIdentified s input now identity
    pub is_fresh : IsFresh s input identity.client_id now stamp
    pub is_signed : IsSigned input identity stamp
    pub is_shown : a ≡ record {
      client_id = identity.client_id;
      key_id = identity.key_id;
      partner = identity.partner;
      credential = identity.credential;
      nonce = stamp.nonce;
    }

  after_stamp-IsAuthentic :
      (input : VerifyAuthInput) (id : Identity) (now : ℕ) (r : AuthResult Stamp) (s : Store)
      (a : AuthSuccess)
      → IsIdentified s input now id
      → stamped s input id.client_id now ≡ r
      → (after_stamp hmac sha256 resolve_client_secret to_upper_case input id now r s).0
        ≡ ok (accepted a)
      → IsAuthentic s input now a
        × ((after_stamp hmac sha256 resolve_client_secret to_upper_case input id now r s).1
            ≡ (prune_nonces_before (now - nonce_validity_window_ms) s).1)
  unfolding after_stamp result_of
  after_stamp-IsAuthentic input id now (rejected e) s a known fresh h = absurd (cc h)
  after_stamp-IsAuthentic input id now (accepted stamp) s a known fresh h =
      let (sig, shown) = signed-IsSigned input id stamp a (ap (result_of (accepted a)) h) in
      (
        record {
          identity = id;
          stamp = stamp;
          is_identified = known;
          is_fresh = stamped-IsFresh s input id.client_id now stamp fresh;
          is_signed = sig;
          is_shown = shown;
        },
        refl,
      )

  after_identity-IsAuthentic :
      (input : VerifyAuthInput) (now : ℕ) (r : AuthResult Identity) (s : Store) (a : AuthSuccess)
      → identify s input now ≡ r
      → (after_identity hmac sha256 resolve_client_secret to_upper_case input now r s).0
        ≡ ok (accepted a)
      → IsAuthentic s input now a
        × ((after_identity hmac sha256 resolve_client_secret to_upper_case input now r s).1
            ≡ (prune_nonces_before (now - nonce_validity_window_ms) s).1)
  unfolding after_identity
  after_identity-IsAuthentic input now (rejected e) s a known h = absurd (cc h)
  after_identity-IsAuthentic input now (accepted id) s a known h =
      after_stamp-IsAuthentic input id now (stamped s input id.client_id now) s a
        (identify-IsIdentified s input now id known) refl h

  -- A request is accepted only if its Authorization header is the scheme with the ids of a stored
  -- partner that is not suspended and of a stored credential of it that is active or in its grace
  -- period; its timestamp header is within five minutes of the clock; its nonce header is well formed
  -- and was not used by the partner in the last ten minutes; and its signature header is the digest,
  -- under the credential's secret, of method, path, timestamp, nonce and hash of the body. The answer
  -- shows these ids, records and nonce, and the store differs only by the pruning of old nonces.
  pub verify_partner_auth-IsAuthentic :
      (input : VerifyAuthInput) (now : ℕ) (s : Store) (a : AuthSuccess)
      → (verify_partner_auth hmac sha256 resolve_client_secret to_upper_case input now s).0
        ≡ ok (accepted a)
      → IsAuthentic s input now a
        × ((verify_partner_auth hmac sha256 resolve_client_secret to_upper_case input now s).1
            ≡ (prune_nonces_before (now - nonce_validity_window_ms) s).1)
  unfolding verify_partner_auth
  verify_partner_auth-IsAuthentic input now s a h =
      after_identity-IsAuthentic input now (identify s input now) s a refl h
