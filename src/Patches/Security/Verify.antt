-- ===== src/Patches/Security/Verify.antt =====
-- `verifyPartnerAuth` of patches/lib/security.ts.
use arma_partner_api_sandbox.Prelude.{
  ℕ, ◌-◌, String, Bool, true, false, not, ◌&&◌, Option, none, some, ok, ltb, leb, abs_diff,
  is_sha256_hex, if◌then◌else◌,
}
use arma_partner_api_sandbox.Prelude.Json.{str, num, null, Fields, end, field}
use arma_partner_api_sandbox.Patches.Store.{
  Store, PartnerRecord, CredentialRecord, CredentialStatus, NonceRecord, Status,
}
use arma_partner_api_sandbox.Patches.Store.Exec.{Exec, pure}
use arma_partner_api_sandbox.Patches.Store.Reads.{
  get_partner_by_client_id, get_credential, get_nonce_record,
}
use arma_partner_api_sandbox.Patches.Store.Writes.{prune_nonces_before}
use arma_partner_api_sandbox.Patches.Security.{
  max_clock_skew_ms, nonce_validity_window_ms, auth_missing, auth_malformed, partner_unknown,
  partner_suspended, credential_unknown, credential_revoked, credential_expired,
  timestamp_out_of_window, nonce_invalid, nonce_replayed, signature_invalid, secret_unavailable,
  AuthSuccess, AuthResult, accepted, rejected, VerifyAuthInput, parse_authorization, is_timestamp,
  timestamp_ms, is_nonce, canonical_request_string, timing_safe_equal_hex, ◌and_then◌, fail, demand,
  ensure, given,
}

pub record Identity : Type 0 where
  pub client_id : String
  pub key_id : String
  pub partner : PartnerRecord
  pub credential : CredentialRecord

pub record Stamp : Type 0 where
  pub timestamp : String
  pub nonce : String

key_detail : String → Fields
key_detail key_id = field "keyId" (str key_id) end

unfoldable pub is_suspended : Status → Bool
is_suspended Status.suspended = true
is_suspended Status.active = false

-- `CREDENTIAL_EXPIRED` from the end of the grace period on; one without an end does not expire
unfoldable pub check_grace : String → Option ℕ → ℕ → AuthResult (Unit {0})
unfolding key_detail
check_grace key_id none now = accepted tt
check_grace key_id (some until) now =
    ensure (ltb now until) credential_expired
      (field "keyId" (str key_id) (field "graceUntil" (num until) end))

unfoldable pub check_status : String → CredentialStatus → Option ℕ → ℕ → AuthResult (Unit {0})
unfolding check_grace key_detail
check_status key_id CredentialStatus.revoked until now = fail credential_revoked (key_detail key_id)
check_status key_id CredentialStatus.retired until now = fail credential_expired (key_detail key_id)
check_status key_id CredentialStatus.grace until now = check_grace key_id until now
check_status key_id CredentialStatus.active until now = accepted tt

-- the partner and the credential
unfoldable pub identify : Store → VerifyAuthInput → ℕ → AuthResult Identity
unfolding check_status is_suspended key_detail
identify s input now =
    demand (given (input.headers "authorization")) auth_missing end and_then λ authorization.
    demand (parse_authorization authorization) auth_malformed end and_then λ ids.
    demand (get_partner_by_client_id s ids.0) partner_unknown end and_then λ partner.
    ensure (not (is_suspended partner.status)) partner_suspended (field "clientId" (str ids.0) end)
    and_then λ _.
        demand (get_credential s ids.0 ids.1) credential_unknown (key_detail ids.1)
        and_then λ credential.
            check_status ids.1 credential.status credential.retired_at now and_then λ _.
            accepted (record {
              client_id = ids.0;
              key_id = ids.1;
              partner = partner;
              credential = credential;
            })

-- `existing && now - existing.firstSeenAt <= NONCE_VALIDITY_WINDOW_MS`; a difference below 0 is
-- within the window
unfoldable pub check_nonce : Option NonceRecord → ℕ → AuthResult (Unit {0})
check_nonce none now = accepted tt
check_nonce (some r) now =
    if leb (now - r.first_seen_at) nonce_validity_window_ms
    then rejected (record {
      code = nonce_replayed;
      status = 409;
      detail = field "nonce" (str r.nonce) (
          field "firstSeenAt" (num r.first_seen_at) (
            field "firstSeenRequestId"
              (elim r.first_seen_request_id [ some id ↦ str id | none ↦ null ]) end));
    })
    else accepted tt

-- the timestamp and the nonce
unfoldable pub stamped : Store → VerifyAuthInput → String → ℕ → AuthResult Stamp
unfolding check_nonce
stamped s input client_id now =
    demand (given (input.headers "x-patches-timestamp")) timestamp_out_of_window end
    and_then λ timestamp. ensure (is_timestamp timestamp) timestamp_out_of_window end and_then λ _.
        ensure (leb (abs_diff now (timestamp_ms timestamp)) max_clock_skew_ms)
          timestamp_out_of_window (field "skewMs" (num (abs_diff now (timestamp_ms timestamp))) end)
        and_then λ _.
            demand (given (input.headers "x-patches-nonce")) nonce_invalid end and_then λ nonce.
            ensure (is_nonce nonce) nonce_invalid end and_then λ _.
            check_nonce (get_nonce_record s client_id nonce) now and_then λ _.
            accepted (record { timestamp = timestamp; nonce = nonce })

-- The parameters: the digests, the secret store, and the language's `toUpperCase`.
module _ (hmac : String → String → String) (sha256 : String → String)
    (resolve_client_secret : String → String → Option String)
    (to_upper_case : String → String) where
  unfoldable pub expected_signature : VerifyAuthInput → String → Stamp → String
  unfolding canonical_request_string
  expected_signature input secret stamp = hmac secret (
      canonical_request_string (to_upper_case input.method) input.path stamp.timestamp stamp.nonce
        (sha256 input.raw_body))

  -- the secret and the signature
  unfoldable pub signed : VerifyAuthInput → Identity → Stamp → AuthResult AuthSuccess
  unfolding expected_signature timing_safe_equal_hex key_detail
  signed input id stamp =
      demand (resolve_client_secret id.client_id id.key_id) secret_unavailable
        (key_detail id.key_id)
      and_then λ secret.
          demand (given (input.headers "x-patches-signature")) signature_invalid end
          and_then λ provided.
              ensure
                (is_sha256_hex provided
                  && timing_safe_equal_hex (expected_signature input secret stamp) provided)
                signature_invalid end
              and_then λ _. accepted (record {
                client_id = id.client_id;
                key_id = id.key_id;
                partner = id.partner;
                credential = id.credential;
                nonce = stamp.nonce;
              })

  -- Old nonces are pruned once the nonce is new, before the signature is checked.
  unfoldable pub after_stamp :
      VerifyAuthInput → Identity → ℕ → AuthResult Stamp → Exec (AuthResult AuthSuccess)
  unfolding signed prune_nonces_before
  after_stamp input id now (rejected e) s = pure (rejected e) s
  after_stamp input id now (accepted stamp) s =
      (ok (signed input id stamp), (prune_nonces_before (now - nonce_validity_window_ms) s).1)

  unfoldable pub after_identity :
      VerifyAuthInput → ℕ → AuthResult Identity → Exec (AuthResult AuthSuccess)
  unfolding after_stamp
  after_identity input now (rejected e) s = pure (rejected e) s
  after_identity input now (accepted id) s =
      after_stamp input id now (stamped s input id.client_id now) s

  unfoldable pub verify_partner_auth : VerifyAuthInput → ℕ → Exec (AuthResult AuthSuccess)
  unfolding after_identity
  verify_partner_auth input now s = after_identity input now (identify s input now) s
