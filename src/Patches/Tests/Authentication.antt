-- ===== src/Patches/Tests/Authentication.antt =====
-- Authentication by patches/lib/security.ts at a concrete request.
use arma_partner_api_sandbox.Prelude.{
  ℕ, ◌-◌, String, Bool, true, false, Option, none, some, ◌==◌, ◌≡◌, refl, Result, ok, if◌then◌else◌,
}
use arma_partner_api_sandbox.Patches.Store.{Store}
use arma_partner_api_sandbox.Patches.Store.Writes.{prune_nonces_before}
use arma_partner_api_sandbox.Patches.Security.{
  AuthSuccess, accepted, VerifyAuthInput, nonce_validity_window_ms,
}
use arma_partner_api_sandbox.Patches.Security.Verify.{verify_partner_auth}
use arma_partner_api_sandbox.Patches.Security.Signed.{IsAuthentic, verify_partner_auth-IsAuthentic}
use arma_partner_api_sandbox.Patches.Tests.{partner, credential, store}

-- digests that tell only the keys apart
abbrev hmac : String → String → String
hmac key canonical =
    if key == "secret"
    then "aaaaaaaaaaaaaaaaaaaaaaaaaaaaaaaaaaaaaaaaaaaaaaaaaaaaaaaaaaaaaaaa"
    else "bbbbbbbbbbbbbbbbbbbbbbbbbbbbbbbbbbbbbbbbbbbbbbbbbbbbbbbbbbbbbbbb"

abbrev sha256 : String → String
sha256 bytes = "cccccccccccccccccccccccccccccccccccccccccccccccccccccccccccccccc"

abbrev secrets : String → String → Option String
secrets client_id key_id = some "secret"

abbrev same_case : String → String
same_case method = method

abbrev headers : String → Option String
headers name =
    if name == "authorization"
    then some "PATCHES-Partner client:key"
    else if name == "x-patches-timestamp"
    then some "1000"
    else if name == "x-patches-nonce"
    then some "nonce-nonce-nonce-nonce"
    else some "aaaaaaaaaaaaaaaaaaaaaaaaaaaaaaaaaaaaaaaaaaaaaaaaaaaaaaaaaaaaaaaa"

abbrev input : VerifyAuthInput
input = record {
  method = "POST";
  path = "/api/partner/v1/activations";
  headers = headers;
  raw_body = "{}";
}

abbrev principal : AuthSuccess
principal = record {
  client_id = "client";
  key_id = "key";
  partner = partner;
  credential = credential;
  nonce = "nonce-nonce-nonce-nonce";
}

verify_partner_auth-IsAuthentic_example :
    IsAuthentic hmac sha256 secrets same_case store input 1200 principal
    × ((verify_partner_auth hmac sha256 secrets same_case input 1200 store).1
        ≡ (prune_nonces_before (1200 - nonce_validity_window_ms) store).1)
unfolding verify_partner_auth arma_partner_api_sandbox.Patches.Security.Verify.identify
    arma_partner_api_sandbox.Patches.Security.parse_authorization
    arma_partner_api_sandbox.Prelude.matches_class arma_partner_api_sandbox.Prelude.is_token_char
    arma_partner_api_sandbox.Patches.Store.Reads.get_partner_by_client_id
    arma_partner_api_sandbox.Prelude.Map.get
    arma_partner_api_sandbox.Patches.Store.Reads.get_credential
    arma_partner_api_sandbox.Patches.Store.Reads.credential_key
    arma_partner_api_sandbox.Prelude.joined arma_partner_api_sandbox.Patches.Security.Verify.stamped
    arma_partner_api_sandbox.Patches.Security.is_timestamp
    arma_partner_api_sandbox.Patches.Security.timestamp_ms
    arma_partner_api_sandbox.Patches.Security.is_nonce
    arma_partner_api_sandbox.Patches.Store.Reads.get_nonce_record
    arma_partner_api_sandbox.Prelude.is_sha256_hex
    arma_partner_api_sandbox.Prelude.Json.utf16_length
    arma_partner_api_sandbox.Patches.Security.Verify.after_identity
    arma_partner_api_sandbox.Patches.Security.Verify.after_stamp
    arma_partner_api_sandbox.Patches.Security.Verify.check_grace
    arma_partner_api_sandbox.Patches.Security.Verify.check_nonce
    arma_partner_api_sandbox.Patches.Security.Verify.check_status
    arma_partner_api_sandbox.Patches.Security.Verify.expected_signature
    arma_partner_api_sandbox.Patches.Security.Verify.is_suspended
    arma_partner_api_sandbox.Patches.Security.Verify.signed
    arma_partner_api_sandbox.Patches.Security.canonical_request_string
    arma_partner_api_sandbox.Patches.Security.timing_safe_equal_hex
    arma_partner_api_sandbox.Patches.Store.Reads.nonce_key prune_nonces_before
    arma_partner_api_sandbox.Prelude.Map.retain arma_partner_api_sandbox.Prelude.is_alnum
    arma_partner_api_sandbox.Prelude.is_hex
verify_partner_auth-IsAuthentic_example =
    verify_partner_auth-IsAuthentic hmac sha256 secrets same_case input 1200 store principal refl
