-- ===== src/Patches/Security.antt =====
-- Partner authentication and the life of credentials: patches/lib/security.ts.
pub mod Verify
pub mod Parsing
pub mod Laws
pub mod Signed
pub mod Rotation
use arma_partner_api_sandbox.Prelude.{
  ℕ, ◌+◌, ◌-◌, ◌*◌, String, Bool, true, false, not, ◌&&◌, ◌||◌, Option, none, some, List, [], ◌∷◌,
  every, ◌==◌, ◌<+>◌, Result, ok, err, eqb, ltb, leb, in_range, abs_diff, codes, is_token_char,
  matches_class, is_sha256_hex, if◌then◌else◌,
}
use arma_partner_api_sandbox.Prelude.Json.{Json, str, num, Fields, end, field, utf16_length}
use Prim.Native.Char.{code}
use arma_partner_api_sandbox.Patches.Store.{
  Store, PartnerRecord, CredentialRecord, CredentialStatus, NonceRecord, Status,
}
use arma_partner_api_sandbox.Patches.Store.Exec.{Exec, ◌>>=◌, ◌>>◌, pure, gets}
use arma_partner_api_sandbox.Patches.Store.Reads.{
  get_partner_by_client_id, get_credential, get_nonce_record, active_credential_for,
}
use arma_partner_api_sandbox.Patches.Store.Writes.{prune_nonces_before, put_credential}
use arma_partner_api_sandbox.Patches.Store.Transactions.{run_transaction}

abbrev pub max_clock_skew_ms : ℕ
max_clock_skew_ms = 5 * 60 * 1000

abbrev pub nonce_validity_window_ms : ℕ
nonce_validity_window_ms = 2 * max_clock_skew_ms

pub data AuthFailureCode : Type 0 where
  auth_missing auth_malformed partner_unknown partner_suspended : AuthFailureCode
  credential_unknown credential_revoked credential_expired : AuthFailureCode
  timestamp_out_of_window nonce_invalid nonce_replayed : AuthFailureCode
  signature_invalid secret_unavailable : AuthFailureCode

pub record AuthFailure : Type 0 where
  pub code : AuthFailureCode
  pub status : ℕ
  pub detail : Fields

pub record AuthSuccess : Type 0 where
  pub client_id : String
  pub key_id : String
  pub partner : PartnerRecord
  pub credential : CredentialRecord
  pub nonce : String

pub data AuthResult (A : Type 0) : Type 0 where
  accepted : A → AuthResult A
  rejected : AuthFailure → AuthResult A

-- `headers` is the first value of a header, by its name in lower case.
pub record VerifyAuthInput : Type 0 where
  pub method : String
  pub path : String
  pub headers : String → Option String
  pub raw_body : String

-- `/^PATCHES-Partner ([A-Za-z0-9_-]{1,128}):([A-Za-z0-9_-]{1,128})$/`
unfoldable pub stripped : String → String → Option String
stripped String.[] s = some s
stripped (String.◌∷◌ c p) String.[] = none
stripped (String.◌∷◌ c p) (String.◌∷◌ d s) = if eqb (code c) (code d) then stripped p s else none

unfoldable pub before : String → Option (String × String) → Option (String × String)
before c none = none
before c (some (a, b)) = some (c <+> a, b)

-- at the first colon, which neither class has
unfoldable pub split_colon : String → Option (String × String)
unfolding before
split_colon String.[] = none
split_colon (String.◌∷◌ c s) =
    let rest = split_colon s in
    if eqb (code c) b':' then some ("", s) else before (String.◌∷◌ c "") rest

abbrev pub is_part : String → Bool
is_part = matches_class is_token_char 1 128

unfoldable pub both_parts : Option (String × String) → Option (String × String)
both_parts none = none
both_parts (some (a, b)) = if is_part a && is_part b then some (a, b) else none

unfoldable pub parse_authorization : String → Option (String × String)
unfolding stripped split_colon both_parts
parse_authorization text = elim (stripped "PATCHES-Partner " text) [
  | none ↦ none
  | some rest ↦ both_parts (split_colon rest)
]

abbrev is_digit : ℕ → Bool
is_digit c = in_range b'0' b'9' c

-- /^\d{1,16}$/
unfoldable pub is_timestamp : String → Bool
is_timestamp = matches_class is_digit 1 16

number_from : ℕ → List ℕ → ℕ
number_from n [] = n
number_from n (c ∷ cs) = number_from (10 * n + (c - b'0')) cs

-- `Number(timestamp)`
unfoldable pub timestamp_ms : String → ℕ
unfolding number_from
timestamp_ms s = number_from 0 (codes s)

-- /^[A-Za-z0-9_-]{20,128}$/
unfoldable pub is_nonce : String → Bool
is_nonce = matches_class is_token_char 20 128

unfoldable pub canonical_request_string : (method path timestamp nonce body_hash : String) → String
canonical_request_string method path timestamp nonce body_hash =
    method <+> "\n" <+> path <+> "\n" <+> timestamp <+> "\n" <+> nonce <+> "\n" <+> body_hash

-- Buffers of one length are compared; a Buffer holds the UTF-8 bytes.
unfoldable pub timing_safe_equal_hex : String → String → Bool
timing_safe_equal_hex a b = eqb (utf16_length a) (utf16_length b) && a == b

infixl 5 ◌and_then◌
abbrev pub ◌and_then◌ : {A B : Type 0} → AuthResult A → (A → AuthResult B) → AuthResult B
accepted a and_then f = f a
rejected e and_then f = rejected e

abbrev pub fail : {A : Type 0} → AuthFailureCode → Fields → AuthResult A
fail c d = rejected (record { code = c; status = 401; detail = d })

abbrev pub demand : {A : Type 0} → Option A → AuthFailureCode → Fields → AuthResult A
demand none c d = fail c d
demand (some a) c d = accepted a

abbrev pub ensure : Bool → AuthFailureCode → Fields → AuthResult (Unit {0})
ensure true c d = accepted tt
ensure false c d = fail c d

-- `!h(name)` also takes an empty header for a missing one
abbrev pub given : Option String → Option String
given none = none
given (some s) = if s == "" then none else some s
