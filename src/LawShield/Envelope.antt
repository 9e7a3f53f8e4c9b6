-- ===== src/LawShield/Envelope.antt =====
-- `validateEnvelope` of law-shield/lawshield/_integrationSecurity.js. What it has checked is read off
-- the JSON value into a record, which is what the processor goes on with.
pub mod Screening
use text.Mathlib.Text.{starts_with}
use arma_partner_api_sandbox.Prelude.{
  ℕ, ◌+◌, ◌-◌, ◌*◌, String, Bool, true, false, ◌&&◌, ◌||◌, not, Option, none, some, List, [], ◌∷◌,
  ◌==◌, ◌<+>◌, ltb, leb, eqb, in_range, codes, contains, is_blank, every, length, Result, ok, err,
  guard, ◌>>=◌, ◌>>◌, if◌then◌else◌,
}
use arma_partner_api_sandbox.Prelude.Json.{
  Json, null, bool, num, str, arr, obj, Fields, end, field, get_field, as_string, utf16_length,
}
use arma_partner_api_sandbox.LawShield.Envelope.Screening.{assert_payload_safe}

-- What the platform gives: SHA-256 in lower-case hexadecimal, JSON both ways, and the text of a value
-- in a template. An object that `parse` returns has no field twice.
pub record Platform : Type 0 where
  pub sha256_hex : String → String
  pub stringify : Json → String
  pub parse : String → Option Json
  pub to_text : Json → String

abbrev pub integration_schema_version : String
integration_schema_version = "arma-lawshield.v1"

abbrev pub allowed_record_types : List String
allowed_record_types =
    "CASE_REFERRAL" ∷ "INCIDENT_METADATA" ∷ "EVIDENCE_MANIFEST" ∷ "EVIDENCE_PACKAGE_REFERENCE"
    ∷ "CHAIN_OF_CUSTODY_UPDATE" ∷ "TRANSFER_STATUS" ∷ "CASE_STATUS_UPDATE" ∷ []

-- `incidentId` and `mapping.lawShieldCaseId` are not checked to be texts.
pub record Envelope : Type 0 where
  pub schema_version : String
  pub transfer_id : String
  pub idempotency_key : String
  pub source_system : String
  pub destination_system : String
  pub arma_org_id : String
  pub law_shield_org_id : String
  pub record_type : String
  pub record_id : String
  pub authorized_by : String
  pub authorization_reason : String
  pub incident_id : Json
  pub law_shield_case_id : Json
  pub created_at : ℕ
  pub sent_at : ℕ
  pub expires_at : ℕ
  pub payload : Json
  pub payload_hash : String

-- `v.name`, which is `undefined` unless `v` is an object
unfoldable pub fields_of : Json → Fields
fields_of (obj fs) = fs
fields_of _ = end

-- `!!v`
unfoldable pub truthy : Json → Bool
truthy null = false
truthy (bool b) = b
truthy (num n) = not (eqb n 0)
truthy (str s) = not (s == "")
truthy _ = true

unfoldable pub is_text : Json → String → Bool
is_text (str s) t = s == t
is_text _ t = false

-- `v && typeof v === 'object'`
unfoldable pub is_object : Json → Bool
is_object (arr vs) = true
is_object (obj fs) = true
is_object _ = false

has_field : String → Fields → Bool
has_field k end = false
has_field k (field j v fs) = j == k || has_field k fs

-- [a-f0-9], in either case
unfoldable pub is_hex_digit : ℕ → Bool
is_hex_digit c = in_range b'a' b'f' c || in_range b'0' b'9' c || in_range b'A' b'F' c

hex_value : ℕ → ℕ
hex_value c =
    if in_range b'a' b'f' c then c - 87 else if in_range b'A' b'F' c then c - 55 else c - 48

-- `Buffer.from(s, 'hex')`: an odd digit at the end is left out
bytes_of : List ℕ → List ℕ
unfolding hex_value
bytes_of [] = []
bytes_of (c ∷ []) = []
bytes_of (c ∷ d ∷ cs) = (16 * hex_value c + hex_value d) ∷ bytes_of cs

same_bytes : List ℕ → List ℕ → Bool
same_bytes [] [] = true
same_bytes (c ∷ cs) (d ∷ ds) = eqb c d && same_bytes cs ds
same_bytes _ _ = false

unfoldable pub timing_safe_equal_hex : String → String → Bool
unfolding bytes_of same_bytes
timing_safe_equal_hex expected actual =
    not (expected == "")
    && not (actual == "")
    && eqb (utf16_length expected) (utf16_length actual)
    && every is_hex_digit (codes expected)
    && every is_hex_digit (codes actual)
    && same_bytes (bytes_of (codes expected)) (bytes_of (codes actual))

non_blank : String → Option String → Result String
non_blank key none = err ("INVALID_FIELD_" <+> key)
non_blank key (some s) = if is_blank s then err ("INVALID_FIELD_" <+> key) else ok s

required : Fields → String → Result String
unfolding non_blank
required fs key = non_blank key (as_string (get_field key fs))

finite : Json → Result ℕ
finite (num n) = ok n
finite _ = err "INVALID_TIMESTAMPS"

unfoldable pub is_ai : String → Json → Bool
is_ai authorized_by mode =
    starts_with authorized_by "AI:"
    || contains ("AI" ∷ "JOY" ∷ "ROSE" ∷ []) authorized_by
    || is_text mode "AI"

-- A value that is no text has another length than a hash, or is no row of hexadecimal digits.
hash_text : Option String → String
hash_text none = ""
hash_text (some s) = s

unfoldable pub validate_envelope : Platform → ℕ → Json → Result Envelope
unfolding required finite has_field hash_text
validate_envelope p clock v =
    let fs = fields_of v in
    do
      schema_version ← required fs "schemaVersion"
      transfer_id ← required fs "transferId"
      idempotency_key ← required fs "idempotencyKey"
      source_system ← required fs "sourceSystem"
      destination_system ← required fs "destinationSystem"
      arma_org_id ← required fs "armaOrgId"
      law_shield_org_id ← required fs "lawShieldOrgId"
      record_type ← required fs "recordType"
      record_id ← required fs "recordId"
      authorized_by ← required fs "authorizedBy"
      authorization_reason ← required fs "authorizationReason"
      guard (schema_version == integration_schema_version) "SCHEMA_VERSION_UNSUPPORTED"
      guard (source_system == "ARMA_360" && destination_system == "LAW_SHIELD")
          "INVALID_SYSTEM_ROUTE"
      guard (contains allowed_record_types record_type) "RECORD_TYPE_NOT_ALLOWED"
      guard (not (is_ai authorized_by (get_field "authorizationMode" fs)))
          "AI_CANNOT_AUTHORIZE_TRANSFER"
      guard (is_object (get_field "mapping" fs)) "MAPPING_REQUIRED"
      let mapping = fields_of (get_field "mapping" fs)
      guard
          (is_text (get_field "armaOrgId" mapping) arma_org_id
            && is_text (get_field "lawShieldOrgId" mapping) law_shield_org_id)
          "ORG_MAPPING_MISMATCH"
      guard
          (not (
            truthy (get_field "incidentId" fs)
            && not (truthy (get_field "lawShieldCaseId" mapping))))
          "CASE_MAPPING_REQUIRED"
      created_at ← finite (get_field "createdAt" fs)
      sent_at ← finite (get_field "sentAt" fs)
      expires_at ← finite (get_field "expiresAt" fs)
      guard (ltb clock expires_at) "TRANSFER_EXPIRED"
      guard (leb created_at sent_at) "INVALID_TIME_ORDER"
      guard (has_field "payload" fs) "PAYLOAD_REQUIRED"
      let payload = get_field "payload" fs
      let payload_hash = hash_text (as_string (get_field "payloadHash" fs))
      guard (timing_safe_equal_hex (p.sha256_hex (p.stringify payload)) payload_hash)
          "PAYLOAD_HASH_MISMATCH"
      assert_payload_safe payload
      ok (record {
        schema_version = schema_version;
        transfer_id = transfer_id;
        idempotency_key = idempotency_key;
        source_system = source_system;
        destination_system = destination_system;
        arma_org_id = arma_org_id;
        law_shield_org_id = law_shield_org_id;
        record_type = record_type;
        record_id = record_id;
        authorized_by = authorized_by;
        authorization_reason = authorization_reason;
        incident_id = get_field "incidentId" fs;
        law_shield_case_id = get_field "lawShieldCaseId" mapping;
        created_at = created_at;
        sent_at = sent_at;
        expires_at = expires_at;
        payload = payload;
        payload_hash = payload_hash;
      })
