-- ===== src/Governance/Provenance.antt =====
-- `verifyProvenanceEnvelope` of ai-governance/provenance.ts, on whatever object is presented.
use arma_partner_api_sandbox.Prelude.{
  is_blank, String, Bool, true, false, not, ◌&&◌, ◌||◌, Option, none, some, is_some, List, [], ◌∷◌,
  every, ◌==◌, Result, ok, err, guard, ◌>>◌, leb, if◌then◌else◌, is_sha256_hex,
}
use arma_partner_api_sandbox.Prelude.Json.{
  Json, null, bool, num, str, arr, Items, nil, cons, Fields, end, field, get_field, as_string,
}
use arma_partner_api_sandbox.Governance.Classification.{
  normalize_key, is_ai_identity_marker, check_engine_designation, RegisteredEngine,
}
use arma_partner_api_sandbox.Governance.Audit.{forbidden_as, refuse_as, find}
use arma_partner_api_sandbox.Governance.Store.{GovernanceStore, get_engine}

abbrev provenance_schema_version : String
provenance_schema_version = "ai-governance.provenance.v1"

-- each with its `toUpperCase`
abbrev forbidden_envelope_keys : List (String × String)
forbidden_envelope_keys =
    ("prompt", "PROMPT")
    ∷ ("systemprompt", "SYSTEMPROMPT")
    ∷ ("userprompt", "USERPROMPT")
    ∷ ("apikey", "APIKEY")
    ∷ ("modelkey", "MODELKEY")
    ∷ ("modelprovider", "MODELPROVIDER")
    ∷ ("token", "TOKEN")
    ∷ ("accesstoken", "ACCESSTOKEN")
    ∷ ("credential", "CREDENTIAL")
    ∷ ("credentials", "CREDENTIALS")
    ∷ ("signingkey", "SIGNINGKEY")
    ∷ ("secret", "SECRET")
    ∷ ("secretvalue", "SECRETVALUE")
    ∷ ("chainofthought", "CHAINOFTHOUGHT")
    ∷ ("cot", "COT")
    ∷ ("password", "PASSWORD")
    ∷ ("privatekey", "PRIVATEKEY")
    ∷ ("model", "MODEL")
    ∷ ("modelname", "MODELNAME")
    ∷ ("provider", "PROVIDER")
    ∷ ("reasoning", "REASONING")
    ∷ ("rawreasoning", "RAWREASONING")
    ∷ []

check_keys : Fields → Result (Unit {0})
check_keys end = ok tt
check_keys (field k v fs) = do
  refuse_as "PROVENANCE_FORBIDDEN_FIELD_" (forbidden_as forbidden_envelope_keys (normalize_key k))
  check_keys fs

-- `typeof v === 'string' && v.length`, and so on
abbrev pub is_text : Json → Bool
is_text (str s) = not (s == "")
is_text _ = false

abbrev pub is_num : Json → Bool
is_num (num n) = true
is_num _ = false

abbrev is_bool : Json → Bool
is_bool (bool b) = true
is_bool _ = false

abbrev pub is_arr : Json → Bool
is_arr (arr vs) = true
is_arr _ = false

abbrev pub is_text_or_null : Json → Bool
is_text_or_null (str s) = true
is_text_or_null null = true
is_text_or_null _ = false

abbrev is_true : Json → Bool
is_true (bool b) = b
is_true _ = false

abbrev is_false : Json → Bool
is_false (bool b) = not b
is_false _ = false

-- `e[key] === undefined`; a null that is given is there
unfoldable pub is_absent : String → Fields → Bool
is_absent key end = true
is_absent key (field k v fs) = let rest = is_absent key fs in if k == key then false else rest

-- a number from 0 to 1
abbrev is_confidence : Json → Bool
is_confidence (num n) = leb n 1
is_confidence _ = false

-- the text of a field, where a check has found one
unfoldable pub text_of : String → Fields → String
text_of k e = elim (as_string (get_field k e)) [ some s ↦ s | none ↦ "" ]

abbrev required_strings : List String
required_strings =
    "provenanceId" ∷ "schemaVersion" ∷ "engineId" ∷ "engineVersion" ∷ "taskType" ∷ "outputHash"
    ∷ "policyVersion" ∷ "auditId" ∷ "requestCorrelationId" ∷ "dataClassification"
    ∷ "decisionReasonCode" ∷ "integrityTag" ∷ []

abbrev bound_keys : List String
bound_keys =
    "provenanceId" ∷ "schemaVersion" ∷ "engineId" ∷ "engineVersion" ∷ "taskType" ∷ "designation"
    ∷ "timestamp" ∷ "sourceReferences" ∷ "confidence" ∷ "humanReviewRequired" ∷ "reviewingHumanId"
    ∷ "reviewTimestamp" ∷ "outputHash" ∷ "policyVersion" ∷ "auditId" ∷ "requestCorrelationId"
    ∷ "orgRef" ∷ "dataClassification" ∷ "externalDataPresent" ∷ "protectedActionRequested"
    ∷ "protectedActionAllowed" ∷ "decisionReasonCode" ∷ []

unfoldable pub values_at : List String → Fields → Items
values_at [] e = nil
values_at (k ∷ ks) e = cons (get_field k e) (values_at ks e)

unfoldable pub bound_envelope_values : Fields → Items
unfolding values_at
bound_envelope_values e = values_at bound_keys e

unfoldable pub is_present : Fields → String → Bool
is_present e k = is_text (get_field k e)

check_reviewer : Fields → Result (Unit {0})
unfolding text_of is_absent
check_reviewer e =
    if is_true (get_field "humanReviewRequired" e)
    then guard (not (is_blank (text_of "reviewingHumanId" e))) "PROVENANCE_STRUCTURE_INVALID"
      >> guard (not (is_ai_identity_marker (text_of "reviewingHumanId" e)))
          "PROVENANCE_REVIEWER_MUST_BE_HUMAN"
      >> guard (is_num (get_field "reviewTimestamp" e)) "PROVENANCE_STRUCTURE_INVALID"
    else guard (is_absent "reviewingHumanId" e && is_absent "reviewTimestamp" e)
        "PROVENANCE_REVIEWER_FIELDS_UNEXPECTED"

-- up to the integrity tag: what the envelope has to look like
unfoldable pub check_structure : GovernanceStore → Fields → Result (Unit {0})
unfolding check_keys is_present check_reviewer text_of is_absent
check_structure store e = do
  check_keys e
  guard (every (is_present e) required_strings) "PROVENANCE_STRUCTURE_INVALID"
  guard (text_of "schemaVersion" e == provenance_schema_version) "PROVENANCE_SCHEMA_UNSUPPORTED"
  guard (is_num (get_field "timestamp" e)) "PROVENANCE_STRUCTURE_INVALID"
  guard
      (is_bool (get_field "humanReviewRequired" e)
        && is_bool (get_field "externalDataPresent" e)
        && is_bool (get_field "protectedActionRequested" e))
      "PROVENANCE_STRUCTURE_INVALID"
  guard (is_arr (get_field "sourceReferences" e)) "PROVENANCE_STRUCTURE_INVALID"
  guard (text_of "designation" e == "AI_ADVISORY") "DESIGNATION_NOT_ADVISORY"
  guard (is_false (get_field "protectedActionAllowed" e))
      "PROTECTED_ACTION_NOT_ALLOWED_FOR_ADVISORY"
  guard (is_sha256_hex (text_of "outputHash" e)) "PROVENANCE_OUTPUT_HASH_INVALID"
  guard (is_sha256_hex (text_of "integrityTag" e)) "INTEGRITY_TAG_MISSING"
  guard (is_some (find (text_of "auditId" e) store.audit_log)) "PROVENANCE_AUDIT_NOT_FOUND"
  guard (not (is_absent "orgRef" e) && is_text_or_null (get_field "orgRef" e))
      "PROVENANCE_STRUCTURE_INVALID"
  guard (is_absent "confidence" e || is_confidence (get_field "confidence" e))
      "PROVENANCE_CONFIDENCE_INVALID"
  check_reviewer e

-- the engine's lane, its version and the policy's version
unfoldable pub check_lane :
    Option RegisteredEngine
    → (unknown mismatch stale : String)
    → (designation task_type engine_version policy_version expected : String) → Result (Unit {0})
check_lane none unknown mismatch stale d t v p expected = err unknown
check_lane (some engine) unknown mismatch stale d t v p expected = do
  check_engine_designation engine d t
  guard (v == engine.engine_version) mismatch
  guard (p == expected) stale

module _ (sign : Items → String → String) (sha256 : String → String) where
  -- bytes are compared only where they are given
  check_output : Option String → String → Result (Unit {0})
  check_output none hash = ok tt
  check_output (some bytes) hash = guard (sha256 bytes == hash) "OUTPUT_TAMPERED"

  unfoldable pub verify_provenance_envelope :
      GovernanceStore → Fields → (expected : String) → Option String → Result (Unit {0})
  unfolding check_structure bound_envelope_values check_lane check_output text_of
  verify_provenance_envelope store e expected governed_output = do
    check_structure store e
    guard (sign (bound_envelope_values e) store.integrity_key == text_of "integrityTag" e)
        "METADATA_TAMPERED"
    check_output governed_output (text_of "outputHash" e)
    check_lane (get_engine (text_of "engineId" e) store) "PROVENANCE_ENGINE_UNKNOWN"
        "PROVENANCE_ENGINE_VERSION_MISMATCH" "PROVENANCE_POLICY_VERSION_STALE" "AI_ADVISORY"
        (text_of "taskType" e) (text_of "engineVersion" e) (text_of "policyVersion" e) expected
