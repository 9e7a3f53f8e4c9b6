-- ===== src/Governance/Deterministic.antt =====
-- `verifyDeterministicResultEnvelope` of ai-governance/deterministicRules.ts, on whatever object is
-- presented.
use arma_partner_api_sandbox.Prelude.{
  ℕ, String, Bool, not, ◌&&◌, Option, none, some, is_some, List, [], ◌∷◌, every, ◌==◌, Result, err,
  guard, ◌>>◌, in_range, eqb, ◌||◌, if◌then◌else◌, is_sha256_hex, matches_head,
}
use arma_partner_api_sandbox.Prelude.Json.{obj, Items, cons, Fields, get_field}
use arma_partner_api_sandbox.Governance.Audit.{find}
use arma_partner_api_sandbox.Governance.Store.{GovernanceStore, get_engine}
use arma_partner_api_sandbox.Governance.Provenance.{
  is_num, is_arr, is_absent, is_text_or_null, text_of, values_at, is_present, check_lane,
}

abbrev deterministic_schema_version : String
deterministic_schema_version = "ai-governance.deterministic.v1"

abbrev pub is_upper : ℕ → Bool
is_upper c = in_range b'A' b'Z' c

abbrev pub is_upper_id_char : ℕ → Bool
is_upper_id_char c = is_upper c || in_range b'0' b'9' c || eqb c b'_'

-- /^[A-Z][A-Z0-9_]{2,63}$/
unfoldable pub is_constant : String → Bool
is_constant = matches_head is_upper is_upper_id_char 2 63

-- `e.result`, where it is an object
unfoldable pub result_of : Fields → Option Fields
result_of e = elim (get_field "result" e) [ obj fs ↦ some fs | _ ↦ none ]

unfoldable pub ruling_of : Fields → String
unfolding result_of text_of
ruling_of e = elim (result_of e) [ some res ↦ text_of "ruling" res | none ↦ "" ]

abbrev required_strings : List String
required_strings =
    "engineId" ∷ "engineVersion" ∷ "ruleVersion" ∷ "taskType" ∷ "ruling" ∷ "decisionReasonCode"
    ∷ "policyVersion" ∷ "auditId" ∷ []

abbrev bound_keys : List String
bound_keys =
    "engineId" ∷ "engineVersion" ∷ "ruleVersion" ∷ "taskType" ∷ "designation" ∷ "timestamp"
    ∷ "inputReferences" ∷ "ruling" ∷ "decisionReasonCode" ∷ "policyVersion" ∷ "auditId" ∷ "orgRef"
    ∷ []

bound_result_values : Fields → Fields → Items
bound_result_values e res =
    cons (get_field "resultId" e) (cons (get_field "schemaVersion" e) (values_at bound_keys res))

check_result : GovernanceStore → Fields → Fields → Result (Unit {0})
unfolding is_present text_of is_constant is_absent
check_result store e res = do
  guard (every (is_present res) required_strings) "DETERMINISTIC_STRUCTURE_INVALID"
  guard (text_of "designation" res == "DETERMINISTIC_RULE") (
      if text_of "designation" res == "AI_ADVISORY"
      then "DETERMINISTIC_MISLABELED_AS_AI"
      else "DETERMINISTIC_DESIGNATION_INVALID")
  guard (is_arr (get_field "inputReferences" res)) "DETERMINISTIC_STRUCTURE_INVALID"
  guard (is_num (get_field "timestamp" res)) "DETERMINISTIC_STRUCTURE_INVALID"
  guard (is_constant (text_of "ruling" res)) "DETERMINISTIC_RULING_INVALID"
  guard (not (is_absent "orgRef" res) && is_text_or_null (get_field "orgRef" res))
      "DETERMINISTIC_STRUCTURE_INVALID"
  guard (text_of "schemaVersion" e == deterministic_schema_version)
      "DETERMINISTIC_SCHEMA_UNSUPPORTED"
  guard (is_sha256_hex (text_of "integrityTag" e)) "INTEGRITY_TAG_MISSING"
  guard (is_some (find (text_of "auditId" res) store.audit_log)) "DETERMINISTIC_AUDIT_NOT_FOUND"

module _ (sign : Items → String → String) where
  verify_result : GovernanceStore → Fields → (expected : String) → Option Fields → Result (Unit {0})
  unfolding check_result bound_result_values check_lane text_of
  verify_result store e expected none = err "DETERMINISTIC_STRUCTURE_INVALID"
  verify_result store e expected (some res) = do
    check_result store e res
    guard (sign (bound_result_values e res) store.integrity_key == text_of "integrityTag" e)
        "METADATA_TAMPERED"
    check_lane (get_engine (text_of "engineId" res) store) "DETERMINISTIC_ENGINE_UNKNOWN"
        "DETERMINISTIC_ENGINE_VERSION_MISMATCH" "DETERMINISTIC_POLICY_VERSION_STALE"
        "DETERMINISTIC_RULE" (text_of "taskType" res) (text_of "engineVersion" res)
        (text_of "policyVersion" res) expected

  unfoldable pub verify_deterministic_result_envelope :
      GovernanceStore → Fields → (expected : String) → Result (Unit {0})
  unfolding verify_result result_of is_present
  verify_deterministic_result_envelope store e expected = do
    guard (is_present e "resultId") "DETERMINISTIC_STRUCTURE_INVALID"
    guard (is_present e "schemaVersion") "DETERMINISTIC_STRUCTURE_INVALID"
    verify_result store e expected (result_of e)
