-- ===== src/Governance/Classification.antt =====
-- The designations and engine classes of ai-governance/classification.ts.

use arma_partner_api_sandbox.Prelude.{
  ℕ, ◌+◌, String, Bool, true, false, not, ◌&&◌, ◌||◌, List, [], ◌∷◌, ◌==◌, Result, err, guard, ◌>>◌,
  contains, matches_head, is_alnum, is_id_char, in_range, codes, eqb, if◌then◌else◌,
}

abbrev external_data_designation : String
external_data_designation = "EXTERNAL_PARTNER_DATA"

abbrev engine_classes : List String
engine_classes =
    "GENERATIVE_AI" ∷ "DETERMINISTIC_RULE_ENGINE" ∷ "HUMAN_OPERATOR_CONSOLE"
    ∷ "SYSTEM_AUTOMATION_ENGINE" ∷ []

abbrev pub ai_may_task_types : List String
ai_may_task_types =
    "analyze" ∷ "summarize" ∷ "classify" ∷ "recommend" ∷ "identify_issues" ∷ "flag_for_review"
    ∷ "advise" ∷ []

abbrev pub deterministic_task_types : List String
deterministic_task_types = "policy_evaluation" ∷ []

pub record EngineRegistration : Type 0 where
  pub engine_id : String
  pub engine_class : String
  pub engine_version : String
  pub designation : String
  pub advisory_only : Bool

pub record RegisteredEngine : Type 0 where
  pub engine_id : String
  pub engine_class : String
  pub engine_version : String
  pub designation : String
  pub advisory_only : Bool
  pub registered_at : ℕ

-- /^[A-Za-z0-9][A-Za-z0-9._-]{lo,hi}$/
unfoldable pub is_id : ℕ → ℕ → String → Bool
is_id = matches_head is_alnum is_id_char

abbrev lower : ℕ → ℕ
lower c = if in_range b'A' b'Z' c then c + 32 else c

-- The letters and digits that are left, as code points.
normalized : List ℕ → List ℕ
normalized [] = []
normalized (c ∷ cs) = if is_alnum c then lower c ∷ normalized cs else normalized cs

unfoldable pub normalize_key : String → List ℕ
unfolding normalized
normalize_key key = normalized (codes key)

unfoldable pub same_codes : List ℕ → List ℕ → Bool
same_codes [] [] = true
same_codes (c ∷ cs) (d ∷ ds) = eqb c d && same_codes cs ds
same_codes [] (d ∷ ds) = false
same_codes (c ∷ cs) [] = false

unfoldable pub is_normal_of : List String → List ℕ → Bool
is_normal_of [] key = false
is_normal_of (x ∷ xs) key = same_codes (codes x) key || is_normal_of xs key

abbrev ai_words : List String
ai_words =
    "ai" ∷ "bot" ∷ "agent" ∷ "assistant" ∷ "model" ∷ "gpt" ∷ "llm" ∷ "system" ∷ "engine"
    ∷ "automation" ∷ []

abbrev is_word_char : ℕ → Bool
is_word_char c = is_alnum c || eqb c b'_'

-- The run of word characters at the front, and whether a later run is one of the words.
scanned : List ℕ → List ℕ × Bool
scanned [] = ([], false)
scanned (c ∷ cs) =
    let (run, found) = scanned cs in
    if is_word_char c then (lower c ∷ run, found) else ([], is_normal_of ai_words run || found)

-- `\b(?:ai|...)\b` matches where a whole run of word characters is one of the words.
unfoldable pub is_ai_identity_marker : String → Bool
unfolding scanned
is_ai_identity_marker value =
    let (run, found) = scanned (codes value) in is_normal_of ai_words run || found

-- the designation that a class of engines is pinned to
abbrev pairing : EngineRegistration → Result (Unit {0})
pairing reg =
    if reg.engine_class == "GENERATIVE_AI"
    then guard (reg.designation == "AI_ADVISORY") "DESIGNATION_ENGINE_CLASS_MISMATCH"
      >> guard reg.advisory_only "AI_ENGINE_MUST_BE_ADVISORY_ONLY"
    else if reg.engine_class == "DETERMINISTIC_RULE_ENGINE"
    then guard (reg.designation == "DETERMINISTIC_RULE") "DESIGNATION_ENGINE_CLASS_MISMATCH"
      >> guard (not reg.advisory_only) "DETERMINISTIC_ENGINE_CANNOT_BE_ADVISORY"
    else if reg.engine_class == "HUMAN_OPERATOR_CONSOLE"
    then guard (reg.designation == "HUMAN_AUTHORIZATION") "DESIGNATION_ENGINE_CLASS_MISMATCH"
      >> guard (not reg.advisory_only) "ENGINE_ADVISORY_ONLY_FLAG_INVALID"
    else guard (reg.designation == "SYSTEM_AUTOMATION") "DESIGNATION_ENGINE_CLASS_MISMATCH"
      >> guard (not reg.advisory_only) "ENGINE_ADVISORY_ONLY_FLAG_INVALID"

unfoldable pub validate_engine_registration : EngineRegistration → Result (Unit {0})
validate_engine_registration reg = do
  guard (is_id 2 63 reg.engine_id) "ENGINE_ID_INVALID"
  guard (is_id 0 31 reg.engine_version) "ENGINE_VERSION_INVALID"
  guard (contains engine_classes reg.engine_class) "ENGINE_CLASS_UNKNOWN"
  guard (not (reg.designation == external_data_designation)) "ENGINE_CANNOT_REGISTER_EXTERNAL_DATA"
  pairing reg

-- The reason code of a refusal is the message of `err`.
unfoldable pub check_engine_designation : RegisteredEngine → String → String → Result (Unit {0})
check_engine_designation engine designation task_type =
    if designation == external_data_designation
    then err "ENGINE_CANNOT_CLAIM_EXTERNAL_DATA"
    else if engine.engine_class == "GENERATIVE_AI"
    then guard (designation == "AI_ADVISORY") (
        if designation == "DETERMINISTIC_RULE"
        then "AI_OUTPUT_MISLABELED_DETERMINISTIC"
        else "DESIGNATION_ENGINE_CLASS_MISMATCH")
      >> guard engine.advisory_only "AI_ENGINE_NOT_ADVISORY_ONLY"
      >> guard (contains ai_may_task_types task_type) (
          if contains deterministic_task_types task_type
          then "AI_TASK_TYPE_NOT_ALLOWED"
          else "TASK_TYPE_INVALID")
    else if engine.engine_class == "DETERMINISTIC_RULE_ENGINE"
    then guard (designation == "DETERMINISTIC_RULE") (
        if designation == "AI_ADVISORY"
        then "DETERMINISTIC_OUTPUT_MISLABELED_AI"
        else "DESIGNATION_ENGINE_CLASS_MISMATCH")
      >> guard (contains deterministic_task_types task_type) (
          if contains ai_may_task_types task_type
          then "DETERMINISTIC_TASK_TYPE_NOT_ALLOWED"
          else "TASK_TYPE_INVALID")
    else guard (not (designation == "AI_ADVISORY" || designation == "DETERMINISTIC_RULE"))
        "DESIGNATION_ENGINE_CLASS_MISMATCH"
