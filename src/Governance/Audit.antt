-- ===== src/Governance/Audit.antt =====
-- The append-only audit log of ai-governance/audit.ts. The clock's reading is an argument.
use text.Mathlib.Text.{find?}
use arma_partner_api_sandbox.Prelude.{
  ℕ, zero, ◌+◌, suc, String, Bool, true, false, not, ◌||◌, List, [], ◌∷◌, ◌++◌, Option, none, some,
  is_some, ◌==◌, ◌<+>◌, Result, ok, err, guard, ◌>>=◌, ◌>>◌, codes, is_blank, decimal, ◌-◌,
  if◌then◌else◌,
}
use arma_partner_api_sandbox.Prelude.Json.{Json, bool, str, Fields, end, field, utf16_length}
use arma_partner_api_sandbox.Governance.Classification.{normalize_key, same_codes}

pub record GovernanceAuditRecord : Type 0 where
  pub audit_id : String
  pub kind : String
  pub subject_id : String
  pub reason_code : String
  pub details : Fields
  pub org_ref : Option String
  pub at : ℕ

pub record RecordAuditEntry : Type 0 where
  pub kind : String
  pub subject_id : String
  pub reason_code : String
  pub details : Fields
  pub org_ref : Option String

pub record AuditLog : Type 0 where
  pub secret_values : List String
  pub records : List GovernanceAuditRecord
  pub seq : ℕ

-- each with its `toUpperCase`
abbrev forbidden_material_keys : List (String × String)
forbidden_material_keys =
    ("prompt", "PROMPT")
    ∷ ("systemprompt", "SYSTEMPROMPT")
    ∷ ("apikey", "APIKEY")
    ∷ ("modelkey", "MODELKEY")
    ∷ ("modelprovider", "MODELPROVIDER")
    ∷ ("token", "TOKEN")
    ∷ ("credential", "CREDENTIAL")
    ∷ ("credentials", "CREDENTIALS")
    ∷ ("signingkey", "SIGNINGKEY")
    ∷ ("secret", "SECRET")
    ∷ ("secretvalue", "SECRETVALUE")
    ∷ ("chainofthought", "CHAINOFTHOUGHT")
    ∷ ("password", "PASSWORD")
    ∷ ("privatekey", "PRIVATEKEY")
    ∷ ("model", "MODEL")
    ∷ []

abbrev forbidden_content_keys : List (String × String)
forbidden_content_keys =
    ("output", "OUTPUT")
    ∷ ("content", "CONTENT")
    ∷ ("payload", "PAYLOAD")
    ∷ ("result", "RESULT")
    ∷ ("message", "MESSAGE")
    ∷ ("body", "BODY")
    ∷ ("text", "TEXT")
    ∷ []

-- the entry that a key normalizes to
unfoldable pub forbidden_as : List (String × String) → List ℕ → Option String
forbidden_as [] key = none
forbidden_as ((k, upper) ∷ ks) key =
    if same_codes (codes k) key then some upper else forbidden_as ks key

abbrev pub refuse_as : String → Option String → Result (Unit {0})
refuse_as prefix none = ok tt
refuse_as prefix (some upper) = err (prefix <+> upper)

-- `value.includes(secret)`, for text only
holds_secret : List String → Json → Bool
holds_secret [] v = false
holds_secret (secret ∷ rest) (str s) = is_some (find? s secret) || holds_secret rest (str s)
holds_secret (secret ∷ rest) v = false

check_details : List String → Fields → Result (Unit {0})
unfolding forbidden_as holds_secret
check_details secrets end = ok tt
check_details secrets (field key value fs) = do
  refuse_as "AUDIT_MATERIAL_DETAIL_KEY_" (forbidden_as forbidden_material_keys (normalize_key key))
  refuse_as "AUDIT_CONTENT_DETAIL_KEY_" (forbidden_as forbidden_content_keys (normalize_key key))
  guard (not (holds_secret secrets value)) "AUDIT_SECRET_MATERIAL_DETECTED"
  check_details secrets fs

unfoldable pub check_entry : List String → RecordAuditEntry → Result (Unit {0})
unfolding check_details
check_entry secrets entry = do
  guard (not (is_blank entry.kind)) "AUDIT_ENTRY_INVALID"
  guard (not (is_blank entry.subject_id)) "AUDIT_ENTRY_INVALID"
  guard (not (is_blank entry.reason_code)) "AUDIT_ENTRY_INVALID"
  check_details secrets entry.details

-- `String(n).padStart(6, '0')`
zeros : ℕ → String
zeros zero = ""
zeros (suc n) = "0" <+> zeros n

unfoldable pub numbered : String → ℕ → String
unfolding zeros
numbered prefix n = let s = decimal n in prefix <+> zeros (6 - utf16_length s) <+> s

unfoldable pub record_for : RecordAuditEntry → ℕ → ℕ → GovernanceAuditRecord
unfolding numbered
record_for entry now n = record {
  audit_id = numbered "AUD-" n;
  kind = entry.kind;
  subject_id = entry.subject_id;
  reason_code = entry.reason_code;
  details = entry.details;
  org_ref = entry.org_ref;
  at = now;
}

unfoldable pub appended : RecordAuditEntry → ℕ → AuditLog → AuditLog
unfolding record_for
appended entry now log = record log {
  records = log.records ++ (record_for entry now (log.seq + 1) ∷ []);
  seq = log.seq + 1;
}

-- A throw leaves the log as it was.
unfoldable pub record_audit :
    RecordAuditEntry → ℕ → AuditLog → Result (GovernanceAuditRecord × AuditLog)
record_audit entry now log = do
  check_entry log.secret_values entry
  ok (record_for entry now (log.seq + 1), appended entry now log)

found_in : String → List GovernanceAuditRecord → Option GovernanceAuditRecord
found_in audit_id [] = none
found_in audit_id (r ∷ rs) = if r.audit_id == audit_id then some r else found_in audit_id rs

unfoldable pub find : String → AuditLog → Option GovernanceAuditRecord
unfolding found_in
find audit_id log = found_in audit_id log.records

mutation_entry : String → String → RecordAuditEntry
mutation_entry audit_id patch_keys =
    let attempted = if audit_id == "" then "UNKNOWN" else audit_id in
    record {
      kind = "governance.audit.mutation_denied";
      subject_id = attempted;
      reason_code = "AUDIT_MUTATION_REFUSED";
      details =
          field "attemptedAuditId" (str attempted)
            (field "refused" (bool true) (field "patchKeys" (str patch_keys) end));
      org_ref = none;
    }

-- The refusal's reason code, and the log with the refusal in it. The patch is only named, by its
-- keys joined with commas.
unfoldable pub attempt_mutation : String → String → ℕ → AuditLog → Result (String × AuditLog)
unfolding mutation_entry
attempt_mutation audit_id patch_keys now log = do
  written ← record_audit (mutation_entry audit_id patch_keys) now log
  ok ("AUDIT_MUTATION_REFUSED", written.1)
