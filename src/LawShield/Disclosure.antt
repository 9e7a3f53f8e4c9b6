-- ===== src/LawShield/Disclosure.antt =====
-- `enforceDisclosurePolicy` of law-shield/lawshield/durable/processor.js: the processor refuses a
-- payload that does not arrive redacted.
use text.Mathlib.Text.{find?}
use arma_partner_api_sandbox.Prelude.{
  ℕ, zero, suc, ◌+◌, String, Bool, not, Option, none, some, is_some, List, [], ◌∷◌, ◌++◌, ◌==◌,
  ◌<+>◌, contains, decimal, Result, ok, err, first, length, ltb, if◌then◌else◌,
}
use arma_partner_api_sandbox.Prelude.Json.{
  Json, null, str, arr, obj, Items, nil, cons, Fields, end, field, utf16_length,
}
use arma_partner_api_sandbox.LawShield.Redaction.{policy_for, is_always_redacted, entries}

-- What the walk collects: `minimumNecessaryFields` and `violationPaths`.
pub record Walk : Type 0 where
  pub fields : List String
  pub violations : List String

abbrev pub nothing : Walk
nothing = record { fields = []; violations = [] }

abbrev pub join : Walk → Walk → Walk
join w v = record { fields = w.fields ++ v.fields; violations = w.violations ++ v.violations }

abbrev pub found : String → Walk
found path = record { fields = path ∷ []; violations = [] }

abbrev pub violation : String → Walk
violation path = record { fields = []; violations = path ∷ [] }

unfoldable mutual
  -- Arrays of arrays, and values that are no objects, are not looked into.
  pub check_entry : List String → String → Fields → Walk
  check_entry allowed prefix end = nothing
  check_entry allowed prefix (field key value fs) =
      let path = if prefix == "" then key else prefix <+> "." <+> key in
      let inner = check_value allowed path value in
      let rest = check_entry allowed prefix fs in
      if is_always_redacted key
      then join (violation (path <+> " (always-redacted)")) rest
      else if not (contains allowed key)
      then join (violation (path <+> " (not in minimum-necessary allow-list)")) rest
      else join (join (found path) inner) rest

  pub check_value : List String → String → Json → Walk
  check_value allowed path (obj fs) = check_entry allowed path fs
  check_value allowed path (arr vs) = check_items allowed path vs
  check_value allowed path _ = nothing

  pub check_items : List String → String → Items → Walk
  check_items allowed path nil = nothing
  check_items allowed path (cons v vs) =
      join (check_item allowed path v) (check_items allowed path vs)

  pub check_item : List String → String → Json → Walk
  check_item allowed path (obj fs) = check_entry allowed path fs
  check_item allowed path _ = nothing

-- A text has a field for each UTF-16 unit; the values are not read, since no index is allow-listed.
unit_fields : ℕ → ℕ → Fields
unit_fields zero i = end
unit_fields (suc n) i = field (decimal i) null (unit_fields n (i + 1))

-- `Object.entries(payload)`
unfoldable pub payload_entries : Json → Result Fields
unfolding unit_fields
payload_entries null = err "Cannot convert undefined or null to object"
payload_entries (str s) = ok (unit_fields (utf16_length s) 0)
payload_entries v = ok (entries v)

-- The error with its `violationPaths`, or the `minimumNecessaryFields`.
pub data Verdict : Type 0 where
  refuse : String → Option (List String) → Verdict
  admit : List String → Verdict

is_always_path : String → Bool
is_always_path path = is_some (find? path "always-redacted")

unfoldable pub verdict_on : Walk → Verdict
unfolding is_always_path
verdict_on w =
    if ltb 0 (length w.violations)
    then refuse
        (elim (first is_always_path w.violations) [
          | some path ↦ "ALWAYS_REDACTED_FIELD_PRESENT"
          | none ↦ "MINIMUM_NECESSARY_VIOLATION"
        ])
        (some w.violations)
    else admit w.fields

unfoldable pub verdict_of : List String → Result Fields → Verdict
verdict_of allowed (err e) = refuse e none
verdict_of allowed (ok fs) = verdict_on (check_entry allowed "" fs)

unfoldable pub enforce_disclosure_policy : String → Json → Verdict
unfolding verdict_of payload_entries
enforce_disclosure_policy record_type payload = elim (policy_for record_type) [
  | none ↦ refuse "RECORD_TYPE_NOT_ALLOWED" none
  | some allowed ↦ verdict_of allowed (payload_entries payload)
]
