-- ===== src/LawShield/Redaction.antt =====
-- The minimum-necessary policy and the redactor of law-shield/arma/redaction.js.
pub mod Laws
use arma_partner_api_sandbox.Prelude.{
  ℕ, ◌+◌, String, Bool, false, ◌||◌, not, Option, none, some, List, [], ◌∷◌, ◌++◌, map, ◌==◌, ◌<+>◌,
  eqb, in_range, codes, contains, decimal, Result, ok, err, guard, ◌>>◌, if◌then◌else◌,
}
use arma_partner_api_sandbox.Prelude.Json.{Json, arr, obj, Items, nil, cons, Fields, end, field}
use arma_partner_api_sandbox.Governance.Classification.{same_codes}

-- The `fields` of each record type; `phiCategories` is not read.
abbrev pub minimum_necessary_policy : List (String × List String)
minimum_necessary_policy =
    (
      "CASE_REFERRAL",
      "caseNumber" ∷ "incidentId" ∷ "incidentDate" ∷ "incidentType" ∷ "summary" ∷ "legalNeeds"
          ∷ "requestingOrgId" ∷ "requestingUserId" ∷ "incidentLocation" ∷ [],
    )
    ∷ (
      "INCIDENT_METADATA",
      "incidentId" ∷ "incidentDate" ∷ "incidentType" ∷ "incidentLocation" ∷ "incidentTime"
          ∷ "reportingOrgId" ∷ "officerBadgeNumber" ∷ "narrativeSummary" ∷ [],
    )
    ∷ (
      "EVIDENCE_MANIFEST",
      "manifestId" ∷ "incidentId" ∷ "itemCount" ∷ "items" ∷ "collectionDate"
          ∷ "collectingOfficerBadgeNumber" ∷ "storageLocation" ∷ "itemId" ∷ "type" ∷ "description"
          ∷ "itemIndex" ∷ [],
    )
    ∷ (
      "EVIDENCE_PACKAGE_REFERENCE",
      "packageId" ∷ "incidentId" ∷ "manifestId" ∷ "sizeBytes" ∷ "hashAlgorithm" ∷ "contentHash"
          ∷ "availabilityWindow" ∷ [],
    )
    ∷ (
      "CHAIN_OF_CUSTODY_UPDATE",
      "manifestId" ∷ "incidentId" ∷ "itemIndex" ∷ "action" ∷ "actorRole" ∷ "actorBadgeNumber"
          ∷ "timestamp" ∷ "storageLocation" ∷ [],
    )
    ∷ ("TRANSFER_STATUS", "transferId" ∷ "status" ∷ "reason" ∷ [])
    ∷ (
      "CASE_STATUS_UPDATE",
      "caseNumber" ∷ "incidentId" ∷ "status" ∷ "updatedAt" ∷ "updatedByRole" ∷ [],
    )
    ∷ []

abbrev pub always_redacted : List String
always_redacted =
    "ssn" ∷ "socialSecurityNumber" ∷ "dateOfBirth" ∷ "dob" ∷ "homeAddress" ∷ "phoneNumber" ∷ "email"
    ∷ "emailAddress" ∷ "driversLicenseNumber" ∷ "licensePlate" ∷ "biometricData"
    ∷ "medicalRecordNumber" ∷ "healthInsuranceNumber" ∷ "ipAddress" ∷ "geolocation"
    ∷ "preciseLocation" ∷ "notes" ∷ "officerNotes" ∷ "freeText" ∷ "rawTranscript" ∷ []

policy_in : List (String × List String) → String → Option (List String)
policy_in [] record_type = none
policy_in ((t, fields) ∷ rest) record_type =
    if t == record_type then some fields else policy_in rest record_type

unfoldable pub policy_for : String → Option (List String)
unfolding policy_in
policy_for record_type = policy_in minimum_necessary_policy record_type

-- `toLowerCase`, as far as it reaches ASCII letters: the Kelvin sign becomes a `k`.
lower : ℕ → ℕ
lower c = if in_range b'A' b'Z' c then c + 32 else if eqb c 8490 then b'k' else c

lowered : String → List ℕ
unfolding lower
lowered s = map lower (codes s)

lowers_to_some : List String → List ℕ → Bool
unfolding lowered
lowers_to_some [] key = false
lowers_to_some (f ∷ fs) key = same_codes (lowered f) key || lowers_to_some fs key

-- `always.has(key.toLowerCase())`
unfoldable pub is_always_redacted : String → Bool
unfolding lowers_to_some lowered
is_always_redacted key = lowers_to_some always_redacted (lowered key)

index_fields : ℕ → Items → Fields
index_fields i nil = end
index_fields i (cons v vs) = field (decimal i) v (index_fields (i + 1) vs)

-- `Object.entries` of an object or an array
unfoldable pub entries : Json → Fields
unfolding index_fields
entries (obj fs) = fs
entries (arr vs) = index_fields 0 vs
entries _ = end

-- whether the policy takes a field out
unfoldable pub is_redacted : List String → String → Bool
is_redacted allowed key =
    is_always_redacted key || contains always_redacted key || not (contains allowed key)

-- The inner loops: what of an object is kept, and the paths of what is not.
unfoldable pub filter_entries : List String → String → Fields → Fields × List String
filter_entries allowed key end = (end, [])
filter_entries allowed key (field k v fs) =
    let (kept, redacted) = filter_entries allowed key fs in
    if is_redacted allowed k
    then (kept, (key <+> "." <+> k) ∷ redacted)
    else (field k v kept, redacted)

unfoldable pub filter_item : List String → String → Json → Json × List String
filter_item allowed key (arr vs) =
    let (kept, redacted) = filter_entries allowed key (entries (arr vs)) in (obj kept, redacted)
filter_item allowed key (obj fs) =
    let (kept, redacted) = filter_entries allowed key fs in (obj kept, redacted)
filter_item allowed key v = (v, [])

unfoldable pub filter_items : List String → String → Items → Items × List String
unfolding filter_item
filter_items allowed key nil = (nil, [])
filter_items allowed key (cons v vs) =
    let (v', redacted) = filter_item allowed key v in
    let (vs', more) = filter_items allowed key vs in (cons v' vs', redacted ++ more)

unfoldable pub filter_value : List String → String → Json → Json × List String
filter_value allowed key (arr vs) =
    let (kept, redacted) = filter_items allowed key vs in (arr kept, redacted)
filter_value allowed key (obj fs) =
    let (kept, redacted) = filter_entries allowed key fs in (obj kept, redacted)
filter_value allowed key v = (v, [])

pub record Redacted : Type 0 where
  pub payload : Fields
  pub minimum_necessary_fields : List String
  pub redacted_fields : List String

-- the outer loop
unfoldable pub redact_fields : List String → Fields → Redacted
redact_fields allowed end = record {
  payload = end;
  minimum_necessary_fields = [];
  redacted_fields = [];
}
redact_fields allowed (field k v fs) =
    let rest = redact_fields allowed fs in
    if is_redacted allowed k
    then record rest { redacted_fields = k ∷ rest.redacted_fields }
    else let (v', redacted) = filter_value allowed k v in
      record {
        payload = field k v' rest.payload;
        minimum_necessary_fields = k ∷ rest.minimum_necessary_fields;
        redacted_fields = redacted ++ rest.redacted_fields;
      }

unfoldable pub redact_object : List String → Json → Result Redacted
redact_object allowed (obj fs) = ok (redact_fields allowed fs)
redact_object allowed _ = err "REDACTION_INVALID_PAYLOAD"

unfoldable pub redact_payload : String → Json → Result Redacted
unfolding redact_object
redact_payload record_type input = elim (policy_for record_type) [
  | none ↦ err "REDACTION_POLICY_MISSING"
  | some allowed ↦ redact_object allowed input
]

-- `assertNoAlwaysRedactedValues`
unfoldable mutual
  pub assert_none_always : Json → String → Result (Unit {0})
  assert_none_always (arr vs) path = assert_items_none path 0 vs
  assert_none_always (obj fs) path = assert_fields_none path fs
  assert_none_always _ path = ok tt

  pub assert_items_none : String → ℕ → Items → Result (Unit {0})
  assert_items_none path i nil = ok tt
  assert_items_none path i (cons v vs) =
      assert_none_always v (if path == "" then decimal i else path <+> "[" <+> decimal i <+> "]")
      >> assert_items_none path (i + 1) vs

  pub assert_fields_none : String → Fields → Result (Unit {0})
  assert_fields_none path end = ok tt
  assert_fields_none path (field k v fs) =
      let full = if path == "" then k else path <+> "." <+> k in
      guard (not (contains always_redacted k || is_always_redacted k))
        ("ALWAYS_REDACTED_FIELD_PRESENT:" <+> full)
      >> assert_none_always v full
      >> assert_fields_none path fs
