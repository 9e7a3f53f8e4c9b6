-- ===== src/LawShield/Store/Sanitize.antt =====
-- `sanitizeDetail` of law-shield/lawshield/durable/store.js: what of an audit detail is written.
-- `none` is its `null` result. A text is cut by UTF-16 units; a pair of surrogates that the cut would
-- split is left out whole, since a text here holds no lone surrogate.
use Prim.Native.String.{String as Text}
use arma_partner_api_sandbox.Prelude.{
  ℕ, zero, suc, ◌+◌, ◌-◌, String, Option, none, some, List, [], ◌∷◌, ltb, leb, contains,
  if◌then◌else◌,
}
use arma_partner_api_sandbox.Prelude.Json.{
  Json, null, bool, num, str, arr, obj, Items, nil, cons, Fields, end, field, utf16_length,
}
use Prim.Native.Char.{code}

abbrev pub safe_detail_keys : List String
safe_detail_keys =
    "code" ∷ "receiptId" ∷ "payloadHash" ∷ "schemaVersion" ∷ "idempotencyKey" ∷ "transferId"
    ∷ "recordType" ∷ "recordId" ∷ "incidentId" ∷ "lawShieldCaseId" ∷ "armaOrgId" ∷ "lawShieldOrgId"
    ∷ "minimumNecessaryFields" ∷ "redactedFields" ∷ "violationPaths" ∷ "fieldNames" ∷ "nonce"
    ∷ "status" ∷ "outcome" ∷ "result" ∷ "gatewayStatus" ∷ "processorStatus" ∷ "eventCount"
    ∷ "eventTypes" ∷ "duplicateDelivery" ∷ "quarantined" ∷ "source" ∷ "at" ∷ "windowMs"
    ∷ "firstSeenTransferId" ∷ "existingTransferId" ∷ "authorizedBy" ∷ "processingResult" ∷ []

abbrev pub safe_detail_string_max : ℕ
safe_detail_string_max = 256

abbrev pub safe_detail_array_max : ℕ
safe_detail_array_max = 32

abbrev pub safe_detail_array_item_max : ℕ
safe_detail_array_item_max = 128

-- `s.slice(0, max)`
unfoldable pub take_units : String → ℕ → String
take_units Text.[] max = ""
take_units (Text.◌∷◌ c s) max =
    let width : ℕ = if ltb (code c) 65536 then 1 else 2 in
    let rest = take_units s (max - width) in if leb width max then Text.◌∷◌ c rest else ""

unfoldable pub cut : ℕ → String → String
unfolding take_units
cut max s = if ltb max (utf16_length s) then take_units s max else s

-- the item of an array: a text, or `null`
unfoldable pub sanitize_item : Json → Json
unfolding cut
sanitize_item (str s) = str (cut safe_detail_array_item_max s)
sanitize_item _ = null

-- `value.slice(0, max).map(...)`
unfoldable pub sanitize_items : ℕ → Items → Items
unfolding sanitize_item
sanitize_items zero vs = nil
sanitize_items (suc max) nil = nil
sanitize_items (suc max) (cons v vs) = cons (sanitize_item v) (sanitize_items max vs)

abbrev push_field : String → Option Json → Fields → Fields
push_field k none fs = fs
push_field k (some v) fs = field k v fs

unfoldable mutual
  unfolding cut sanitize_items

  pub sanitize_detail : Json → ℕ → Option Json
  sanitize_detail null depth = none
  sanitize_detail (num n) depth = some (num n)
  sanitize_detail (bool b) depth = some (bool b)
  sanitize_detail (str s) depth = some (str (cut safe_detail_string_max s))
  sanitize_detail (arr vs) depth =
      if leb 2 depth then none else some (arr (sanitize_items safe_detail_array_max vs))
  sanitize_detail (obj fs) depth =
      if leb 2 depth then none else some (obj (sanitize_fields fs (depth + 1)))

  pub sanitize_fields : Fields → ℕ → Fields
  sanitize_fields end depth = end
  sanitize_fields (field k v fs) depth =
      if contains safe_detail_keys k
      then push_field k (sanitize_detail v depth) (sanitize_fields fs depth)
      else sanitize_fields fs depth
