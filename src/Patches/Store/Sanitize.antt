-- ===== src/Patches/Store/Sanitize.antt =====
-- `sanitizeDetail` of patches/lib/store.ts: what of an audit detail is written. `none` is its `null`
-- result.
pub mod Laws
use mathlib.Core.Path.{subst}
use arma_partner_api_sandbox.Prelude.{
  ℕ, zero, suc, ◌+◌, String, Bool, true, false, Option, none, some, List, [], ◌∷◌, leb, contains,
  if◌then◌else◌, ◌≤◌, ◌≡◌, arith, refl, Bool-cases, inl, inr,
}
use arma_partner_api_sandbox.Prelude.Json.{
  Json, null, bool, num, str, arr, obj, Items, nil, cons, Fields, end, field, utf16_length,
}

abbrev pub safe_detail_keys : List String
safe_detail_keys =
    "code" ∷ "reason" ∷ "requestId" ∷ "receiptId" ∷ "activationId" ∷ "bindingId" ∷ "partnerId"
    ∷ "clientId" ∷ "orgId" ∷ "capability" ∷ "keyId" ∷ "credentialStatus" ∷ "status" ∷ "outcome"
    ∷ "operation" ∷ "idempotencyKey" ∷ "nonce" ∷ "requestHash" ∷ "payloadHash" ∷ "eventId"
    ∷ "apiVersion" ∷ "version" ∷ "limit" ∷ "windowMs" ∷ "retryAfterMs" ∷ "rotatedFrom"
    ∷ "graceUntil" ∷ "errorCode" ∷ "errorCodes" ∷ "downstreamStatus" ∷ "bindingStatus"
    ∷ "entitlementStatus" ∷ "firstSeenAt" ∷ "firstSeenRequestId" ∷ "existingActivationId"
    ∷ "existingRequestHash" ∷ "eventCount" ∷ "eventType" ∷ "at" ∷ []

abbrev pub safe_detail_string_max : ℕ
safe_detail_string_max = 256

abbrev pub safe_detail_depth : ℕ
safe_detail_depth = 3

abbrev push_item : Option Json → Items → Items
push_item none vs = vs
push_item (some v) vs = cons v vs

abbrev push_field : String → Option Json → Fields → Fields
push_field k none fs = fs
push_field k (some v) fs = field k v fs

unfoldable mutual
  pub sanitize_detail : Json → ℕ → Option Json
  sanitize_detail (str s) depth =
      if leb (utf16_length s) safe_detail_string_max then some (str s) else none
  sanitize_detail (num n) depth = some (num n)
  sanitize_detail (bool b) depth = some (bool b)
  sanitize_detail (arr vs) depth =
      if leb safe_detail_depth depth then none else some (arr (sanitize_items vs (depth + 1)))
  sanitize_detail (obj fs) depth =
      if leb safe_detail_depth depth then none else some (obj (sanitize_fields fs (depth + 1)))
  sanitize_detail null depth = none

  pub sanitize_items : Items → ℕ → Items
  sanitize_items nil depth = nil
  sanitize_items (cons v vs) depth = push_item (sanitize_detail v depth) (sanitize_items vs depth)

  pub sanitize_fields : Fields → ℕ → Fields
  sanitize_fields end depth = end
  sanitize_fields (field k v fs) depth =
      if contains safe_detail_keys k
      then push_field k (sanitize_detail v depth) (sanitize_fields fs depth)
      else sanitize_fields fs depth

-- What may stand in the audit trail with so many levels of nesting left.
mutual
  pub data IsSafe : ℕ → Json → Type 0 where
    a_bool : (left : ℕ) (b : Bool) → IsSafe left (bool b)
    a_num : (left n : ℕ) → IsSafe left (num n)
    a_str : (left : ℕ) (s : String) → utf16_length s ≤ safe_detail_string_max → IsSafe left (str s)
    an_arr : (left : ℕ) (vs : Items) → AreSafe left vs → IsSafe (suc left) (arr vs)
    an_obj : (left : ℕ) (fs : Fields) → HasSafe left fs → IsSafe (suc left) (obj fs)

  pub data AreSafe : ℕ → Items → Type 0 where
    none_left : (left : ℕ) → AreSafe left nil
    one_more :
        (left : ℕ) (v : Json) (vs : Items)
        → IsSafe left v
        → AreSafe left vs
        → AreSafe left (cons v vs)

  pub data HasSafe : ℕ → Fields → Type 0 where
    no_field : (left : ℕ) → HasSafe left end
    safe_field :
        (left : ℕ) (k : String) (v : Json) (fs : Fields)
        → contains safe_detail_keys k ≡ true
        → IsSafe left v
        → HasSafe left fs
        → HasSafe left (field k v fs)
