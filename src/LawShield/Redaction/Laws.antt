-- ===== src/LawShield/Redaction/Laws.antt =====
-- What law-shield/arma/redaction.js sends, law-shield/lawshield/durable/processor.js takes.
use arma_partner_api_sandbox.Prelude.{
  String, Bool, true, false, ◌&&◌, Option, none, some, List, [], ◌≡◌, refl, ap, sym, ◌∙◌, inl, inr,
  Bool-cases, contains, ok, arith,
}
use arma_partner_api_sandbox.Prelude.Json.{
  Json, null, bool, num, str, arr, obj, Items, nil, cons, Fields, end, field,
}
use arma_partner_api_sandbox.LawShield.Redaction.{
  policy_for, is_always_redacted, is_redacted, entries, filter_entries, filter_item, filter_items,
  filter_value, Redacted, redact_fields, redact_object, redact_payload,
}
use arma_partner_api_sandbox.LawShield.Disclosure.{
  Walk, check_entry, check_value, check_items, check_item, admit, verdict_on, verdict_of,
  payload_entries, enforce_disclosure_policy,
}

-- The redactor looks one level below the top. A value is flat if the processor would not look into
-- it, and a payload is shallow if the values that are two levels down are flat.
is_flat_item : Json → Bool
is_flat_item (obj fs) = false
is_flat_item _ = true

are_flat_items : Items → Bool
unfolding is_flat_item
are_flat_items nil = true
are_flat_items (cons v vs) = is_flat_item v && are_flat_items vs

is_flat : Json → Bool
unfolding are_flat_items
is_flat (obj fs) = false
is_flat (arr vs) = are_flat_items vs
is_flat _ = true

has_flat_fields : Fields → Bool
unfolding is_flat
has_flat_fields end = true
has_flat_fields (field k v fs) = is_flat v && has_flat_fields fs

is_shallow_item : Json → Bool
unfolding has_flat_fields
is_shallow_item (arr vs) = has_flat_fields (entries (arr vs))
is_shallow_item (obj fs) = has_flat_fields fs
is_shallow_item _ = true

are_shallow_items : Items → Bool
unfolding is_shallow_item
are_shallow_items nil = true
are_shallow_items (cons v vs) = is_shallow_item v && are_shallow_items vs

is_shallow_value : Json → Bool
unfolding has_flat_fields are_shallow_items
is_shallow_value (obj fs) = has_flat_fields fs
is_shallow_value (arr vs) = are_shallow_items vs
is_shallow_value _ = true

unfoldable pub is_shallow : Fields → Bool
unfolding is_shallow_value
is_shallow end = true
is_shallow (field k v fs) = is_shallow_value v && is_shallow fs

-- A field that is kept is not always redacted, and is allow-listed.
kept-allowed :
    (allowed : List String) (k : String)
    → is_redacted allowed k ≡ false
    → (is_always_redacted k ≡ false) × (contains allowed k ≡ true)
unfolding is_redacted
kept-allowed allowed k h = (ground arith, ground arith)

flat_item-clean :
    (allowed : List String) (path : String) (v : Json)
    → is_flat_item v ≡ true
    → (check_item allowed path v).violations ≡ []
unfolding is_flat_item check_item
flat_item-clean allowed path null h = refl
flat_item-clean allowed path (bool b) h = refl
flat_item-clean allowed path (num n) h = refl
flat_item-clean allowed path (str s) h = refl
flat_item-clean allowed path (arr vs) h = refl
flat_item-clean allowed path (obj fs) h = absurd (cc h)

both-true : (a b : Bool) → (a && b) ≡ true → (a ≡ true) × (b ≡ true)
both-true true b h = (refl, h)
both-true false b h = absurd (cc h)

flat_items-clean :
    (allowed : List String) (path : String) (vs : Items)
    → are_flat_items vs ≡ true
    → (check_items allowed path vs).violations ≡ []
unfolding are_flat_items check_items
flat_items-clean allowed path nil h = refl
flat_items-clean allowed path (cons v vs) h =
    let (a, b) = both-true (is_flat_item v) _ h in
    rw (flat_item-clean allowed path v a, flat_items-clean allowed path vs b) refl

flat-clean :
    (allowed : List String) (path : String) (v : Json)
    → is_flat v ≡ true
    → (check_value allowed path v).violations ≡ []
unfolding is_flat check_value
flat-clean allowed path null h = refl
flat-clean allowed path (bool b) h = refl
flat-clean allowed path (num n) h = refl
flat-clean allowed path (str s) h = refl
flat-clean allowed path (arr vs) h = flat_items-clean allowed path vs h
flat-clean allowed path (obj fs) h = absurd (cc h)

-- A field that is kept adds only what its value holds.
kept-clean :
    (allowed : List String) (prefix k : String) (v : Json) (fs : Fields)
    → is_redacted allowed k ≡ false
    → ((path : String) → (check_value allowed path v).violations ≡ [])
    → (check_entry allowed prefix fs).violations ≡ []
    → (check_entry allowed prefix (field k v fs)).violations ≡ []
unfolding check_entry
kept-clean allowed prefix k v fs h inner rest =
    let (a, b) = kept-allowed allowed k h in rw (a, b, inner _, rest) refl

filter_entries-clean :
    (allowed : List String) (key prefix : String) (fs : Fields)
    → has_flat_fields fs ≡ true
    → (check_entry allowed prefix (filter_entries allowed key fs).0).violations ≡ []
unfolding filter_entries has_flat_fields
filter_entries-clean allowed key prefix end h = unfold check_entry in refl
filter_entries-clean allowed key prefix (field k v fs) h =
    let (a, b) = both-true (is_flat v) _ h in
    let rest = filter_entries-clean allowed key prefix fs b in
    elim (Bool-cases (is_redacted allowed k)) [
      | inl r ↦ rw r rest
      | inr r ↦ rw r (kept-clean allowed prefix k v _ r (λ path. flat-clean allowed path v a) rest)
    ]

filter_item-clean :
    (allowed : List String) (key path : String) (v : Json)
    → is_shallow_item v ≡ true
    → (check_item allowed path (filter_item allowed key v).0).violations ≡ []
unfolding filter_item is_shallow_item check_item
filter_item-clean allowed key path null h = refl
filter_item-clean allowed key path (bool b) h = refl
filter_item-clean allowed key path (num n) h = refl
filter_item-clean allowed key path (str s) h = refl
filter_item-clean allowed key path (arr vs) h =
    filter_entries-clean allowed key path (entries (arr vs)) h
filter_item-clean allowed key path (obj fs) h = filter_entries-clean allowed key path fs h

filter_items-clean :
    (allowed : List String) (key path : String) (vs : Items)
    → are_shallow_items vs ≡ true
    → (check_items allowed path (filter_items allowed key vs).0).violations ≡ []
unfolding filter_items are_shallow_items check_items
filter_items-clean allowed key path nil h = refl
filter_items-clean allowed key path (cons v vs) h =
    let (a, b) = both-true (is_shallow_item v) _ h in
    rw (filter_item-clean allowed key path v a, filter_items-clean allowed key path vs b) refl

filter_value-clean :
    (allowed : List String) (key path : String) (v : Json)
    → is_shallow_value v ≡ true
    → (check_value allowed path (filter_value allowed key v).0).violations ≡ []
unfolding filter_value is_shallow_value check_value
filter_value-clean allowed key path null h = refl
filter_value-clean allowed key path (bool b) h = refl
filter_value-clean allowed key path (num n) h = refl
filter_value-clean allowed key path (str s) h = refl
filter_value-clean allowed key path (arr vs) h = filter_items-clean allowed key path vs h
filter_value-clean allowed key path (obj fs) h = filter_entries-clean allowed key path fs h

redact_fields-clean :
    (allowed : List String) (fs : Fields)
    → is_shallow fs ≡ true
    → (check_entry allowed "" (redact_fields allowed fs).payload).violations ≡ []
unfolding redact_fields is_shallow
redact_fields-clean allowed end h = unfold check_entry in refl
redact_fields-clean allowed (field k v fs) h =
    let (a, b) = both-true (is_shallow_value v) _ h in
    let rest = redact_fields-clean allowed fs b in
    elim (Bool-cases (is_redacted allowed k)) [
      | inl r ↦ rw r rest
      | inr r ↦ rw r (
          kept-clean allowed "" k (filter_value allowed k v).0 _ r
            (λ path. filter_value-clean allowed k path v a) rest)
    ]

verdict_on-clean : (w : Walk) → w.violations ≡ [] → verdict_on w ≡ admit w.fields
unfolding verdict_on
verdict_on-clean w h = rw h refl

redacted_by-admitted :
    (record_type : String) (o : Option (List String)) (fs : Fields) (r : Redacted)
    → policy_for record_type ≡ o
    → redact_payload record_type (obj fs) ≡ ok r
    → is_shallow fs ≡ true
    → (fields : List String) × (enforce_disclosure_policy record_type (obj r.payload)
        ≡ admit fields)
unfolding redact_payload redact_object enforce_disclosure_policy verdict_of payload_entries entries
redacted_by-admitted record_type none fs r p h s = absurd (cc (rw (p, redact_payload) at h))
redacted_by-admitted record_type (some allowed) fs r p h s =
    let g : ok (redact_fields allowed fs) ≡ ok r = rw (p, redact_payload) at h in
    let same : redact_fields allowed fs ≡ r = cc (g) in
    let clean =
      ap (λ x. (check_entry allowed "" x.payload).violations) (sym same)
      ∙ redact_fields-clean allowed fs s in
    rw (p, enforce_disclosure_policy) (_, verdict_on-clean (check_entry allowed "" r.payload) clean)

-- A shallow payload that the redactor has passed is admitted by the processor's disclosure policy for
-- its record type.
pub redact_payload-admitted :
    (record_type : String) (fs : Fields) (r : Redacted)
    → redact_payload record_type (obj fs) ≡ ok r
    → is_shallow fs ≡ true
    → (fields : List String) × (enforce_disclosure_policy record_type (obj r.payload)
        ≡ admit fields)
redact_payload-admitted record_type fs r h s =
    redacted_by-admitted record_type (policy_for record_type) fs r refl h s
