-- ===== src/Patches/Store/Sanitize/Laws.antt =====
-- What `sanitizeDetail` of patches/lib/store.ts lets through.
use mathlib.Core.Path.{subst}
use arma_partner_api_sandbox.Prelude.{
  ℕ, zero, suc, ◌+◌, String, true, Option, none, some, contains, ◌≤◌, ◌≡◌, arith, refl, Bool-cases,
  inl, inr,
}
use arma_partner_api_sandbox.Prelude.Json.{
  Json, null, bool, num, str, arr, obj, Items, nil, cons, Fields, end, field, utf16_length,
}
use arma_partner_api_sandbox.Patches.Store.Sanitize.{
  safe_detail_keys, safe_detail_string_max, safe_detail_depth, push_item, push_field,
  sanitize_detail, sanitize_items, sanitize_fields, IsSafe, a_bool, a_num, a_str, an_arr, an_obj,
  AreSafe, none_left, one_more, HasSafe, no_field, safe_field,
}

push_item-AreSafe :
    (left : ℕ) (o : Option Json) (vs : Items)
    → ((v : Json) → o ≡ some v → IsSafe left v)
    → AreSafe left vs
    → AreSafe left (push_item o vs)
push_item-AreSafe left none vs h hs = hs
push_item-AreSafe left (some v) vs h hs = one_more left v vs (h v refl) hs

push_field-HasSafe :
    (left : ℕ) (k : String) (o : Option Json) (fs : Fields)
    → contains safe_detail_keys k ≡ true
    → ((v : Json) → o ≡ some v → IsSafe left v)
    → HasSafe left fs
    → HasSafe left (push_field k o fs)
push_field-HasSafe left k none fs t h hs = hs
push_field-HasSafe left k (some v) fs t h hs = safe_field left k v fs t (h v refl) hs

some-injective' : {a b : Json} → some a ≡ some b → a ≡ b
some-injective' e = cc e

mutual
  unfolding sanitize_detail

  sanitize-IsSafe :
      (v : Json) (depth left : ℕ) (out : Json)
      → depth + left ≡ safe_detail_depth
      → sanitize_detail v depth ≡ some out
      → IsSafe left out
  sanitize-IsSafe null depth left out d h = absurd (cc h)
  sanitize-IsSafe (bool b) depth left out d h =
      subst (IsSafe left) (some-injective' h) (a_bool left b)
  sanitize-IsSafe (num n) depth left out d h =
      subst (IsSafe left) (some-injective' h) (a_num left n)
  sanitize-IsSafe (str s) depth left out d h =
      let fits : utf16_length s ≤ safe_detail_string_max = ground arith in
      subst (IsSafe left) (ground arith) (a_str left s fits)
  sanitize-IsSafe (arr vs) depth zero out d h = absurd (ground arith)
  sanitize-IsSafe (arr vs) depth (suc left) out d h = subst (IsSafe (suc left)) (ground arith) (
      an_arr left (sanitize_items vs (depth + 1))
        (sanitize_items_safe vs (depth + 1) left (omega arith)))
  sanitize-IsSafe (obj fs) depth zero out d h = absurd (ground arith)
  sanitize-IsSafe (obj fs) depth (suc left) out d h = subst (IsSafe (suc left)) (ground arith) (
      an_obj left (sanitize_fields fs (depth + 1))
        (sanitize_fields_safe fs (depth + 1) left (omega arith)))

  sanitize_items_safe :
      (vs : Items) (depth left : ℕ)
      → depth + left ≡ safe_detail_depth
      → AreSafe left (sanitize_items vs depth)
  sanitize_items_safe nil depth left d = none_left left
  sanitize_items_safe (cons v vs) depth left d =
      push_item-AreSafe left (sanitize_detail v depth) (sanitize_items vs depth)
        (λ out h. sanitize-IsSafe v depth left out d h) (sanitize_items_safe vs depth left d)

  sanitize_fields_safe :
      (fs : Fields) (depth left : ℕ)
      → depth + left ≡ safe_detail_depth
      → HasSafe left (sanitize_fields fs depth)
  sanitize_fields_safe end depth left d = no_field left
  sanitize_fields_safe (field k v fs) depth left d =
      elim (Bool-cases (contains safe_detail_keys k)) [
        | inl safe ↦ rw safe (
            push_field-HasSafe left k (sanitize_detail v depth) (sanitize_fields fs depth) safe
              (λ out h. sanitize-IsSafe v depth left out d h)
              (sanitize_fields_safe fs depth left d))
        | inr unsafe ↦ rw unsafe (sanitize_fields_safe fs depth left d)
      ]

-- Whatever detail is given, what is written of it holds allowlisted keys only, at every depth,
-- strings of at most 256 units, and at most three levels of nesting.
pub sanitize_detail-IsSafe :
    (v out : Json) → sanitize_detail v 0 ≡ some out → IsSafe safe_detail_depth out
sanitize_detail-IsSafe v out h = sanitize-IsSafe v 0 safe_detail_depth out (omega arith) h
