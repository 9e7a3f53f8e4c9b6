-- ===== src/Patches/Security/Parsing.antt =====
-- What an Authorization header that patches/lib/security.ts can parse says.
use Prim.Native.Char.{Char, code}
use text.Mathlib.TextLemmas.{cons-append, nil-append}
use text.Mathlib.TextEquality.{Char-path}
use arma_partner_api_sandbox.Prelude.{
  String, true, Option, none, some, ◌==◌, ◌<+>◌, ◌≡◌, refl, sym, ap, ◌∙◌, eqb, Bool-cases, inl, inr,
  arith,
}
use arma_partner_api_sandbox.Patches.Security.{
  is_part, stripped, before, split_colon, both_parts, parse_authorization, given,
}

pub given-some : (o : Option String) (a : String) → given o ≡ some a → o ≡ some a
given-some none a h = absurd (cc h)
given-some (some s) a h = elim (Bool-cases (s == "")) [
  | inl e ↦ absurd (cc (rw e at h))
  | inr e ↦ rw e at h
]

abbrev colon : Char
colon = ":"

stripped-some : (p s r : String) → stripped p s ≡ some r → s ≡ p <+> r
unfolding stripped
stripped-some String.[] s r h = let same : s ≡ r = cc h in same ∙ sym (nil-append r)
stripped-some (String.◌∷◌ c p) String.[] r h = absurd (cc h)
stripped-some (String.◌∷◌ c p) (String.◌∷◌ d s) r h = elim (Bool-cases (eqb (code c) (code d))) [
  | inl e ↦
      let same : c ≡ d = Char-path c d (ground arith) in
      let rest = stripped-some p s r (rw e at h) in
      ap (λ x. String.◌∷◌ x s) (sym same) ∙ ap (String.◌∷◌ c) rest ∙ sym (cons-append c p r)
  | inr e ↦ absurd (cc (rw e at h))
]

before-some :
    (c : Char) (o : Option (String × String)) (a b : String)
    → before (String.◌∷◌ c "") o ≡ some (a, b)
    → (a' : String) × (o ≡ some (a', b)) × (a ≡ String.◌∷◌ c a')
unfolding before
before-some c none a b h = absurd (cc h)
before-some c (some (x, y)) a b h =
    let first : String.◌∷◌ c "" <+> x ≡ a = cc h in
    let second : y ≡ b = cc h in
    (
      x,
      ap (λ z. some (x, z)) second,
      sym first ∙ cons-append c "" x ∙ ap (String.◌∷◌ c) (nil-append x),
    )

split_colon-some : (s a b : String) → split_colon s ≡ some (a, b) → s ≡ a <+> (":" <+> b)
unfolding split_colon
split_colon-some String.[] a b h = absurd (cc h)
split_colon-some (String.◌∷◌ c s) a b h = elim (Bool-cases (eqb (code c) b':')) [
  | inl e ↦
      let found : some ("", s) ≡ some (a, b) = rw e at h in
      let first : "" ≡ a = cc found in
      let second : s ≡ b = cc found in
      let same : c ≡ colon = Char-path c colon (ground arith) in
      ap (λ x. String.◌∷◌ x s) same
      ∙ ap (String.◌∷◌ colon) (second ∙ sym (nil-append b))
      ∙ sym (cons-append colon "" b)
      ∙ sym (nil-append (":" <+> b))
      ∙ ap (λ x. x <+> (":" <+> b)) first
  | inr e ↦
      let found : before (String.◌∷◌ c "") (split_colon s) ≡ some (a, b) = rw e at h in
      let (a', split, same) = before-some c (split_colon s) a b found in
      ap (String.◌∷◌ c) (split_colon-some s a' b split)
      ∙ sym (cons-append c a' (":" <+> b))
      ∙ ap (λ x. x <+> (":" <+> b)) (sym same)
]

both_parts-some :
    (o : Option (String × String)) (a b : String)
    → both_parts o ≡ some (a, b)
    → (o ≡ some (a, b)) × (is_part a ≡ true) × (is_part b ≡ true)
unfolding both_parts
both_parts-some none a b h = absurd (cc h)
both_parts-some (some (x, y)) a b h = elim (Bool-cases (is_part x)) [
  | inl p ↦ elim (Bool-cases (is_part y)) [
    | inl q ↦
        let found : some (x, y) ≡ some (a, b) = rw (p, q) at h in
        let first : x ≡ a = cc found in
        let second : y ≡ b = cc found in
        (found, ap is_part (sym first) ∙ p, ap is_part (sym second) ∙ q)
    | inr q ↦ absurd (cc (rw (p, q) at h))
  ]
  | inr p ↦ absurd (cc (rw p at h))
]

-- The header is the scheme, the client's id, a colon and the key's id.
pub parse_authorization-some :
    (t a b : String)
    → parse_authorization t ≡ some (a, b)
    → (t ≡ "PATCHES-Partner " <+> (a <+> (":" <+> b))) × (is_part a ≡ true) × (is_part b ≡ true)
unfolding parse_authorization
parse_authorization-some t a b h = by_rest (stripped "PATCHES-Partner " t) refl h
  where
    by_rest :
        (o : Option String)
        → stripped "PATCHES-Partner " t ≡ o
        → (elim o [ none ↦ none | some rest ↦ both_parts (split_colon rest) ]) ≡ some (a, b)
        → (t ≡ "PATCHES-Partner " <+> (a <+> (":" <+> b))) × (is_part a ≡ true) × (is_part b ≡ true)
    by_rest none e h = absurd (cc h)
    by_rest (some rest) e h =
        let (split, p, q) = both_parts-some (split_colon rest) a b h in
        (
          stripped-some "PATCHES-Partner " t rest e
              ∙ ap (λ x. "PATCHES-Partner " <+> x) (split_colon-some rest a b split),
          p,
          q,
        )
