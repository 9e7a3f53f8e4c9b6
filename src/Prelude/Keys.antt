-- ===== src/Prelude/Keys.antt =====
-- Composite keys `${a}::${b}`: where the second part has no colon, the parts can be read off.

use Prim.Native.Nat.{ℕ}
use Prim.Native.Char.{Char}
use Prim.Native.String.{String, ◌++◌}
use mathlib.Core.Path.{◌≡◌, refl, sym, ap, ◌∙◌}
use mathlib.Core.Bool.{Bool, true, false, not}
use native.Mathlib.Omega.{arith}
use text.Mathlib.TextLemmas.{nil-append, cons-append, head-eq_of_cons-eq, tail-eq_of_cons-eq}
use arma_partner_api_sandbox.Prelude.Tests.{eqb}
use arma_partner_api_sandbox.Prelude.Lists.{every}
use arma_partner_api_sandbox.Prelude.Text.{codes, is_token_char, matches_class}
use mathlib.Core.List.{List, [], ◌∷◌}

abbrev pub colon : Char
colon = ":"

unfoldable pub joined : String → String → String
joined a b = a ++ "::" ++ b

unfoldable pub is_colon_free : String → Bool
is_colon_free s = every (λ c. not (eqb c b':')) (codes s)

sep-append : (b : String) → "::" ++ b ≡ String.◌∷◌ colon (String.◌∷◌ colon b)
sep-append b = rw (cons-append, cons-append, nil-append)

not-colon_free : (s t : String) → is_colon_free (s ++ String.◌∷◌ colon t) ≡ false
unfolding is_colon_free
not-colon_free String.[] t = rw nil-append refl
not-colon_free (String.◌∷◌ c s) t = rw cons-append (ground (arith, not-colon_free s t))

joined-cons : (c : Char) (a b : String) → joined (String.◌∷◌ c a) b ≡ String.◌∷◌ c (joined a b)
unfolding joined
joined-cons c a b = cons-append c a ("::" ++ b)

joined-nil : (b : String) → joined "" b ≡ String.◌∷◌ colon (String.◌∷◌ colon b)
unfolding joined
joined-nil b = rw nil-append (sep-append b)

not-joined : (a b : String) → is_colon_free (joined a b) ≡ false
unfolding joined
not-joined a b = rw (sep-append b) (not-colon_free a (String.◌∷◌ colon b))

colon_free-cons : (b : String) → is_colon_free (String.◌∷◌ colon b) ≡ false
unfolding is_colon_free
colon_free-cons b = refl

-- `::b` and a key with a longer first part differ, or `b` would hold a colon.
nil_against_cons :
    (b : String) (c : Char) (a b' : String)
    → is_colon_free b ≡ true
    → joined "" b ≡ joined (String.◌∷◌ c a) b'
    → ⊥
nil_against_cons b c String.[] b' f e =
    let e1 = tail-eq_of_cons-eq (sym (joined-nil b) ∙ e ∙ joined-cons c "" b') in
    let e2 = tail-eq_of_cons-eq (e1 ∙ joined-nil b') in
    cc (f, ap is_colon_free e2, colon_free-cons b')
nil_against_cons b c (String.◌∷◌ d a) b' f e =
    let e1 = tail-eq_of_cons-eq (sym (joined-nil b) ∙ e ∙ joined-cons c (String.◌∷◌ d a) b') in
    let e2 = tail-eq_of_cons-eq (e1 ∙ joined-cons d a b') in
    cc (f, ap is_colon_free e2, not-joined a b')

pub joined-injective :
    (a b a' b' : String)
    → is_colon_free b ≡ true
    → is_colon_free b' ≡ true
    → joined a b ≡ joined a' b'
    → (a ≡ a') × (b ≡ b')
joined-injective String.[] b String.[] b' f f' e =
    (refl, tail-eq_of_cons-eq (tail-eq_of_cons-eq (sym (joined-nil b) ∙ e ∙ joined-nil b')))
joined-injective String.[] b (String.◌∷◌ c a') b' f f' e = absurd (nil_against_cons b c a' b' f e)
joined-injective (String.◌∷◌ c a) b String.[] b' f f' e =
    absurd (nil_against_cons b' c a b f' (sym e))
joined-injective (String.◌∷◌ c a) b (String.◌∷◌ c' a') b' f f' e =
    let e1 = sym (joined-cons c a b) ∙ e ∙ joined-cons c' a' b' in
    let (p, q) = joined-injective a b a' b' f f' (tail-eq_of_cons-eq e1) in
    (cc (head-eq_of_cons-eq e1, p), q)

token_char-ne-colon : (c : ℕ) → is_token_char c ≡ true → not (eqb c b':') ≡ true
unfolding is_token_char
token_char-ne-colon c h = ground arith

every-token_char :
    (cs : List ℕ) → every is_token_char cs ≡ true → every (λ c. not (eqb c b':')) cs ≡ true
every-token_char [] h = refl
every-token_char (c ∷ cs) h = ground (arith, token_char-ne-colon c, every-token_char cs)

-- A token of [A-Za-z0-9_-] has no colon.
pub token-colon_free :
    (lo hi : ℕ) (s : String) → matches_class is_token_char lo hi s ≡ true → is_colon_free s ≡ true
unfolding matches_class is_colon_free
token-colon_free lo hi s h = ground (arith, every-token_char (codes s))
