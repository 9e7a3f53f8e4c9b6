-- ===== src/Prelude/Text.antt =====
-- Text: membership in a set of literals, and the character classes of the regular expressions.
use Prim.Native.Nat.{ℕ, zero, suc, ◌/◌, ◌%◌}
use Prim.Native.Char.{code}
use Prim.Native.String.{String, ◌++◌ as ◌<+>◌}
use mathlib.Core.Path.{◌≡◌}
use mathlib.Core.Logic.{◌≢◌}
use mathlib.Core.Bool.{Bool, true, false, ◌&&◌, ◌||◌, not}
use mathlib.Core.List.{List, [], ◌∷◌}
use native.Mathlib.Omega.{arith}
use text.Mathlib.Text.{◌==◌}
use text.Mathlib.TextEquality.{eq_iff}
use arma_partner_api_sandbox.Prelude.Tests.{ltb, leb, eqb, if◌then◌else◌}
use arma_partner_api_sandbox.Prelude.Lists.{length, every}

-- `new Set([...]).has(s)` and `[...].includes(s)`
unfoldable pub contains : List String → String → Bool
contains [] s = false
contains (x ∷ xs) s = x == s || contains xs s

-- Two literal sets with no common member, decided by running the test.
pub contains_disjoint :
    (xs ys : List String)
    → every (λ x. not (contains ys x)) xs ≡ true
    → (s : String) → contains xs s ≡ true
    → contains ys s ≡ false
unfolding contains
contains_disjoint [] ys h s m = ground arith
contains_disjoint (x ∷ xs) ys h s m =
    ground (arith, eq_iff x s, contains_disjoint xs ys (ground arith) s)

abbrev pub codes : String → List ℕ
codes String.[] = []
codes (String.◌∷◌ c s) = code c ∷ codes s

abbrev pub in_range : ℕ → ℕ → ℕ → Bool
in_range lo hi c = leb lo c && leb c hi

-- [A-Za-z0-9]
unfoldable pub is_alnum : ℕ → Bool
is_alnum c = in_range b'A' b'Z' c || in_range b'a' b'z' c || in_range b'0' b'9' c

-- [A-Za-z0-9_-]
unfoldable pub is_token_char : ℕ → Bool
unfolding is_alnum
is_token_char c = is_alnum c || eqb c b'_' || eqb c b'-'

-- `^[class]{lo,hi}$`
unfoldable pub matches_class : (ℕ → Bool) → ℕ → ℕ → String → Bool
matches_class p lo hi s = let cs = codes s in every p cs && in_range lo hi (length cs)

-- [0-9a-f]
unfoldable pub is_hex : ℕ → Bool
is_hex c = in_range b'0' b'9' c || in_range b'a' b'f' c

-- /^[0-9a-f]{64}$/
unfoldable pub is_sha256_hex : String → Bool
unfolding matches_class is_hex
is_sha256_hex = matches_class is_hex 64 64

-- [A-Za-z0-9._-] and [A-Za-z0-9_.:-]
unfoldable pub is_id_char : ℕ → Bool
unfolding is_token_char
is_id_char c = is_token_char c || eqb c b'.'

unfoldable pub is_stream_char : ℕ → Bool
unfolding is_id_char
is_stream_char c = is_id_char c || eqb c b':'

-- `^[first][rest]{lo,hi}$`
unfoldable pub matches_head : (ℕ → Bool) → (ℕ → Bool) → ℕ → ℕ → String → Bool
matches_head p q lo hi String.[] = false
matches_head p q lo hi (String.◌∷◌ c s) =
    let cs = codes s in p (code c) && every q cs && in_range lo hi (length cs)

-- Two texts that a run tells apart.
pub eq_ne : (a b : String) → (a == b) ≡ false → a ≢ b
eq_ne a b e h = absurd (cc ((eq_iff a b).1 h, e))

-- The white space of `trim` and of `\s` in the regular expressions.
unfoldable pub is_space : ℕ → Bool
is_space c =
    in_range 9 13 c
    || eqb c 32
    || eqb c 160
    || eqb c 5760
    || in_range 8192 8202 c
    || in_range 8232 8233 c
    || eqb c 8239
    || eqb c 8287
    || eqb c 12288
    || eqb c 65279

-- `!s.trim()`
unfoldable pub is_blank : String → Bool
unfolding is_space
is_blank s = every is_space (codes s)

digit_at : List String → ℕ → String
digit_at [] n = ""
digit_at (d ∷ ds) zero = d
digit_at (d ∷ ds) (suc n) = digit_at ds n

abbrev digits : List String
digits = "0" ∷ "1" ∷ "2" ∷ "3" ∷ "4" ∷ "5" ∷ "6" ∷ "7" ∷ "8" ∷ "9" ∷ []

decimal_within : ℕ → ℕ → String
unfolding digit_at
decimal_within zero n = ""
decimal_within (suc fuel) n =
    let rest = decimal_within fuel (n / 10) in
    if ltb n 10 then digit_at digits n else rest <+> digit_at digits (n % 10)

-- `String(n)`; the fuel is more than the number of digits.
unfoldable pub decimal : ℕ → String
unfolding decimal_within
decimal n = decimal_within (suc n) n
