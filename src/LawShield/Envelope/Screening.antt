-- ===== src/LawShield/Envelope/Screening.antt =====
-- `assertNoExecutableOrAiInstructions` of law-shield/lawshield/_integrationSecurity.js, its forbidden
-- keys and its regular expressions, which ignore the case of ASCII letters.
use arma_partner_api_sandbox.Prelude.{
  ℕ, ◌+◌, String, Bool, true, false, ◌&&◌, ◌||◌, not, Option, none, some, List, [], ◌∷◌, map, ltb,
  eqb, in_range, codes, is_space, Result, ok, guard, ◌>>◌, if◌then◌else◌,
}
use arma_partner_api_sandbox.Prelude.Json.{
  Json, null, bool, num, str, arr, obj, Items, nil, cons, Fields, end, field,
}
use arma_partner_api_sandbox.Governance.Classification.{normalize_key, same_codes}

forbidden_instruction_keys : List String
forbidden_instruction_keys =
    "systemprompt" ∷ "developerprompt" ∷ "toolcall" ∷ "toolcalls" ∷ "execute" ∷ "shellcommand"
    ∷ "command" ∷ "functioncall" ∷ "functioncalls" ∷ "authorizationoverride" ∷ "policyoverride" ∷ []

-- What the expressions are made of: a word, `\s+`, `(word\s+)?`, and `(word|...)`.
pub data Piece : Type 0 where
  word : String → Piece
  gap : Piece
  perhaps : String → Piece
  one_of : List String → Piece

forbidden_instruction_patterns : List (List Piece)
forbidden_instruction_patterns =
    (word "ignore" ∷ gap ∷ perhaps "all" ∷ word "previous" ∷ gap ∷ word "instructions" ∷ [])
    ∷ (word "ignore" ∷ gap ∷ perhaps "all" ∷ word "prior" ∷ gap ∷ word "instructions" ∷ [])
    ∷ (word "reveal" ∷ gap ∷ perhaps "the" ∷ word "system" ∷ gap ∷ word "prompt" ∷ [])
    ∷ (word "bypass" ∷ gap ∷ one_of ("security" ∷ "authorization" ∷ "policy" ∷ "access" ∷ []) ∷ [])
    ∷ (word "disable" ∷ gap ∷ one_of ("audit" ∷ "logging" ∷ "security" ∷ "authorization" ∷ []) ∷ [])
    ∷ (word "grant"
        ∷ gap
        ∷ one_of ("admin" ∷ "administrator" ∷ "root" ∷ "elevated" ∷ [])
        ∷ gap
        ∷ word "access"
        ∷ [])
    ∷ (word "execute"
        ∷ gap
        ∷ perhaps "this"
        ∷ one_of ("tool" ∷ "command" ∷ "shell" ∷ "function" ∷ [])
        ∷ [])
    ∷ []

lower : ℕ → ℕ
lower c = if in_range b'A' b'Z' c then c + 32 else c

-- what follows the word, if the text starts with it
after_word : List ℕ → List ℕ → Option (List ℕ)
after_word [] cs = some cs
after_word (w ∷ ws) [] = none
after_word (w ∷ ws) (c ∷ cs) = let rest = after_word ws cs in if eqb w c then rest else none

skip_spaces : List ℕ → List ℕ
skip_spaces [] = []
skip_spaces (c ∷ cs) = let rest = skip_spaces cs in if is_space c then rest else c ∷ cs

starts_with_space : List ℕ → Bool
starts_with_space [] = false
starts_with_space (c ∷ cs) = is_space c

continued : (List ℕ → Bool) → Option (List ℕ) → Bool
continued rest none = false
continued rest (some cs) = rest cs

-- No space starts what follows a gap, so a gap takes all the spaces there are.
after_gap : (List ℕ → Bool) → List ℕ → Bool
unfolding skip_spaces starts_with_space
after_gap rest cs = starts_with_space cs && rest (skip_spaces cs)

after_one_of : (List ℕ → Bool) → List String → List ℕ → Bool
unfolding continued after_word
after_one_of rest [] cs = false
after_one_of rest (w ∷ ws) cs = continued rest (after_word (codes w) cs) || after_one_of rest ws cs

matches_here : List Piece → List ℕ → Bool
unfolding continued after_word after_gap after_one_of
matches_here [] cs = true
matches_here (word w ∷ ps) cs = continued (matches_here ps) (after_word (codes w) cs)
matches_here (gap ∷ ps) cs = after_gap (matches_here ps) cs
matches_here (perhaps w ∷ ps) cs =
    continued (after_gap (matches_here ps)) (after_word (codes w) cs) || matches_here ps cs
matches_here (one_of ws ∷ ps) cs = after_one_of (matches_here ps) ws cs

-- `pattern.test(text)`
matches_anywhere : List Piece → List ℕ → Bool
unfolding matches_here
matches_anywhere ps [] = matches_here ps []
matches_anywhere ps (c ∷ cs) = matches_here ps (c ∷ cs) || matches_anywhere ps cs

matches_some : List (List Piece) → List ℕ → Bool
unfolding matches_anywhere
matches_some [] cs = false
matches_some (ps ∷ pss) cs = matches_anywhere ps cs || matches_some pss cs

unfoldable pub holds_instruction : String → Bool
unfolding matches_some lower forbidden_instruction_patterns
holds_instruction s = matches_some forbidden_instruction_patterns (map lower (codes s))

is_key_of : List String → List ℕ → Bool
is_key_of [] key = false
is_key_of (k ∷ ks) key = same_codes (codes k) key || is_key_of ks key

unfoldable pub is_instruction_key : String → Bool
unfolding is_key_of forbidden_instruction_keys
is_instruction_key key = is_key_of forbidden_instruction_keys (normalize_key key)

not_too_deep : ℕ → Result (Unit {0})
not_too_deep depth = guard (not (ltb 20 depth)) "PAYLOAD_STRUCTURE_TOO_DEEP"

unfoldable mutual
  unfolding not_too_deep

  pub assert_no_instructions : Json → ℕ → Result (Unit {0})
  assert_no_instructions null depth = not_too_deep depth
  assert_no_instructions (bool b) depth = not_too_deep depth
  assert_no_instructions (num n) depth = not_too_deep depth
  assert_no_instructions (str s) depth =
      not_too_deep depth >> guard (not (holds_instruction s)) "AI_OR_EXECUTABLE_INSTRUCTION_BLOCKED"
  assert_no_instructions (arr vs) depth = not_too_deep depth >> assert_items vs (depth + 1)
  assert_no_instructions (obj fs) depth = not_too_deep depth >> assert_fields fs (depth + 1)

  pub assert_items : Items → ℕ → Result (Unit {0})
  assert_items nil depth = ok tt
  assert_items (cons v vs) depth = assert_no_instructions v depth >> assert_items vs depth

  pub assert_fields : Fields → ℕ → Result (Unit {0})
  assert_fields end depth = ok tt
  assert_fields (field k v fs) depth =
      guard (not (is_instruction_key k)) "AI_OR_EXECUTABLE_INSTRUCTION_BLOCKED"
      >> assert_no_instructions v depth
      >> assert_fields fs depth

-- `assertPayloadSafe`
unfoldable pub assert_payload_safe : Json → Result (Unit {0})
assert_payload_safe payload = assert_no_instructions payload 0
