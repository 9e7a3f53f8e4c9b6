-- ===== src/Sdk/Retries/Laws.antt =====
-- What the retry policy of shared/sdk/retries.ts guarantees.
use arma_partner_api_sandbox.Prelude.{
  ℕ, drop, zero, suc, ◌+◌, ◌≤◌, ◌<◌, ◌≡◌, refl, ◌↔◌, String, true, false, Option, none, some, List,
  [], ◌∷◌, arith, contains, contains_disjoint, get_elem?, length, leb, Bool-cases, inl, inr,
}
use mathlib.Core.Option
use arma_partner_api_sandbox.Sdk.Retries.{
  Allowed, allowed, refused, compute_backoff, can_auto_retry, classify, to_failure,
  clean_retryable_codes, ambiguous_retry_codes,
}

get_elem?-some :
    {A : Type 0} (xs : List A) (i : ℕ) → i < length xs → (x : A) × (get_elem? xs i ≡ some x)
get_elem?-some [] i h = elim h [ ]
get_elem?-some (x ∷ xs) zero h = (x, refl)
get_elem?-some (x ∷ xs) (suc i) h = get_elem?-some xs i (omega arith)

get_elem?-lt : {A : Type 0} (xs : List A) (i : ℕ) (x : A) → get_elem? xs i ≡ some x → i < length xs
get_elem?-lt [] i x h = ground arith
get_elem?-lt (y ∷ xs) zero x h = omega arith
get_elem?-lt (y ∷ xs) (suc i) x h = omega (arith, get_elem?-lt xs i x h)

-- A retry is granted exactly when the schedule has an entry for the attempts made so far; the
-- entry is its delay, the attempts go up by one, and the retry time is the clock plus the delay.
pub compute_backoff-allowed_iff :
    (schedule : List ℕ) (now attempts : ℕ) (a : Allowed)
    → (compute_backoff schedule now attempts ≡ allowed a) ↔ (
        (get_elem? schedule attempts ≡ some a.delay_ms)
        × (a.next_attempt ≡ attempts + 1)
        × (a.retry_at ≡ now + a.delay_ms))
unfolding compute_backoff
compute_backoff-allowed_iff schedule now attempts a =
    (λ h. ground (arith), λ h. ground (arith, get_elem?-lt schedule attempts a.delay_ms))

-- The delays that the policy grants to a driver that asks again with `next_attempt` until it is
-- refused; `none` means that it was not refused within the fuel.
unfoldable pub drive : List ℕ → ℕ → ℕ → ℕ → Option (List ℕ)
drive schedule now zero attempts = none
drive schedule now (suc fuel) attempts = elim (compute_backoff schedule now attempts) [
  | allowed a ↦ Option.map (λ ds. a.delay_ms ∷ ds) (drive schedule now fuel a.next_attempt)
  | refused _ ↦ some []
]

drop-get_elem? :
    (xs : List ℕ) (k : ℕ) (x : ℕ) → get_elem? xs k ≡ some x → drop k xs ≡ x ∷ drop (k + 1) xs
drop-get_elem? [] k x h = ground arith
drop-get_elem? (y ∷ xs) zero x h = ground arith
drop-get_elem? (y ∷ xs) (suc k) x h = ground (arith, drop-get_elem? xs k x)

drop_all : (xs : List ℕ) (k : ℕ) → length xs ≤ k → drop k xs ≡ []
drop_all [] zero h = refl
drop_all [] (suc k) h = refl
drop_all (x ∷ xs) zero h = absurd (omega arith)
drop_all (x ∷ xs) (suc k) h = drop_all xs k (omega arith)

drive-from :
    (schedule : List ℕ) (now fuel k : ℕ)
    → k ≤ length schedule
    → length schedule < fuel + k
    → drive schedule now fuel k ≡ some (drop k schedule)
unfolding drive compute_backoff
drive-from schedule now zero k room h = absurd (omega arith)
drive-from schedule now (suc fuel) k room h = elim (Bool-cases (leb (length schedule) k)) [
  | inl done ↦ ground (arith, drop_all schedule k)
  | inr more ↦
      let (d, found) = get_elem?-some schedule k (ground arith) in
      ground (
        arith,
        found,
        drop-get_elem? schedule k d,
        drive-from schedule now fuel (k + 1) (ground arith) (omega arith),
      )
]

-- With more fuel than the schedule has entries, a driver that starts at no attempts is granted
-- exactly the delays of the schedule, in order, and is then refused.
pub drive-eq-schedule :
    (schedule : List ℕ) (now fuel : ℕ)
    → length schedule < fuel
    → drive schedule now fuel 0 ≡ some schedule
drive-eq-schedule schedule now fuel h = drive-from schedule now fuel 0 (omega arith) (omega arith)

-- An outcome that a failure code classifies is retried automatically exactly when the code is one
-- of the clean-retryable codes; no ambiguous code is.
pub can_auto_retry-classify_iff :
    (code : String)
    → ((can_auto_retry (to_failure (classify code)) ≡ true)
        ↔ (contains clean_retryable_codes code ≡ true))
      × (contains ambiguous_retry_codes code ≡ true
          → can_auto_retry (to_failure (classify code)) ≡ false)
unfolding can_auto_retry classify
can_auto_retry-classify_iff code = (
  ground arith,
  λ h. ground (
    arith,
    contains_disjoint ambiguous_retry_codes clean_retryable_codes (unfold contains in refl) code,
  ),
)
