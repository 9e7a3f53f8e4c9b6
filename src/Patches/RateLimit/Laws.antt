-- ===== src/Patches/RateLimit/Laws.antt =====
-- The rate that the token bucket of patches/lib/rateLimit.ts enforces.

use arma_partner_api_sandbox.Prelude.{
  ℕ, ◌+◌, ◌-◌, ◌*◌, ◌≤◌, ◌≡◌, String, Option, none, some, List, [], ◌∷◌, ltb, if◌then◌else◌, arith,
  ◌==◌, eq_iff, ap, Bool-cases, inl, inr,
}
use arma_partner_api_sandbox.Prelude.Map.{get, get-set}
use arma_partner_api_sandbox.Patches.RateLimit.{Bucket, RateLimiter, refilled, check}

-- What a check leaves in the client's bucket.
unfoldable pub after : RateLimiter → ℕ → Option Bucket → ℕ
after l now found =
    let tokens = refilled l now found in if ltb tokens 1000 then tokens else tokens - 1000

pub get-check :
    (l : RateLimiter) (now : ℕ) (c j : String)
    → get j (check l now c).0.buckets ≡ (
        if c == j
        then some (record { tokens = after l now (get c l.buckets); last_refill_at = now })
        else get j l.buckets)
unfolding check after
get-check l now c j = elim (Bool-cases (ltb (refilled l now (get c l.buckets)) 1000)) [
  | inl low ↦ rw low (get-set _ _ _ _)
  | inr high ↦ rw high (get-set _ _ _ _)
]

mul_split : (a b c r : ℕ) → a ≤ b → b ≤ c → (c - a) * r ≡ (c - b) * r + (b - a) * r
mul_split a b c r h k =
    let e : c - a ≡ (c - b) + (b - a) = omega arith in omega (arith, ap (λ (t : ℕ). t * r) e)

-- Calls of `check`, each with the clock's value and the client.
abbrev pub Calls : Type 0
Calls = List (ℕ × String)

-- How many of the calls are allowed for the client `c`.
unfoldable pub allowed_for : RateLimiter → String → Calls → ℕ
allowed_for l c [] = 0
allowed_for l c ((now, j) ∷ calls) =
    let (l', d) = check l now j in
    (if j == c then (if d.allowed then 1 else 0) else 0) + allowed_for l' c calls

-- The clock does not go back.
abbrev pub IsMonotone : ℕ → Calls → Type 0
IsMonotone t [] = Unit
IsMonotone t ((now, _) ∷ calls) = (t ≤ now) × IsMonotone now calls

abbrev pub last_time : ℕ → Calls → ℕ
last_time t [] = t
last_time t ((now, _) ∷ calls) = last_time now calls

le-last_time : (t : ℕ) (calls : Calls) → IsMonotone t calls → t ≤ last_time t calls
le-last_time t [] m = omega arith
le-last_time t ((now, j) ∷ calls) (h, m) = omega (arith, le-last_time now calls m)

-- What the bucket may hold at a time, the capacity aside.
level : RateLimiter → ℕ → Option Bucket → ℕ
level l t none = l.capacity * 1000
level l t (some b) = b.tokens + (t - b.last_refill_at) * l.refill_per_second

IsPast : ℕ → Option Bucket → Type 0
IsPast t none = Unit
IsPast t (some b) = b.last_refill_at ≤ t

level-later :
    (l : RateLimiter) (t now : ℕ) (found : Option Bucket)
    → IsPast t found
    → t ≤ now
    → level l now found ≤ level l t found + (now - t) * l.refill_per_second
unfolding level IsPast
level-later l t now none p h = omega arith
level-later l t now (some b) p h =
    omega (arith, mul_split b.last_refill_at t now l.refill_per_second p h)

refilled-le-level :
    (l : RateLimiter) (now : ℕ) (found : Option Bucket) → refilled l now found ≤ level l now found
unfolding level refilled
refilled-le-level l now none = omega arith
refilled-le-level l now (some b) = omega arith

-- A check spends what it allows.
check-spends :
    (l : RateLimiter) (now : ℕ) (c : String)
    → after l now (get c l.buckets) + 1000 * (if (check l now c).1.allowed then 1 else 0)
      ≡ refilled l now (get c l.buckets)
unfolding check after
check-spends l now c = elim (Bool-cases (ltb (refilled l now (get c l.buckets)) 1000)) [
  | inl low ↦ rw low (omega arith)
  | inr high ↦ rw high (ground arith)
]

pub check-settings :
    (l : RateLimiter) (now : ℕ) (c : String)
    → ((check l now c).0.capacity ≡ l.capacity)
      × ((check l now c).0.refill_per_second ≡ l.refill_per_second)
unfolding check
check-settings l now c = ground arith

IsPast-later : (t now : ℕ) (found : Option Bucket) → IsPast t found → t ≤ now → IsPast now found
unfolding IsPast
IsPast-later t now none p h = tt
IsPast-later t now (some b) p h = omega arith

level-settings :
    (l l' : RateLimiter) (t : ℕ) (found : Option Bucket)
    → l'.capacity ≡ l.capacity
    → l'.refill_per_second ≡ l.refill_per_second
    → level l' t found ≡ level l t found
unfolding level
level-settings l l' t none c r = cc
level-settings l l' t (some b) c r = cc

level-spent :
    (l : RateLimiter) (now n : ℕ)
    → level l now (some (record { tokens = n; last_refill_at = now })) ≡ n
unfolding level
level-spent l now n = let e : now - now ≡ 0 = omega arith in rw e (omega arith)

IsPast-spent : (now n : ℕ) → IsPast now (some (record { tokens = n; last_refill_at = now }))
unfolding IsPast
IsPast-spent now n = omega arith

paid : RateLimiter → ℕ → String → String → ℕ
paid l now j c = if j == c then (if (check l now j).1.allowed then 1 else 0) else 0

check-level :
    (l : RateLimiter) (now : ℕ) (j c : String)
    → level (check l now j).0 now (get c (check l now j).0.buckets) + 1000 * paid l now j c
      ≤ level l now (get c l.buckets)
unfolding paid
check-level l now j c = elim (Bool-cases (j == c)) [
  | inl same ↦
      rw (get-check l now j c, same, level-spent)
        (rw (← (eq_iff j c).0 same)
          (omega (arith, check-spends l now j, refilled-le-level l now (get j l.buckets))))
  | inr other ↦
      rw (get-check l now j c, other)
        (omega (
          arith,
          level-settings l (check l now j).0 now (get c l.buckets) (check-settings l now j).0
              (check-settings l now j).1,
        ))
]

IsPast-check :
    (l : RateLimiter) (t now : ℕ) (j c : String)
    → IsPast t (get c l.buckets)
    → t ≤ now
    → IsPast now (get c (check l now j).0.buckets)
IsPast-check l t now j c p h = elim (Bool-cases (j == c)) [
  | inl same ↦ rw (get-check l now j c, same) (IsPast-spent now (after l now (get j l.buckets)))
  | inr other ↦ rw (get-check l now j c, other) (IsPast-later t now (get c l.buckets) p h)
]

allowed_for-le-level :
    (l : RateLimiter) (c : String) (t : ℕ) (calls : Calls)
    → IsPast t (get c l.buckets)
    → IsMonotone t calls
    → 1000 * allowed_for l c calls
      ≤ level l t (get c l.buckets) + (last_time t calls - t) * l.refill_per_second
unfolding allowed_for paid
allowed_for-le-level l c t [] p m = omega arith
allowed_for-le-level l c t ((now, j) ∷ calls) p (h, m) =
    let l' = (check l now j).0 in
    let refill = (check-settings l now j).1 in
    omega (
      arith,
      mul_split t now (last_time now calls) l.refill_per_second h (le-last_time now calls m),
      ap (λ (r : ℕ). (last_time now calls - now) * r) refill,
      check-level l now j c,
      level-later l t now (get c l.buckets) p h,
      allowed_for-le-level l' c now calls (IsPast-check l t now j c p h) m,
    )

-- However the calls of other clients are mixed in, a client with no bucket yet is allowed, over
-- calls whose times do not go back, at most the capacity and what the rate refills from a time not
-- later than the first call to the last call.
pub allowed_for_bound :
    (l : RateLimiter) (c : String) (t : ℕ) (calls : Calls)
    → get c l.buckets ≡ none
    → IsMonotone t calls
    → 1000 * allowed_for l c calls
      ≤ l.capacity * 1000 + (last_time t calls - t) * l.refill_per_second
unfolding level IsPast
allowed_for_bound l c t calls new m =
    let h = allowed_for-le-level l c t calls (rw new tt) m in rw new at h
