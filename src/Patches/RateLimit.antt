-- ===== src/Patches/RateLimit.antt =====
-- `TokenBucketRateLimiter` of patches/lib/rateLimit.ts. Tokens are counted in thousandths, in which
-- the refill of whole milliseconds at a whole rate is exact; the rounding of doubles is left out.
pub mod Laws
use arma_partner_api_sandbox.Prelude.{
  ℕ, suc, ◌+◌, ◌-◌, ◌*◌, ◌/◌, String, Bool, true, false, Option, none, some, ltb, if◌then◌else◌,
}
use Prim.Native.Nat.{min}
use arma_partner_api_sandbox.Prelude.Map
use arma_partner_api_sandbox.Prelude.Map.{Map, get, set, delete}

pub record Bucket : Type 0 where
  pub tokens : ℕ
  pub last_refill_at : ℕ

pub record RateLimiter : Type 0 where
  pub capacity : ℕ
  pub refill_per_second : ℕ
  pub buckets : Map Bucket

pub record Decision : Type 0 where
  pub allowed : Bool
  pub remaining : ℕ
  pub retry_after_ms : Option ℕ

bucket_or : Bucket → Option Bucket → Bucket
bucket_or fresh none = fresh
bucket_or fresh (some b) = b

-- `Math.max(0, …)` is the subtraction of natural numbers
unfoldable pub refilled : RateLimiter → ℕ → Option Bucket → ℕ
unfolding bucket_or
refilled l now found =
    let b = bucket_or (record { tokens = l.capacity * 1000; last_refill_at = now }) found in
    min (l.capacity * 1000) (b.tokens + (now - b.last_refill_at) * l.refill_per_second)

-- `Math.ceil` of a quotient; with no refill the program's quotient is infinite, and this one 0
unfoldable pub ceil_div : ℕ → ℕ → ℕ
ceil_div a b = (a + b - 1) / b

store_bucket : RateLimiter → String → ℕ → ℕ → RateLimiter
store_bucket l client_id tokens now = record l {
  buckets = set client_id (record { tokens = tokens; last_refill_at = now }) l.buckets;
}

unfoldable pub check : RateLimiter → ℕ → String → RateLimiter × Decision
unfolding refilled store_bucket
check l now client_id =
    let tokens = refilled l now (get client_id l.buckets) in
    if ltb tokens 1000
    then (
      store_bucket l client_id tokens now,
      record {
        allowed = false;
        remaining = tokens / 1000;
        retry_after_ms = some (ceil_div (1000 - tokens) l.refill_per_second);
      },
    )
    else (
      store_bucket l client_id (tokens - 1000) now,
      record { allowed = true; remaining = (tokens - 1000) / 1000; retry_after_ms = none },
    )

unfoldable pub reset : RateLimiter → Option String → RateLimiter
reset l none = record l { buckets = Map.empty }
reset l (some client_id) = record l { buckets = delete client_id l.buckets }
