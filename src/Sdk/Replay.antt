-- ===== src/Sdk/Replay.antt =====
-- `ReplayGuard` of shared/sdk/idempotency.ts. `seed` and `entries`, which only tests call, are left
-- out.
pub mod Laws
pub mod Collisions
use arma_partner_api_sandbox.Prelude.{
  ℕ, ◌+◌, String, Bool, true, false, Option, none, some, List, [], ◌∷◌, ltb, leb, not, Result, ok,
  err, ◌>>=◌, if◌then◌else◌,
}
use arma_partner_api_sandbox.Prelude.Map.{Map, get, set, delete, retain, size}
use arma_partner_api_sandbox.Sdk.Idempotency.{composite_key}

abbrev pub replay_window_ms : ℕ
replay_window_ms = 600000

pub record NonceRecord : Type 0 where
  pub first_seen_at : ℕ
  pub first_seen_request_id : Option String

pub record ReplayGuard : Type 0 where
  pub nonces : Map NonceRecord
  pub window_ms : ℕ

pub data ReplayResult : Type 0 where
  accepted : ReplayResult
  replayed : NonceRecord → ReplayResult

-- `now - firstSeenAt <= windowMs`; the difference may be negative, so the sum stands on the right
in_window : ℕ → ℕ → NonceRecord → Bool
in_window window now n = leb now (n.first_seen_at + window)

consume : ReplayGuard → ℕ → String → Option String → ReplayGuard
consume g now key request_id = record g {
  nonces = set key (record { first_seen_at = now; first_seen_request_id = request_id }) g.nonces;
}

check_found :
    ReplayGuard → ℕ → String → Option String → Option NonceRecord → ReplayGuard × ReplayResult
unfolding in_window consume
check_found g now key request_id none = (consume g now key request_id, accepted)
check_found g now key request_id (some n) =
    if in_window g.window_ms now n
    then (g, replayed n)
    else (consume (record g { nonces = delete key g.nonces }) now key request_id, accepted)

unfoldable pub check :
    ReplayGuard → ℕ → String → String → Option String → Result (ReplayGuard × ReplayResult)
unfolding check_found
check g now scope nonce request_id = do
  key ← composite_key scope nonce
  ok (check_found g now key request_id (get key g.nonces))

-- `firstSeenAt < now - windowMs` deletes
unfoldable pub prune : ReplayGuard → ℕ → ReplayGuard × ℕ
prune g now =
    let kept = retain (λ n. not (ltb (n.first_seen_at + g.window_ms) now)) g.nonces in
    (record g { nonces = kept }, size kept)

-- The guard's uses, each with the clock's value; a use that throws leaves the guard as it was.
pub data Use : Type 0 where
  check_at : ℕ → String → String → Option String → Use
  prune_at : ℕ → Use

abbrev after_check : ReplayGuard → Result (ReplayGuard × ReplayResult) → ReplayGuard
after_check g (ok (g', r)) = g'
after_check g (err e) = g

unfoldable pub step : ReplayGuard → Use → ReplayGuard
unfolding prune check
step g (check_at now scope nonce id) = after_check g (check g now scope nonce id)
step g (prune_at now) = (prune g now).0

unfoldable pub run : ReplayGuard → List Use → ReplayGuard
run g [] = g
run g (u ∷ us) = run (step g u) us
