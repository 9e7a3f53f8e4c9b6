-- ===== src/Sdk/Replay/Collisions.antt =====
-- Composite keys of the guard of shared/sdk/idempotency.ts: nonces are not checked for the separator.
use text.Mathlib.TextLemmas.{append_assoc}
use arma_partner_api_sandbox.Prelude.{ℕ, ◌+◌, ◌≡◌, ◌≢◌, ◌≤◌, String, Option, joined, ok}
use arma_partner_api_sandbox.Sdk.Replay.{ReplayGuard, accepted, replayed, check}
use arma_partner_api_sandbox.Sdk.Replay.Laws.{check-Holds, check_held}

joined_assoc : (a b c : String) → joined (joined a b) c ≡ joined a (joined b c)
unfolding joined
joined_assoc a b c = rw (append_assoc, append_assoc)

-- A nonce let through for the scope `a::b` is burnt for the scope `a` under the nonce `b::c` as well:
-- within the window the guard refuses it there although it was never presented there.
pub check-shared_key :
    (g : ReplayGuard) (at : ℕ) (a b c : String) (id : Option String) (g' : ReplayGuard) (now : ℕ)
    (id' : Option String)
    → check g at (joined a b) c id ≡ ok (g', accepted)
    → a ≢ ""
    → now ≤ at + g.window_ms
    → check g' now a (joined b c) id'
      ≡ ok (g', replayed (record { first_seen_at = at; first_seen_request_id = id }))
check-shared_key g at a b c id g' now id' h s t =
    check_held g' now a (joined b c) id' g.window_ms
      (record { first_seen_at = at; first_seen_request_id = id }) s
      (rw (← joined_assoc a b c) (check-Holds g at (joined a b) c id g' h)) t
