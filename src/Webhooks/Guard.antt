-- ===== src/Webhooks/Guard.antt =====
-- `WebhookEventGuard` of shared/webhooks/events.ts: each event once, and the events of a stream in
-- order. The clock's reading is an argument; the detail of a refusal is left out.
pub mod Laws
use arma_partner_api_sandbox.Prelude.{
  ℕ, ◌+◌, ◌-◌, ◌*◌, String, Bool, true, false, not, Option, none, some, is_some, List, [], ◌∷◌, ltb,
  eqb, contains, is_token_char, matches_class, if◌then◌else◌,
}
use arma_partner_api_sandbox.Prelude.Map.{Map, get, set, retain, size}

abbrev pub nonce_window_ms : ℕ
nonce_window_ms = 10 * 60 * 1000

-- `seen_event_ids` is a `Set`, the latest first.
pub record WebhookEventGuard : Type 0 where
  pub seen_nonces : Map ℕ
  pub seen_event_ids : List String
  pub stream_sequence : Map ℕ

pub record WebhookGuardCheckInput : Type 0 where
  pub stream : String
  pub sequence : ℕ
  pub event_id : String
  pub nonce : String

pub data WebhookGuardResult : Type 0 where
  passed malformed nonce_replayed ordering_gap : WebhookGuardResult

unfoldable pub prune : ℕ → WebhookEventGuard → WebhookEventGuard
prune at g = record g {
  seen_nonces = retain (λ seen. not (ltb nonce_window_ms (at - seen))) g.seen_nonces;
}

-- `last !== undefined && sequence !== last + 1`
unfoldable pub is_gap : Option ℕ → ℕ → Bool
is_gap none sequence = false
is_gap (some last) sequence = not (eqb sequence (last + 1))

unfoldable pub consume : WebhookGuardCheckInput → ℕ → WebhookEventGuard → WebhookEventGuard
consume input now g = record g {
  seen_nonces = set input.nonce now g.seen_nonces;
  seen_event_ids = input.event_id ∷ g.seen_event_ids;
  stream_sequence = set input.stream input.sequence g.stream_sequence;
}

-- after the pruning
unfoldable pub check_pruned :
    WebhookGuardCheckInput → ℕ → WebhookEventGuard → WebhookGuardResult × WebhookEventGuard
unfolding is_gap consume
check_pruned input now g =
    if is_some (get input.nonce g.seen_nonces)
    then (nonce_replayed, g)
    else if contains g.seen_event_ids input.event_id
    then (nonce_replayed, g)
    else if is_gap (get input.stream g.stream_sequence) input.sequence
    then (ordering_gap, g)
    else (passed, consume input now g)

unfoldable pub check :
    WebhookGuardCheckInput → ℕ → WebhookEventGuard → WebhookGuardResult × WebhookEventGuard
unfolding check_pruned prune
check input now g =
    if matches_class is_token_char 20 128 input.nonce
    then check_pruned input now (prune now g)
    else (malformed, g)

-- checks one after another, at whatever times
unfoldable pub run : List (WebhookGuardCheckInput × ℕ) → WebhookEventGuard → WebhookEventGuard
unfolding check
run [] g = g
run ((input, now) ∷ rest) g = run rest (check input now g).1
