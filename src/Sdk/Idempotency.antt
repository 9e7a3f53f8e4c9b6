-- ===== src/Sdk/Idempotency.antt =====
-- `IdempotencyRegistry` of shared/sdk/idempotency.ts. The clock's value is an argument; a method
-- that writes returns the new registry, and throws before it writes.
pub mod Laws
use arma_partner_api_sandbox.Prelude.{
  ℕ, ◌+◌, String, Bool, true, false, ◌&&◌, Option, none, some, List, [], ◌∷◌, ltb, is_some,
  matches_class, is_token_char, Result, ok, err, guard, ◌>>=◌, ◌>>◌, joined, if◌then◌else◌, not,
  ◌==◌,
}
use arma_partner_api_sandbox.Prelude.Map.{Map, get, set, size}

pub data OutcomeKind : Type 0 where
  success conflict rejected : OutcomeKind

pub record RecordedOutcome : Type 0 where
  pub outcome : OutcomeKind
  pub status : ℕ
  pub body_digest : String
  pub receipt_id : Option String
  pub at : ℕ

pub record Entry : Type 0 where
  pub request_hash : String
  pub outcome : RecordedOutcome
  pub expires_at : ℕ

pub record IdempotencyRegistry : Type 0 where
  pub records : Map Entry
  pub ttl_ms : ℕ

pub data ResolveResult : Type 0 where
  fresh : ResolveResult
  duplicate : RecordedOutcome → ResolveResult
  conflicting : ResolveResult

unfoldable pub composite_key : String → String → Result String
composite_key scope part =
    if scope == "" then err "IDEMPOTENCY_SCOPE_INVALID" else ok (joined scope part)

-- /^[A-Za-z0-9_-]{8,128}$/
unfoldable pub is_valid_key : String → Bool
is_valid_key key = matches_class is_token_char 8 128 key

resolve_found : ℕ → String → Option Entry → ResolveResult
resolve_found now request_hash none = fresh
resolve_found now request_hash (some e) =
    if ltb e.expires_at now
    then fresh
    else if e.request_hash == request_hash
    then duplicate e.outcome
    else conflicting

unfoldable pub resolve : IdempotencyRegistry → ℕ → String → String → String → Result ResolveResult
unfolding resolve_found
resolve r now scope key request_hash =
    if is_valid_key key
    then (do k ← composite_key scope key; ok (resolve_found now request_hash (get k r.records)))
    else ok conflicting

-- `existing && existing.requestHash !== requestHash`
differs : String → Option Entry → Bool
differs request_hash none = false
differs request_hash (some e) = not (e.request_hash == request_hash)

unfoldable pub record_outcome :
    IdempotencyRegistry
    → ℕ
    → String
    → String
    → String
    → RecordedOutcome
    → Result IdempotencyRegistry
unfolding differs
record_outcome r now scope key request_hash outcome = do
  guard (is_valid_key key) "IDEMPOTENCY_KEY_INVALID"
  k ← composite_key scope key
  guard (not (differs request_hash (get k r.records))) "IDEMPOTENCY_RECORD_CONFLICT"
  ok (record r {
    records =
        set k
          (record { request_hash = request_hash; outcome = outcome; expires_at = now + r.ttl_ms })
          r.records;
  })

live : ℕ → Option Entry → Option RecordedOutcome
live now none = none
live now (some e) = if ltb e.expires_at now then none else some e.outcome

unfoldable pub lookup : IdempotencyRegistry → ℕ → String → String → Result (Option RecordedOutcome)
unfolding live
lookup r now scope key = do k ← composite_key scope key; ok (live now (get k r.records))

unfoldable pub registry_size : IdempotencyRegistry → ℕ
registry_size r = size r.records
