-- ===== src/Sdk/Idempotency/Laws.antt =====
-- What the idempotency registry of shared/sdk/idempotency.ts promises.
use arma_partner_api_sandbox.Prelude.{
  ℕ, ◌+◌, ◌≡◌, ◌≢◌, ◌⊎◌, ◌<◌, String, true, false, some, ltb, arith, ok, err, eq_iff, eq_refl,
  joined, joined-injective, token-colon_free, if◌then◌else◌, ◌==◌, Bool-cases, inl, inr,
}
use arma_partner_api_sandbox.Prelude.Map.{get, set, get-set}
use arma_partner_api_sandbox.Sdk.Idempotency.{
  IdempotencyRegistry, RecordedOutcome, Entry, fresh, duplicate, conflicting, composite_key,
  is_valid_key, resolve, record_outcome,
}

-- What a write put where.
record Written (r : IdempotencyRegistry) (now : ℕ) (scope key hash : String) (o : RecordedOutcome)
    (r' : IdempotencyRegistry) : Type 0 where
  valid : is_valid_key key ≡ true
  scoped : (scope == "") ≡ false
  records :
      r'.records
      ≡ set
          (joined scope key)
          (record { request_hash = hash; outcome = o; expires_at = now + r.ttl_ms })
          r.records

record_outcome-Written :
    (r : IdempotencyRegistry) (now : ℕ) (scope key hash : String) (o : RecordedOutcome)
    (r' : IdempotencyRegistry)
    → record_outcome r now scope key hash o ≡ ok r'
    → Written r now scope key hash o r'
unfolding record_outcome composite_key
record_outcome-Written r now scope key hash o r' h = record {
  valid = ground arith;
  scoped = ground arith;
  records = ground arith;
}

-- After an outcome is recorded, resolving the same scope and key collapses the same request to
-- that outcome and refuses another one, up to and including the expiry time; after it the key is
-- fresh again.
pub resolve-record_outcome :
    (r : IdempotencyRegistry) (now : ℕ) (scope key hash : String) (o : RecordedOutcome)
    (r' : IdempotencyRegistry) (later : ℕ) (hash' : String)
    → record_outcome r now scope key hash o ≡ ok r'
    → resolve r' later scope key hash'
      ≡ ok (
          if ltb (now + r.ttl_ms) later
          then fresh
          else if hash == hash'
          then duplicate o
          else conflicting)
unfolding resolve composite_key
resolve-record_outcome r now scope key hash o r' later hash' h =
    let w = record_outcome-Written r now scope key hash o r' h in
    rw (w.valid, w.scoped, w.records, get-set, eq_refl) (ground arith)

joined-eq-false :
    (scope key scope' key' : String)
    → is_valid_key key ≡ true
    → is_valid_key key' ≡ true
    → (scope ≢ scope') ⊎ (key ≢ key')
    → (joined scope key == joined scope' key') ≡ false
unfolding is_valid_key
joined-eq-false scope key scope' key' v v' d =
    elim (Bool-cases (joined scope key == joined scope' key')) [
      | inl same ↦
          let (p, q) =
            joined-injective scope key scope' key' (token-colon_free 8 128 key v)
              (token-colon_free 8 128 key' v') ((eq_iff _ _).0 same) in
          elim d [ inl ne ↦ absurd (ne p) | inr ne ↦ absurd (ne q) ]
      | inr other ↦ other
    ]

-- A record under one scope and key changes the answer for no other: the composite keys of different
-- pairs differ, although a scope may itself hold the separator.
pub resolve-record_outcome_ne :
    (r : IdempotencyRegistry) (now : ℕ) (scope key hash : String) (o : RecordedOutcome)
    (r' : IdempotencyRegistry) (later : ℕ) (scope' key' hash' : String)
    → record_outcome r now scope key hash o ≡ ok r'
    → (scope ≢ scope') ⊎ (key ≢ key')
    → resolve r' later scope' key' hash' ≡ resolve r later scope' key' hash'
unfolding resolve composite_key
resolve-record_outcome_ne r now scope key hash o r' later scope' key' hash' h d =
    let w = record_outcome-Written r now scope key hash o r' h in
    elim (Bool-cases (is_valid_key key')) [
      | inl v ↦ ground (
        arith,
        w.records,
        get-set (joined scope key) (joined scope' key')
            (record { request_hash = hash; outcome = o; expires_at = now + r.ttl_ms }) r.records,
        joined-eq-false scope key scope' key' w.valid v d,
      )
      | inr bad ↦ ground (arith, bad)
    ]

-- Once the entry of a key has expired, a different request under that key is resolved as fresh and
-- can still not be recorded: the record is refused as a conflict.
pub expired_key_unrecordable :
    (r : IdempotencyRegistry) (now : ℕ) (scope key hash : String) (o : RecordedOutcome) (e : Entry)
    → is_valid_key key ≡ true
    → scope ≢ ""
    → get (joined scope key) r.records ≡ some e
    → e.expires_at < now
    → e.request_hash ≢ hash
    → (resolve r now scope key hash ≡ ok fresh)
      × (record_outcome r now scope key hash o ≡ err "IDEMPOTENCY_RECORD_CONFLICT")
unfolding resolve record_outcome composite_key
expired_key_unrecordable r now scope key hash o e v s g x d = (
  ground (arith, eq_iff scope "", eq_iff e.request_hash hash),
  ground (arith, eq_iff scope "", eq_iff e.request_hash hash),
)
