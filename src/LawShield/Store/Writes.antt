-- ===== src/LawShield/Store/Writes.antt =====
-- The registries, records and the audit trail of law-shield/lawshield/durable/store.js. The clock's
-- reading (`Date.now()`) is an argument, `clock`.
pub mod Effects
use arma_partner_api_sandbox.Prelude.{
  ℕ, ◌+◌, ◌-◌, ◌*◌, String, Bool, true, false, Option, none, some, List, [], ◌∷◌, ◌++◌, ltb, not,
  ◌&&◌, ◌||◌, ◌==◌, joined, keep, is_token_char, matches_class, if◌then◌else◌,
}
use arma_partner_api_sandbox.Prelude.Map.{get, set, retain}
use arma_partner_api_sandbox.Prelude.Json.{Json, null}
use arma_partner_api_sandbox.LawShield.Store.{
  Store, NonceRecord, Decision, accepted, rejected, quarantined, Binding, TransferInput, Transfer,
  Receipt, AuditEntry, AuditEvent, FailPoints,
}
use arma_partner_api_sandbox.LawShield.Store.Exec.{Exec, ◌>>◌, pure, throw, modify}
use arma_partner_api_sandbox.LawShield.Store.Sanitize.{sanitize_detail}

-- 5 minutes, and twice that
abbrev pub max_clock_skew_ms : ℕ
max_clock_skew_ms = 300000

abbrev pub nonce_validity_window_ms : ℕ
nonce_validity_window_ms = 2 * max_clock_skew_ms

-- `_triggerFailPoint`
unfoldable pub trigger_fail_point : (FailPoints → Bool) → String → Exec (Unit {0})
trigger_fail_point point message s = if point s.fail_points then throw message s else pure tt s

-- /^[A-Za-z0-9_-]{20,128}$/
unfoldable pub is_nonce : String → Bool
unfolding matches_class
is_nonce = matches_class is_token_char 20 128

unfoldable pub prune : ℕ → Store → Store
prune at s = record s { nonces = retain (λ r. not (ltb r.window_ms (at - r.seen_at))) s.nonces }

unfoldable pub register_found : String → NonceRecord → Option NonceRecord → Exec (Unit {0})
register_found key r (some existing) = throw "REPLAYED_NONCE"
register_found key r none = modify λ s. record s { nonces = set key r s.nonces }

-- The window is the default one; what the error says of the first use is not read by its callers.
unfoldable pub register_nonce : String → String → String → ℕ → Exec (Unit {0})
unfolding register_found
register_nonce schema_version nonce transfer_id at s =
    if schema_version == ""
    then throw "INVALID_NONCE_REGISTRY_INPUT" s
    else if not (is_nonce nonce)
    then throw "INVALID_NONCE" s
    else let pruned = prune at s in
      register_found (joined schema_version nonce)
        (record {
          schema_version = schema_version;
          nonce = nonce;
          transfer_id = transfer_id;
          seen_at = at;
          window_ms = nonce_validity_window_ms;
        })
        (get (joined schema_version nonce) pruned.nonces) pruned

unfoldable pub get_nonce_record : Store → String → String → Option NonceRecord
get_nonce_record s schema_version nonce = get (joined schema_version nonce) s.nonces

-- What `resolveIdempotencyKey` returns (`null` or the binding), or throws: the binding in conflict.
pub data Resolution : Type 0 where
  first_use : Resolution
  duplicate conflicting : Binding → Resolution

unfoldable pub resolve_found : String → String → Option Binding → Resolution
resolve_found transfer_id payload_hash none = first_use
resolve_found transfer_id payload_hash (some b) =
    if not (b.transfer_id == transfer_id) || not (b.payload_hash == payload_hash)
    then conflicting b
    else duplicate b

unfoldable pub resolve_idempotency_key : Store → String → String → String → String → Resolution
resolve_idempotency_key s schema_version idempotency_key transfer_id payload_hash =
    resolve_found transfer_id payload_hash
      (get (joined schema_version idempotency_key) s.idempotency)

unfoldable pub bind_found : String → Binding → Option Binding → Exec Binding
bind_found key b (some existing) = pure existing
bind_found key b none = do
  modify λ s. record s {
    idempotency = set key b s.idempotency;
    transfers_by_idempotency = set key b.transfer_id s.transfers_by_idempotency;
  }
  pure b

-- The first binding wins.
unfoldable pub bind_idempotency_key : Binding → Exec Binding
unfolding bind_found
bind_idempotency_key b s =
    let key = joined b.schema_version b.idempotency_key in
    bind_found key b (get key s.idempotency) s

unfoldable pub get_idempotency_binding : Store → String → String → Option Binding
get_idempotency_binding s schema_version idempotency_key =
    get (joined schema_version idempotency_key) s.idempotency

unfoldable pub same_decision : Decision → Decision → Bool
same_decision accepted accepted = true
same_decision rejected rejected = true
same_decision quarantined quarantined = true
same_decision _ _ = false

unfoldable pub create_found : TransferInput → ℕ → Option Transfer → Exec Transfer
create_found i clock (some existing) =
    if existing.payload_hash == i.payload_hash && same_decision existing.status i.status
    then pure existing
    else throw "TRANSFER_ALREADY_PROCESSED"
create_found i clock none =
    let t : Transfer = record { input = i; created_at = clock; updated_at = clock } in
    do modify λ s. record s { transfers = set i.transfer_id t s.transfers }; pure t

unfoldable pub create_durable_transfer : TransferInput → ℕ → Exec Transfer
unfolding create_found trigger_fail_point
create_durable_transfer i clock = do
  trigger_fail_point (λ p. p.persist_transfer) "FAILPOINT_persistTransfer"
  λ s. create_found i clock (get i.transfer_id s.transfers) s

unfoldable pub get_durable_transfer : Store → String → Option Transfer
get_durable_transfer s transfer_id = get transfer_id s.transfers

transfer_under : Store → Option String → Option Transfer
transfer_under s none = none
transfer_under s (some transfer_id) =
    if transfer_id == "" then none else get transfer_id s.transfers

unfoldable pub get_durable_transfer_by_idempotency_key : Store → String → String → Option Transfer
unfolding transfer_under
get_durable_transfer_by_idempotency_key s schema_version idempotency_key =
    transfer_under s (get (joined schema_version idempotency_key) s.transfers_by_idempotency)

unfoldable pub receipt_found : Receipt → Option Receipt → Exec Receipt
receipt_found r (some existing) = pure existing
receipt_found r none = do modify λ s. record s { receipts = set r.receipt_id r s.receipts }; pure r

-- A receipt is generated once.
unfoldable pub create_receipt_record : Receipt → Exec Receipt
unfolding receipt_found trigger_fail_point
create_receipt_record r = do
  trigger_fail_point (λ p. p.persist_receipt) "FAILPOINT_persistReceipt"
  λ s. receipt_found r (get r.receipt_id s.receipts) s

-- a missing id is the key `null`, under which nothing is stored
unfoldable pub get_receipt_record : Store → Option String → Option Receipt
get_receipt_record s none = none
get_receipt_record s (some receipt_id) = get receipt_id s.receipts

sanitized : Option Json → Json
sanitized none = null
sanitized (some v) = v

unfoldable pub audit_event : ℕ → AuditEntry → ℕ → AuditEvent
unfolding sanitized
audit_event sequence e clock = record {
  audit_sequence = sequence;
  entry = record e { detail = sanitized (sanitize_detail e.detail 0) };
  created_at = clock;
}

unfoldable pub append_audit : AuditEntry → ℕ → Exec (Unit {0})
unfolding trigger_fail_point
append_audit e clock = do
  trigger_fail_point (λ p. p.audit_write) "FAILPOINT_auditWrite"
  modify λ s. record s {
    audit_sequence = s.audit_sequence + 1;
    audit = s.audit ++ audit_event (s.audit_sequence + 1) e clock ∷ [];
  }

is_about : String → Option String → Bool
is_about transfer_id none = false
is_about transfer_id (some t) = t == transfer_id

-- an empty id asks for all events
unfoldable pub get_audit_events : Store → Option String → List AuditEvent
unfolding is_about
get_audit_events s none = s.audit
get_audit_events s (some transfer_id) =
    if transfer_id == "" then s.audit else keep (λ e. is_about transfer_id e.transfer_id) s.audit
