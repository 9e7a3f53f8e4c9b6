-- ===== src/Patches/Activation/Created.antt =====
-- What `processActivation` of patches/lib/server.ts leaves in the store.
use arma_partner_api_sandbox.Prelude.{
  ◌+◌, String, true, false, none, some, [], ◌∷◌, ◌++◌, ◌==◌, ◌≡◌, refl, arith, ok, err,
  if◌then◌else◌, Bool-cases, inl, inr, ◌||◌,
}
use arma_partner_api_sandbox.Prelude.Map.{set, get-set, get-set_self}
use arma_partner_api_sandbox.Prelude.Json.{str, obj, end, field}
use arma_partner_api_sandbox.Patches.Store.{Store, AuditEntry, AuditOutcome, ActorKind}
use arma_partner_api_sandbox.Patches.Store.Reads.{get_activation, get_idempotency, idempotency_key}
use arma_partner_api_sandbox.Patches.Store.Writes.{
  put_activation, put_receipt, put_idempotency, append_event, append_audit, audit_record,
}
use arma_partner_api_sandbox.Patches.Store.Transactions.{run_transaction}
use arma_partner_api_sandbox.Patches.Bodies.{Outcome}
use arma_partner_api_sandbox.Patches.Activation.{Request, Pending, activation_id_for, audit_entry}
use arma_partner_api_sandbox.Patches.Activation.Settle.{
  activation_for, idempotency_for, receipt_for, event_for, receipt_id_for, create_writes,
  persistence_failure, settle,
}

-- No fail point is set, and no transaction is open.
pub record IsSound (s : Store) : Type 0 where
  pub activation : s.fail_points.persist_activation ≡ false
  pub receipt : s.fail_points.persist_receipt ≡ false
  pub audit : s.fail_points.audit_write ≡ false
  pub event : s.fail_points.event_write ≡ false
  pub outside : s.tx_depth ≡ 0

created_entry : Request → Pending → AuditEntry
created_entry q p = audit_entry q AuditOutcome.success (
    field "code" (str "ACTIVATION_CREATED") (
      field "activationId" (str (activation_id_for q)) (
        field "orgId" (str p.input.org_id) (
          field "capability" (str p.input.capability)
            (field "bindingId" (str p.input.binding_id) end)))))

-- The five writes of the transaction, in one record.
unfoldable pub created_store : Request → Pending → Store → Store
unfolding created_entry
created_store q p s = record s {
  activations = set (activation_id_for q) (activation_for q p) s.activations;
  receipts = set (receipt_id_for q) (receipt_for q p) s.receipts;
  idempotency =
      set (idempotency_key q.client_id p.input.idempotency_key) (idempotency_for q p) s.idempotency;
  events = s.events ++ event_for q p ∷ [];
  audit_sequence = s.audit_sequence + 1;
  audit = s.audit ++ audit_record (s.audit_sequence + 1) (created_entry q p) ∷ [];
}

pub create_writes_sound :
    (q : Request) (p : Pending) (s : Store)
    → s.fail_points.persist_activation ≡ false
    → s.fail_points.persist_receipt ≡ false
    → s.fail_points.audit_write ≡ false
    → s.fail_points.event_write ≡ false
    → create_writes q p s ≡ (ok tt, created_store q p s)
unfolding create_writes created_store put_activation put_receipt put_idempotency append_event
    append_audit
create_writes_sound q p s a r w e = rw (a, r, e, w) refl

-- If no fail point is set, a request whose service accepted is answered 200 with its receipt, and the
-- five writes are all in the store; nothing else of it has changed.
pub settle-created :
    (q : Request) (p : Pending) (status : String) (s : Store)
    → IsSound s
    → ((settle q p (true, status) s).1 ≡ created_store q p s)
      × (o : Outcome) × ((settle q p (true, status) s).0 ≡ ok o)
      × (o.status ≡ 200)
      × (o.receipt ≡ some (receipt_id_for q))
      × (o.register_nonce ≡ true)
unfolding settle run_transaction created_store
settle-created q p status s h =
    rw
      (
        h.outside,
        create_writes_sound q p (record s { tx_depth = 1 }) h.activation h.receipt h.audit h.event,
      )
      (refl, _, refl, refl, refl, refl)

pub get_activation-created :
    (q : Request) (p : Pending) (s : Store) (id : String)
    → get_activation (created_store q p s) id
      ≡ (if activation_id_for q == id then some (activation_for q p) else get_activation s id)
unfolding get_activation created_store
get_activation-created q p s id =
    get-set (activation_id_for q) id (activation_for q p) s.activations

pub get_idempotency-created :
    (q : Request) (p : Pending) (s : Store)
    → get_idempotency (created_store q p s) q.client_id p.input.idempotency_key
      ≡ some (idempotency_for q p)
unfolding get_idempotency created_store
get_idempotency-created q p s =
    get-set_self (idempotency_key q.client_id p.input.idempotency_key) (idempotency_for q p)
      s.idempotency

-- Every other failure of the store's writes.
pub record IsFaulty (s : Store) : Type 0 where
  pub fault :
      (s.fail_points.persist_activation || s.fail_points.persist_receipt
        || s.fail_points.event_write)
      ≡ true
  pub audit : s.fail_points.audit_write ≡ false
  pub outside : s.tx_depth ≡ 0

pub create_writes-faulty :
    (q : Request) (p : Pending) (s : Store)
    → (s.fail_points.persist_activation || s.fail_points.persist_receipt
        || s.fail_points.event_write)
      ≡ true
    → (e : String) × ((create_writes q p s).0 ≡ err e)
unfolding create_writes put_activation put_receipt put_idempotency append_event append_audit
create_writes-faulty q p s h = elim (Bool-cases s.fail_points.persist_activation) [
  | inl a ↦ ("FAILPOINT_persistActivation", rw a refl)
  | inr a ↦ elim (Bool-cases s.fail_points.persist_receipt) [
    | inl r ↦ ("FAILPOINT_persistReceipt", rw (a, r) refl)
    | inr r ↦ (
      "FAILPOINT_eventWrite",
      let w : s.fail_points.event_write ≡ true = ground arith in rw (a, r, w) refl,
    )
  ]
]

-- What a failed transaction writes.
unfoldable pub failed_entry : Request → AuditEntry
failed_entry q = record {
  at = q.now;
  actor_kind = ActorKind.system;
  client_id = q.client_id;
  request_id = q.request_id;
  operation = "activation.create";
  outcome = AuditOutcome.failed;
  detail = obj (field "code" (str "PARTNER_TRANSACTION_FAILED") end);
}

pub audited_store : Store → AuditEntry → Store
audited_store s e = record s {
  audit_sequence = s.audit_sequence + 1;
  audit = s.audit ++ audit_record (s.audit_sequence + 1) e ∷ [];
}

pub persistence_failure-audits :
    (q : Request) (s : Store)
    → s.fail_points.audit_write ≡ false
    → s.tx_depth ≡ 0
    → ((persistence_failure q s).1 ≡ audited_store s (failed_entry q))
      × (o : Outcome) × ((persistence_failure q s).0 ≡ ok o)
      × (o.status ≡ 500)
      × (o.receipt ≡ none)
      × (o.register_nonce ≡ false)
unfolding persistence_failure run_transaction append_audit audited_store failed_entry
persistence_failure-audits q s a t = rw (t, a) (refl, _, refl, refl, refl, refl)
