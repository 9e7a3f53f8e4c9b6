-- ===== src/LawShield/Store/Transactions/Neutral.antt =====
-- Code of law-shield/lawshield/durable/store.js that leaves the fail points and the depth of the
-- transactions as it found them, whether it returns or throws.
use arma_partner_api_sandbox.Prelude.{
  ℕ, ◌+◌, String, not, ◌&&◌, Option, none, some, ◌≡◌, refl, ap, ◌∙◌, ◌==◌, Result, ok, err,
  Bool-cases, inl, inr,
}
use arma_partner_api_sandbox.Prelude.Map.{get}
use arma_partner_api_sandbox.Prelude.Exec.{caught}
use arma_partner_api_sandbox.LawShield.Store.{
  Store, NonceRecord, TransferInput, Transfer, Receipt, Binding, AuditEntry,
}
use arma_partner_api_sandbox.LawShield.Store.Exec.{Exec, continue}
use arma_partner_api_sandbox.LawShield.Store.Writes.{
  trigger_fail_point, is_nonce, prune, register_found, register_nonce, same_decision, create_found,
  create_durable_transfer, receipt_found, create_receipt_record, bind_found, bind_idempotency_key,
  append_audit,
}
use arma_partner_api_sandbox.LawShield.Store.Transactions.{
  run_transaction, IsNeutral, run_transaction-cases,
}

-- One run of such code.
unfoldable pub Spares : {A : Type 0} → Store → Result A × Store → Type 0
Spares s x = (x.1.fail_points ≡ s.fail_points) × (x.1.tx_depth ≡ s.tx_depth)

pub continue-Spares :
    {A B : Type 0} (s s' : Store) (r : Result A) (f : A → Exec B)
    → Spares s (r, s')
    → ((a : A) (t : Store) → Spares t (f a t))
    → Spares s (continue r f s')
unfolding Spares
continue-Spares s s' (ok a) f g k = ((k a s').0 ∙ g.0, (k a s').1 ∙ g.1)
continue-Spares s s' (err e) f g k = g

pub caught-Spares :
    {A B : Type 0} (s s' : Store) (r : Result A) (f : A → Exec B) (handler : String → Exec B)
    → Spares s (r, s')
    → ((a : A) (t : Store) → Spares t (f a t))
    → ((e : String) (t : Store) → Spares t (handler e t))
    → Spares s (caught r f handler s')
unfolding Spares
caught-Spares s s' (ok a) f handler g k h = ((k a s').0 ∙ g.0, (k a s').1 ∙ g.1)
caught-Spares s s' (err e) f handler g k h = ((h e s').0 ∙ g.0, (h e s').1 ∙ g.1)

pub run_transaction-Spares :
    {A : Type 0} (fn : Exec A) (s : Store)
    → ((t : Store) → Spares t (fn t))
    → Spares s (run_transaction fn s)
unfolding Spares IsNeutral
run_transaction-Spares fn s h = elim (run_transaction-cases fn s h) [
  | inl (e, _, rolled) ↦ (ap (λ x. x.1.fail_points) rolled, ap (λ x. x.1.tx_depth) rolled)
  | inr (a, _, done) ↦ (
    ap (λ x. x.1.fail_points) done ∙ (h (record s { tx_depth = s.tx_depth + 1 })).0,
    ap (λ x. x.1.tx_depth) done,
  )
]

register_found-Spares :
    (key : String) (r : NonceRecord) (o : Option NonceRecord) (s : Store)
    → Spares s (register_found key r o s)
unfolding register_found Spares
register_found-Spares key r none s = (refl, refl)
register_found-Spares key r (some x) s = (refl, refl)

pub register_nonce-Spares :
    (schema_version nonce transfer_id : String) (at : ℕ) (s : Store)
    → Spares s (register_nonce schema_version nonce transfer_id at s)
unfolding register_nonce prune Spares
register_nonce-Spares v n t at s = elim (Bool-cases (v == "")) [
  | inl x ↦ rw x (refl, refl)
  | inr x ↦ elim (Bool-cases (not (is_nonce n))) [
    | inl y ↦ rw (x, y) (refl, refl)
    | inr y ↦ rw (x, y) (register_found-Spares _ _ _ (prune at s))
  ]
]

create_found-Spares :
    (i : TransferInput) (clock : ℕ) (o : Option Transfer) (s : Store)
    → Spares s (create_found i clock o s)
unfolding create_found Spares
create_found-Spares i clock none s = (refl, refl)
create_found-Spares i clock (some x) s =
    elim (Bool-cases (x.payload_hash == i.payload_hash && same_decision x.status i.status)) [
      | inl y ↦ rw y (refl, refl)
      | inr y ↦ rw y (refl, refl)
    ]

pub create_durable_transfer-Spares :
    (i : TransferInput) (clock : ℕ) (s : Store) → Spares s (create_durable_transfer i clock s)
unfolding create_durable_transfer trigger_fail_point Spares
create_durable_transfer-Spares i clock s = elim (Bool-cases s.fail_points.persist_transfer) [
  | inl x ↦ rw x (refl, refl)
  | inr x ↦ simp x (create_found-Spares i clock (get i.transfer_id s.transfers) s)
]

receipt_found-Spares :
    (r : Receipt) (o : Option Receipt) (s : Store) → Spares s (receipt_found r o s)
unfolding receipt_found Spares
receipt_found-Spares r none s = (refl, refl)
receipt_found-Spares r (some x) s = (refl, refl)

pub create_receipt_record-Spares : (r : Receipt) (s : Store) → Spares s (create_receipt_record r s)
unfolding create_receipt_record trigger_fail_point Spares
create_receipt_record-Spares r s = elim (Bool-cases s.fail_points.persist_receipt) [
  | inl x ↦ rw x (refl, refl)
  | inr x ↦ simp x (receipt_found-Spares r (get r.receipt_id s.receipts) s)
]

bind_found-Spares :
    (key : String) (b : Binding) (o : Option Binding) (s : Store) → Spares s (bind_found key b o s)
unfolding bind_found Spares
bind_found-Spares key b none s = (refl, refl)
bind_found-Spares key b (some x) s = (refl, refl)

pub bind_idempotency_key-Spares : (b : Binding) (s : Store) → Spares s (bind_idempotency_key b s)
unfolding bind_idempotency_key
bind_idempotency_key-Spares b s = bind_found-Spares _ b _ s

pub append_audit-Spares :
    (e : AuditEntry) (clock : ℕ) (s : Store) → Spares s (append_audit e clock s)
unfolding append_audit trigger_fail_point Spares
append_audit-Spares e clock s = elim (Bool-cases s.fail_points.audit_write) [
  | inl x ↦ rw x (refl, refl)
  | inr x ↦ rw x (refl, refl)
]
