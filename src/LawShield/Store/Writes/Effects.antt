-- ===== src/LawShield/Store/Writes/Effects.antt =====
-- What each write of law-shield/lawshield/durable/store.js changes of bindings, transfers and
-- receipts, where it returns.
use arma_partner_api_sandbox.Prelude.{
  ℕ, String, true, Option, none, some, ◌≡◌, ◌⊎◌, inl, inr, refl, joined, eq_iff, Bool-cases, ◌==◌,
}
use arma_partner_api_sandbox.Prelude.Map.{get, set}
use arma_partner_api_sandbox.Prelude.Exec.Ensures.{Ensures, returned, thrown}
use arma_partner_api_sandbox.LawShield.Store.{
  Store, Decision, accepted, rejected, quarantined, Binding, TransferInput, Transfer, Receipt,
  AuditEntry, NonceRecord,
}
use arma_partner_api_sandbox.LawShield.Store.Writes.{
  register_nonce, register_found, create_durable_transfer, create_found, create_receipt_record,
  receipt_found, bind_idempotency_key, bind_found, append_audit, trigger_fail_point, same_decision,
  prune, is_nonce,
}

-- The three collections are as they were.
pub record Frame (s s' : Store) : Type 0 where
  pub bindings : s'.idempotency ≡ s.idempotency
  pub transfers : s'.transfers ≡ s.transfers
  pub receipts : s'.receipts ≡ s.receipts

register_found-Frame :
    (key : String) (r : NonceRecord) (o : Option NonceRecord) (s s' : Store)
    → Frame s s'
    → Ensures (λ _. Frame s) (register_found key r o s')
unfolding register_found
register_found-Frame key r none s s' f =
    returned _ _ (record { bindings = f.bindings; transfers = f.transfers; receipts = f.receipts })
register_found-Frame key r (some x) s s' f = thrown _ _

pub register_nonce-Frame :
    (schema_version nonce transfer_id : String) (at : ℕ) (s : Store)
    → Ensures (λ _. Frame s) (register_nonce schema_version nonce transfer_id at s)
unfolding register_nonce prune
register_nonce-Frame schema_version nonce transfer_id at s =
    elim (Bool-cases (schema_version == "")) [
      | inl h ↦ rw h (thrown _ _)
      | inr h ↦ elim (Bool-cases (is_nonce nonce)) [
        | inr n ↦ rw (h, n) (thrown _ _)
        | inl n ↦
            rw (h, n)
              (register_found-Frame _ _ _ s (prune at s)
                (record { bindings = refl; transfers = refl; receipts = refl }))
      ]
    ]

pub append_audit-Frame :
    (e : AuditEntry) (clock : ℕ) (s : Store) → Ensures (λ _. Frame s) (append_audit e clock s)
unfolding append_audit trigger_fail_point
append_audit-Frame e clock s = elim (Bool-cases s.fail_points.audit_write) [
  | inl h ↦ rw h (thrown _ _)
  | inr h ↦ rw h (returned _ _ (record { bindings = refl; transfers = refl; receipts = refl }))
]

pub same_decision-eq : (a b : Decision) → same_decision a b ≡ true → a ≡ b
unfolding same_decision
same_decision-eq accepted accepted h = refl
same_decision-eq rejected rejected h = refl
same_decision-eq quarantined quarantined h = refl
same_decision-eq accepted rejected h = absurd (cc h)
same_decision-eq accepted quarantined h = absurd (cc h)
same_decision-eq rejected accepted h = absurd (cc h)
same_decision-eq rejected quarantined h = absurd (cc h)
same_decision-eq quarantined accepted h = absurd (cc h)
same_decision-eq quarantined rejected h = absurd (cc h)

-- The transfer is stored now under an unused id, or was stored before with this content and status.
pub record IsCreated (i : TransferInput) (s : Store) (t : Transfer) (s' : Store) : Type 0 where
  pub bindings : s'.idempotency ≡ s.idempotency
  pub receipts : s'.receipts ≡ s.receipts
  pub status : t.status ≡ i.status
  pub payload : t.payload_hash ≡ i.payload_hash
  pub place :
      ((get i.transfer_id s.transfers ≡ none) × (s'.transfers ≡ set i.transfer_id t s.transfers))
      ⊎ ((get i.transfer_id s.transfers ≡ some t) × (s'.transfers ≡ s.transfers))

create_found-IsCreated :
    (i : TransferInput) (clock : ℕ) (o : Option Transfer) (s : Store)
    → get i.transfer_id s.transfers ≡ o
    → Ensures (IsCreated i s) (create_found i clock o s)
unfolding create_found
create_found-IsCreated i clock none s h = returned _ _ (record {
  bindings = refl;
  receipts = refl;
  status = refl;
  payload = refl;
  place = inl (h, refl);
})
create_found-IsCreated i clock (some t) s h = elim (Bool-cases (t.payload_hash == i.payload_hash)) [
  | inr p ↦ rw p (thrown _ _)
  | inl p ↦ elim (Bool-cases (same_decision t.status i.status)) [
    | inr d ↦ rw (p, d) (thrown _ _)
    | inl d ↦
        rw (p, d)
          (returned _ _ (record {
            bindings = refl;
            receipts = refl;
            status = same_decision-eq t.status i.status d;
            payload = (eq_iff t.payload_hash i.payload_hash).0 p;
            place = inr (h, refl);
          }))
  ]
]

pub create_durable_transfer-IsCreated :
    (i : TransferInput) (clock : ℕ) (s : Store)
    → Ensures (IsCreated i s) (create_durable_transfer i clock s)
unfolding create_durable_transfer trigger_fail_point
create_durable_transfer-IsCreated i clock s = elim (Bool-cases s.fail_points.persist_transfer) [
  | inl h ↦ rw h (thrown _ _)
  | inr h ↦ simp h (create_found-IsCreated i clock (get i.transfer_id s.transfers) s refl)
]

-- The receipt is stored now under an unused id, or another was stored under it before.
pub record IsIssued (r : Receipt) (s : Store) (r' : Receipt) (s' : Store) : Type 0 where
  pub bindings : s'.idempotency ≡ s.idempotency
  pub transfers : s'.transfers ≡ s.transfers
  pub place :
      ((get r.receipt_id s.receipts ≡ none)
        × (r' ≡ r)
        × (s'.receipts ≡ set r.receipt_id r s.receipts))
      ⊎ ((get r.receipt_id s.receipts ≡ some r') × (s'.receipts ≡ s.receipts))

receipt_found-IsIssued :
    (r : Receipt) (o : Option Receipt) (s : Store)
    → get r.receipt_id s.receipts ≡ o
    → Ensures (IsIssued r s) (receipt_found r o s)
unfolding receipt_found
receipt_found-IsIssued r none s h =
    returned _ _ (record { bindings = refl; transfers = refl; place = inl (h, refl, refl) })
receipt_found-IsIssued r (some x) s h =
    returned _ _ (record { bindings = refl; transfers = refl; place = inr (h, refl) })

pub create_receipt_record-IsIssued :
    (r : Receipt) (s : Store) → Ensures (IsIssued r s) (create_receipt_record r s)
unfolding create_receipt_record trigger_fail_point
create_receipt_record-IsIssued r s = elim (Bool-cases s.fail_points.persist_receipt) [
  | inl h ↦ rw h (thrown _ _)
  | inr h ↦ simp h (receipt_found-IsIssued r (get r.receipt_id s.receipts) s refl)
]

-- An unused key is bound; nothing else of the three changes.
pub record IsBound (b : Binding) (s s' : Store) : Type 0 where
  pub bindings : s'.idempotency ≡ set (joined b.schema_version b.idempotency_key) b s.idempotency
  pub transfers : s'.transfers ≡ s.transfers
  pub receipts : s'.receipts ≡ s.receipts

pub bind_idempotency_key-IsBound :
    (b : Binding) (s : Store)
    → get (joined b.schema_version b.idempotency_key) s.idempotency ≡ none
    → Ensures (λ _. IsBound b s) (bind_idempotency_key b s)
unfolding bind_idempotency_key bind_found
bind_idempotency_key-IsBound b s h =
    rw h (returned _ _ (record { bindings = refl; transfers = refl; receipts = refl }))
