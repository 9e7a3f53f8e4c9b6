-- ===== src/LawShield/Ledger/Transactions.antt =====
-- What the transactions of law-shield/lawshield/durable/processor.js change, where they return.
use mathlib.Core.Path.{subst}
use arma_partner_api_sandbox.Prelude.{some, ◌≡◌, inl, inr, refl, sym, ap, ◌∙◌, ◌<+>◌, joined}
use arma_partner_api_sandbox.Prelude.Map.{Map, get, set, get-set_self}
use arma_partner_api_sandbox.LawShield.Store.{
  Store, accepted, Binding, TransferInput, Transfer, Receipt,
}
use arma_partner_api_sandbox.LawShield.Store.Writes.Effects.{Frame, IsCreated, IsIssued, IsBound}
use arma_partner_api_sandbox.LawShield.Ledger.Invariant.{
  HasReceipt, IsConsistent, IsValid, receipt_id_injective, set_transfer-IsConsistent,
  set_receipt-IsConsistent, set_binding-IsConsistent,
}

pub same-IsConsistent :
    {bs bs' : Map Binding} {ts ts' : Map Transfer} {rs rs' : Map Receipt}
    → bs' ≡ bs
    → ts' ≡ ts
    → rs' ≡ rs
    → IsConsistent bs ts rs
    → IsConsistent bs' ts' rs'
same-IsConsistent {bs} {bs'} {ts} {ts'} {rs} {rs'} b t r c =
    subst (λ x. IsConsistent x ts' rs') (sym b)
      (subst (λ x. IsConsistent bs x rs') (sym t) (subst (IsConsistent bs ts) (sym r) c))

pub Frame-IsValid : {s s' : Store} → Frame s s' → IsValid s → IsValid s'
Frame-IsValid f c = same-IsConsistent f.bindings f.transfers f.receipts c

pub IsCreated-IsValid :
    (i : TransferInput) (s : Store) (t : Transfer) (s' : Store)
    → IsCreated i s t s'
    → IsValid s
    → IsValid s'
IsCreated-IsValid i s t s' w c = elim w.place [
  | inl new ↦
      same-IsConsistent w.bindings new.1 w.receipts
        (set_transfer-IsConsistent s.idempotency s.transfers s.receipts i.transfer_id t c new.0)
  | inr old ↦ same-IsConsistent w.bindings old.1 w.receipts c
]

pub IsCreated-get :
    (i : TransferInput) (s : Store) (t : Transfer) (s' : Store)
    → IsCreated i s t s'
    → get i.transfer_id s'.transfers ≡ some t
IsCreated-get i s t s' w = elim w.place [
  | inl new ↦ ap (get i.transfer_id) new.1 ∙ get-set_self i.transfer_id t s.transfers
  | inr old ↦ ap (get i.transfer_id) old.1 ∙ old.0
]

-- The store is valid, and the receipt under this id is of this transfer and payload.
pub record IsReceipted (r : Receipt) (s : Store) : Type 0 where
  pub valid : IsValid s
  pub stored : Receipt
  pub found : get r.receipt_id s.receipts ≡ some stored
  pub transfer : stored.transfer_id ≡ r.transfer_id
  pub payload : stored.payload_hash ≡ r.payload_hash

-- An old receipt belongs to the transfer that is stored under the id in its own.
old-IsReceipted :
    (r r' : Receipt) (t : Transfer) (s : Store)
    → IsValid s
    → r.receipt_id ≡ "RCP-" <+> r.transfer_id
    → get r.transfer_id s.transfers ≡ some t
    → t.payload_hash ≡ r.payload_hash
    → get r.receipt_id s.receipts ≡ some r'
    → IsReceipted r s
old-IsReceipted r r' t s c n g p h =
    let own = c.receipts r.receipt_id r' h in
    let same = receipt_id_injective r'.transfer_id r.transfer_id (sym own.named ∙ n) in
    let one : own.transfer ≡ t = cc (own.stored, g, same) in
    record {
      valid = c;
      stored = r';
      found = h;
      transfer = same;
      payload = sym own.payload ∙ ap (λ x. x.payload_hash) one ∙ p;
    }

pub IsIssued-IsReceipted :
    (r r' : Receipt) (t : Transfer) (s s' : Store)
    → IsIssued r s r' s'
    → IsValid s
    → r.receipt_id ≡ "RCP-" <+> r.transfer_id
    → get r.transfer_id s.transfers ≡ some t
    → t.status ≡ accepted
    → t.payload_hash ≡ r.payload_hash
    → IsReceipted r s'
IsIssued-IsReceipted r r' t s s' w c n g a p = elim w.place [
  | inl new ↦ record {
    valid = same-IsConsistent w.bindings w.transfers new.2 (
        set_receipt-IsConsistent s.idempotency s.transfers s.receipts r.receipt_id r c new.0
          (record { transfer = t; named = n; stored = g; status = a; payload = p }));
    stored = r;
    found = ap (get r.receipt_id) new.2 ∙ get-set_self r.receipt_id r s.receipts;
    transfer = refl;
    payload = refl;
  }
  | inr old ↦
      let o = old-IsReceipted r r' t s c n g p old.0 in
      record {
        valid = same-IsConsistent w.bindings w.transfers old.1 c;
        stored = r';
        found = ap (get r.receipt_id) old.1 ∙ old.0;
        transfer = cc (o.transfer, o.found, old.0);
        payload = cc (o.payload, o.found, old.0);
      }
]

-- The key is bound to the decision, and the store is valid.
pub record IsDecided (b : Binding) (s s' : Store) : Type 0 where
  pub valid : IsValid s'
  pub bindings : s'.idempotency ≡ set (joined b.schema_version b.idempotency_key) b s.idempotency

pub IsBound-IsDecided :
    (b : Binding) (s s' : Store)
    → IsBound b s s'
    → IsValid s
    → (b.outcome ≡ accepted → HasReceipt b s.receipts)
    → IsDecided b s s'
IsBound-IsDecided b s s' w c own = record {
  valid = same-IsConsistent w.bindings w.transfers w.receipts (
      set_binding-IsConsistent s.idempotency s.transfers s.receipts
        (joined b.schema_version b.idempotency_key) b c own);
  bindings = w.bindings;
}

-- The audit at the end of a transaction changes nothing of it.
pub Frame-IsDecided :
    (b : Binding) (s s1 s2 : Store) → IsDecided b s s1 → Frame s1 s2 → IsDecided b s s2
Frame-IsDecided b s s1 s2 d f = record {
  valid = Frame-IsValid f d.valid;
  bindings = f.bindings ∙ d.bindings;
}

pub since :
    (b : Binding) (s s1 s2 : Store)
    → IsDecided b s1 s2
    → s1.idempotency ≡ s.idempotency
    → IsDecided b s s2
since b s s1 s2 d e = record {
  valid = d.valid;
  bindings = d.bindings ∙ ap (set (joined b.schema_version b.idempotency_key) b) e;
}
