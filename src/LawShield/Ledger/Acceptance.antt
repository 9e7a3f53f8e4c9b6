-- ===== src/LawShield/Ledger/Acceptance.antt =====
-- What the acceptance transaction of law-shield/lawshield/durable/processor.js leaves behind.
use arma_partner_api_sandbox.Prelude.{String, none, some, List, ◌≡◌, refl, sym, ap, ◌∙◌}
use arma_partner_api_sandbox.Prelude.Map.{get}
use arma_partner_api_sandbox.Prelude.Exec.Ensures.{Ensures, bind-Ensures, weaken-Ensures}
use arma_partner_api_sandbox.LawShield.Store.{Store, accepted, Binding, Receipt}
use arma_partner_api_sandbox.LawShield.Store.Writes.{
  register_nonce, create_durable_transfer, create_receipt_record, bind_idempotency_key,
}
use arma_partner_api_sandbox.LawShield.Store.Writes.Effects.{
  Frame, register_nonce-Frame, append_audit-Frame, IsCreated, create_durable_transfer-IsCreated,
  IsIssued, create_receipt_record-IsIssued, IsBound, bind_idempotency_key-IsBound,
}
use arma_partner_api_sandbox.LawShield.Envelope.{Envelope}
use arma_partner_api_sandbox.LawShield.Processor.{Request}
use arma_partner_api_sandbox.LawShield.Processor.Writes.{
  acceptance_writes, receipt_id_for, receipt_for, binding_for,
}
use arma_partner_api_sandbox.LawShield.Ledger.{key_of}
use arma_partner_api_sandbox.LawShield.Ledger.Invariant.{HasReceipt, IsValid}
use arma_partner_api_sandbox.LawShield.Ledger.Transactions.{
  Frame-IsValid, IsCreated-IsValid, IsCreated-get, IsReceipted, IsIssued-IsReceipted, IsDecided,
  IsBound-IsDecided, Frame-IsDecided, since,
}

receipted-HasReceipt :
    (r : Receipt) (b : Binding) (s : Store)
    → IsReceipted r s
    → b.receipt_id ≡ some r.receipt_id
    → b.transfer_id ≡ r.transfer_id
    → b.payload_hash ≡ r.payload_hash
    → HasReceipt b s.receipts
receipted-HasReceipt r b s h n t p = record {
  receipt_id = r.receipt_id;
  receipt = h.stored;
  named = n;
  stored = h.found;
  transfer = h.transfer ∙ sym t;
  payload = h.payload ∙ sym p;
}

-- The key is bound to an acceptance whose receipt is stored.
pub record IsAccepted (r : Receipt) (b : Binding) (s s' : Store) : Type 0 where
  pub decided : IsDecided b s s'
  pub receipted : IsReceipted r s'

-- A binding and an audit leave the receipts alone.
bound-IsAccepted :
    (r : Receipt) (b : Binding) (s s1 s2 s3 : Store)
    → IsReceipted r s1
    → s1.idempotency ≡ s.idempotency
    → IsBound b s1 s2
    → HasReceipt b s1.receipts
    → Frame s2 s3
    → IsAccepted r b s s3
bound-IsAccepted r b s s1 s2 s3 h same w own f =
    let d =
      Frame-IsDecided b s s2 s3
        (since b s s1 s2 (IsBound-IsDecided b s1 s2 w h.valid (λ _. own)) same) f in
    record {
      decided = d;
      receipted = record {
        valid = d.valid;
        stored = h.stored;
        found = ap (get r.receipt_id) (f.receipts ∙ w.receipts) ∙ h.found;
        transfer = h.transfer;
        payload = h.payload;
      };
    }

module _ (q : Request) (e : Envelope) where
  unfoldable pub acceptance_binding : Binding
  acceptance_binding = record (binding_for e accepted q.clock) {
    receipt_id = some (receipt_id_for e);
    accepted_at = some q.now;
  }

  pub acceptance_writes-IsAccepted :
      (fields : List String) (s : Store)
      → IsValid s
      → get (key_of e) s.idempotency ≡ none
      → Ensures
          (λ _. IsAccepted (receipt_for q e) acceptance_binding s)
          (acceptance_writes q e fields s)
  unfolding acceptance_writes binding_for receipt_for receipt_id_for acceptance_binding
  acceptance_writes-IsAccepted fields s v n =
      let r = receipt_for q e in
      let b = acceptance_binding in
      bind-Ensures (λ _. Frame s) (λ _. IsAccepted r b s)
        (register_nonce e.schema_version q.forwarded.nonce e.transfer_id q.now) _ s
        (register_nonce-Frame e.schema_version q.forwarded.nonce e.transfer_id q.now s)
        (λ _ s1 f.
          bind-Ensures (IsCreated _ s1) (λ _. IsAccepted r b s) (create_durable_transfer _ q.clock)
            _ s1 (create_durable_transfer-IsCreated _ q.clock s1)
            (λ t s2 w.
              bind-Ensures (IsIssued r s2) (λ _. IsAccepted r b s) (create_receipt_record r) _ s2
                (create_receipt_record-IsIssued r s2)
                (λ r' s3 i.
                  let same = i.bindings ∙ w.bindings ∙ f.bindings in
                  let h =
                    IsIssued-IsReceipted r r' t s2 s3 i
                      (IsCreated-IsValid _ s1 t s2 w (Frame-IsValid f v)) refl
                      (IsCreated-get _ s1 t s2 w) w.status w.payload in
                  bind-Ensures (λ _. IsBound b s3) (λ _. IsAccepted r b s) (bind_idempotency_key b)
                    _ s3 (bind_idempotency_key-IsBound b s3 (ap (get (key_of e)) same ∙ n))
                    (λ _ s4 d.
                      weaken-Ensures (λ _. Frame s4) (λ _. IsAccepted r b s) _
                        (λ _ s5 g.
                          bound-IsAccepted r b s s3 s4 s5 h same d
                            (receipted-HasReceipt r b s3 h refl refl refl) g)
                        (append_audit-Frame _ q.clock s4)))))
