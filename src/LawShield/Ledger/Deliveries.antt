-- ===== src/LawShield/Ledger/Deliveries.antt =====
-- Every request to the processor of law-shield/lawshield/durable/processor.js is a step of the ledger.
use mathlib.Core.Path.{subst}
use arma_partner_api_sandbox.Prelude.{
  ℕ, String, false, Option, none, some, ◌≡◌, refl, sym, ap, ◌∙◌, ◌==◌, Result, ok, err, Bool-cases,
  inl, inr, eq_iff,
}
use arma_partner_api_sandbox.Prelude.Map.{get}
use arma_partner_api_sandbox.LawShield.Store.{
  Store, Decision, accepted, rejected, quarantined, Binding, Receipt, NonceRecord, FailPoints,
}
use arma_partner_api_sandbox.LawShield.Store.Writes.{get_receipt_record, resolve_found}
use arma_partner_api_sandbox.LawShield.Store.Transactions.Effects.{
  run_transaction-HasEnded, continue-HasEnded,
}
use arma_partner_api_sandbox.LawShield.Envelope.{Platform, Envelope}
use arma_partner_api_sandbox.LawShield.Disclosure.{Verdict, refuse, admit}
use arma_partner_api_sandbox.LawShield.Processor.{
  Request, duplicate_kind, Outcome, rejected_wire_shape, receipt_wire_shape, business_verdict,
}
use arma_partner_api_sandbox.LawShield.Processor.Writes.{collapse_writes, replay_writes, answer}
use arma_partner_api_sandbox.LawShield.Processor.Decide.{
  duplicate_receipt, duplicate_error, duplicate_by, collapse_duplicate, by_verdict, by_resolution,
  refuse_replay,
}
use arma_partner_api_sandbox.LawShield.Ledger.{
  entry_of, view, key_of, an_error, a_refusal, is_refusal_kind, IsAnswer, receipt, refusal, IsStep,
  repeated,
}
use arma_partner_api_sandbox.LawShield.Ledger.Invariant.{HasReceipt, IsValid}
use arma_partner_api_sandbox.LawShield.Ledger.Commits.{
  IsKept, collapse_writes-IsKept, replay_writes-IsKept,
}
use arma_partner_api_sandbox.LawShield.Ledger.Refinement.{
  IsRefined, IsTurnedAway-IsRefined, quarantine-IsTurnedAway, view-found, view-kept, inside,
  reject_transfer-IsRefined, accept_transfer-IsRefined,
}

-- A decision repeated for the same transfer and payload is a step of the ledger.
repeated-IsRefined :
    (e : Envelope) (b : Binding) (s : Store) (r : Result Outcome) (s' : Store)
    → get (key_of e) s.idempotency ≡ some b
    → b.transfer_id ≡ e.transfer_id
    → b.payload_hash ≡ e.payload_hash
    → IsKept s s'
    → IsAnswer (entry_of b) duplicate_kind r
    → IsRefined s (some e) (r, s')
unfolding entry_of
repeated-IsRefined e b s r s' g t p k a = record {
  step =
      subst (IsStep (view s) (some e) r) (sym (view-kept s s' k.bindings))
        (repeated e (entry_of b) r (view-found (key_of e) b s g) t p a);
  valid = k.valid;
}

-- A throw out of the collapse is rolled back.
thrown-IsRefined :
    (o : Option Envelope) (s : Store) (code : String) (f : FailPoints) (n : ℕ)
    → IsValid s
    → IsRefined s o (err code, record s { fail_points = f; tx_depth = n })
thrown-IsRefined o s code f n v = IsTurnedAway-IsRefined s o _ (record {
  refusal = an_error code;
  kept = record { valid = record { bound = v.bound; receipts = v.receipts }; bindings = refl };
})

duplicate_receipt-IsRefined :
    (q : Request) (e : Envelope) (b : Binding) (s : Store) (o : Option Receipt)
    → IsValid s
    → get (key_of e) s.idempotency ≡ some b
    → b.transfer_id ≡ e.transfer_id
    → b.payload_hash ≡ e.payload_hash
    → b.outcome ≡ accepted
    → (h : HasReceipt b s.receipts) → o ≡ some h.receipt
    → IsRefined s (some e) (duplicate_receipt q e b o s)
unfolding duplicate_receipt answer receipt_wire_shape entry_of
duplicate_receipt-IsRefined q e b s none v g t p a h f = absurd (cc f)
duplicate_receipt-IsRefined q e b s (some r) v g t p a h f =
    let same : r ≡ h.receipt = cc (f) in
    continue-HasEnded (λ _. IsKept (inside s)) (IsRefined s (some e)) s _ _
      (run_transaction-HasEnded (λ _. IsKept (inside s)) (collapse_writes q e accepted _) s
        (collapse_writes-IsKept q e accepted _ (inside s) v))
      (λ _ s2 m k.
        repeated-IsRefined e b s (ok (answer duplicate_kind 200 (receipt_wire_shape r))) _ g t p
          (record { valid = k.valid; bindings = k.bindings })
          (receipt _ _ _ a (ap (λ x. x.transfer_id) same ∙ h.transfer)
            (ap (λ x. x.payload_hash) same ∙ h.payload)))
      (λ code f2 m. thrown-IsRefined (some e) s code f2 m v)

duplicate_error-IsRefined :
    (q : Request) (e : Envelope) (b : Binding) (s : Store)
    → IsValid s
    → get (key_of e) s.idempotency ≡ some b
    → b.transfer_id ≡ e.transfer_id
    → b.payload_hash ≡ e.payload_hash
    → (b.outcome ≡ accepted → ⊥)
    → IsRefined s (some e) (duplicate_error q e b s)
unfolding duplicate_error answer rejected_wire_shape entry_of
duplicate_error-IsRefined q e b s v g t p a =
    continue-HasEnded (λ _. IsKept (inside s)) (IsRefined s (some e)) s _ _
      (run_transaction-HasEnded (λ _. IsKept (inside s)) (collapse_writes q e b.outcome _) s
        (collapse_writes-IsKept q e b.outcome _ (inside s) v))
      (λ _ s2 m k.
        repeated-IsRefined e b s
          (ok (answer duplicate_kind 200 (rejected_wire_shape e b.error_code false none))) _ g t p
          (record { valid = k.valid; bindings = k.bindings }) (refusal _ _ _ a refl))
      (λ code f m. thrown-IsRefined (some e) s code f m v)

duplicate_by-IsRefined :
    (q : Request) (e : Envelope) (b : Binding) (d : Decision) (s : Store)
    → IsValid s
    → get (key_of e) s.idempotency ≡ some b
    → b.transfer_id ≡ e.transfer_id
    → b.payload_hash ≡ e.payload_hash
    → b.outcome ≡ d
    → IsRefined s (some e) (duplicate_by q e b d s)
unfolding duplicate_by get_receipt_record
duplicate_by-IsRefined q e b accepted s v g t p a =
    let h = v.bound (key_of e) b g a in
    duplicate_receipt-IsRefined q e b s _ v g t p a h (ap (get_receipt_record s) h.named ∙ h.stored)
duplicate_by-IsRefined q e b rejected s v g t p a =
    duplicate_error-IsRefined q e b s v g t p (λ h. absurd (cc (a, h)))
duplicate_by-IsRefined q e b quarantined s v g t p a =
    duplicate_error-IsRefined q e b s v g t p (λ h. absurd (cc (a, h)))

pub refuse_replay-IsRefined :
    (q : Request) (e : Envelope) (r : NonceRecord) (s : Store)
    → IsValid s
    → IsRefined s (some e) (refuse_replay q e r s)
unfolding refuse_replay answer rejected_wire_shape is_refusal_kind
refuse_replay-IsRefined q e r s v =
    continue-HasEnded (λ _. IsKept (inside s)) (IsRefined s (some e)) s _ _
      (run_transaction-HasEnded (λ _. IsKept (inside s)) (replay_writes q e r) s
        (replay_writes-IsKept q e r (inside s) v))
      (λ _ s2 m k. IsTurnedAway-IsRefined s (some e) _ (record {
        refusal = a_refusal _ _ _ refl;
        kept = record { valid = k.valid; bindings = k.bindings };
      }))
      (λ code f m. thrown-IsRefined (some e) s code f m v)

by_verdict-IsRefined :
    (q : Request) (e : Envelope) (w : Verdict) (s : Store)
    → IsValid s
    → get (key_of e) s.idempotency ≡ none
    → IsRefined s (some e) (by_verdict q e w s)
unfolding by_verdict
by_verdict-IsRefined q e (refuse code paths) s v n = reject_transfer-IsRefined q e code paths s v n
by_verdict-IsRefined q e (admit fields) s v n = accept_transfer-IsRefined q e fields s v n

-- What the registry's answer says of the binding under the key.
pub by_resolution-IsRefined :
    (p : Platform) (q : Request) (e : Envelope) (o : Option Binding) (s : Store)
    → IsValid s
    → get (key_of e) s.idempotency ≡ o
    → IsRefined s (some e) (by_resolution p q e (resolve_found e.transfer_id e.payload_hash o) s)
unfolding by_resolution resolve_found collapse_duplicate
by_resolution-IsRefined p q e none s v g = by_verdict-IsRefined q e (business_verdict p s e) s v g
by_resolution-IsRefined p q e (some b) s v g = elim (Bool-cases (b.transfer_id == e.transfer_id)) [
  | inr x ↦ rw x (IsTurnedAway-IsRefined s (some e) _ (quarantine-IsTurnedAway q e _ _ s v))
  | inl x ↦ elim (Bool-cases (b.payload_hash == e.payload_hash)) [
    | inr y ↦ rw (x, y) (IsTurnedAway-IsRefined s (some e) _ (quarantine-IsTurnedAway q e _ _ s v))
    | inl y ↦
        rw (x, y)
          (duplicate_by-IsRefined q e b b.outcome s v g ((eq_iff b.transfer_id e.transfer_id).0 x)
            ((eq_iff b.payload_hash e.payload_hash).0 y) refl)
  ]
]
