-- ===== src/LawShield/Ledger/Commits.antt =====
-- What the transactions of law-shield/lawshield/durable/processor.js leave behind, where they commit.
use arma_partner_api_sandbox.Prelude.{
  String, Option, none, some, List, ◌≡◌, inl, inr, ap, ◌∙◌, if◌then◌else◌, Bool-cases,
}
use arma_partner_api_sandbox.Prelude.Map.{get}
use arma_partner_api_sandbox.Prelude.Json.{Fields}
use arma_partner_api_sandbox.Prelude.Exec.Ensures.{Ensures, bind-Ensures, weaken-Ensures}
use arma_partner_api_sandbox.LawShield.Store.{
  Store, Decision, accepted, rejected, quarantined, Binding, NonceRecord,
}
use arma_partner_api_sandbox.LawShield.Store.Writes.{
  register_nonce, create_durable_transfer, bind_idempotency_key,
}
use arma_partner_api_sandbox.LawShield.Store.Writes.Effects.{
  Frame, register_nonce-Frame, append_audit-Frame, IsCreated, create_durable_transfer-IsCreated,
  IsBound, bind_idempotency_key-IsBound,
}
use arma_partner_api_sandbox.LawShield.Envelope.{Envelope}
use arma_partner_api_sandbox.LawShield.Processor.{Request}
use arma_partner_api_sandbox.LawShield.Processor.Writes.{
  collapse_writes, rejection_writes, conflict_writes, conflict_found, replay_writes, refused_as,
  is_quarantine_code, binding_for,
}
use arma_partner_api_sandbox.LawShield.Ledger.{key_of}
use arma_partner_api_sandbox.LawShield.Ledger.Invariant.{IsValid}
use arma_partner_api_sandbox.LawShield.Ledger.Transactions.{
  Frame-IsValid, IsCreated-IsValid, IsDecided, IsBound-IsDecided, Frame-IsDecided, since,
}

-- The store is valid and binds what it did.
pub record IsKept (s s' : Store) : Type 0 where
  pub valid : IsValid s'
  pub bindings : s'.idempotency ≡ s.idempotency

Frame-IsKept : (s s1 s2 : Store) → Frame s1 s2 → IsKept s s1 → IsKept s s2
Frame-IsKept s s1 s2 f k = record {
  valid = Frame-IsValid f k.valid;
  bindings = f.bindings ∙ k.bindings;
}

IsKept-first : (s s1 : Store) → IsValid s → Frame s s1 → IsKept s s1
IsKept-first s s1 v f = record { valid = Frame-IsValid f v; bindings = f.bindings }

pub refused_as-ne : (code : String) → refused_as code ≡ accepted → ⊥
unfolding refused_as
refused_as-ne code h = elim (Bool-cases (is_quarantine_code code)) [
  | inl y ↦ absurd (cc (h, ap (λ b. if b then quarantined else rejected) y))
  | inr n ↦ absurd (cc (h, ap (λ b. if b then quarantined else rejected) n))
]

module _ (q : Request) (e : Envelope) where
  pub collapse_writes-IsKept :
      (d : Decision) (detail : Fields) (s : Store)
      → IsValid s
      → Ensures (λ _. IsKept s) (collapse_writes q e d detail s)
  unfolding collapse_writes
  collapse_writes-IsKept d detail s v =
      bind-Ensures (λ _. Frame s) (λ _. IsKept s)
        (register_nonce e.schema_version q.forwarded.nonce e.transfer_id q.now) _ s
        (register_nonce-Frame e.schema_version q.forwarded.nonce e.transfer_id q.now s)
        (λ _ s1 f.
          weaken-Ensures (λ _. Frame s1) (λ _. IsKept s) _
            (λ _ s2 g. Frame-IsKept s s1 s2 g (IsKept-first s s1 v f))
            (append_audit-Frame _ q.clock s1))

  pub replay_writes-IsKept :
      (r : NonceRecord) (s : Store) → IsValid s → Ensures (λ _. IsKept s) (replay_writes q e r s)
  unfolding replay_writes
  replay_writes-IsKept r s v =
      weaken-Ensures (λ _. Frame s) (λ _. IsKept s) _ (λ _ s1 f. IsKept-first s s1 v f)
        (append_audit-Frame _ q.clock s)

  conflict_found-IsKept :
      (code : String) (existing other : Option String) (s s1 : Store)
      → IsKept s s1
      → Ensures (λ _. IsKept s) (conflict_found q e code existing other s1)
  unfolding conflict_found
  conflict_found-IsKept code existing (some prior) s s1 k =
      weaken-Ensures (λ _. Frame s1) (λ _. IsKept s) _ (λ _ s2 f. Frame-IsKept s s1 s2 f k)
        (append_audit-Frame _ q.clock s1)
  conflict_found-IsKept code existing none s s1 k =
      bind-Ensures (IsCreated _ s1) (λ _. IsKept s) (create_durable_transfer _ q.clock) _ s1
        (create_durable_transfer-IsCreated _ q.clock s1)
        (λ t s2 w.
          weaken-Ensures (λ _. Frame s2) (λ _. IsKept s) _
            (λ _ s3 f. Frame-IsKept s s2 s3 f (record {
              valid = IsCreated-IsValid _ s1 t s2 w k.valid;
              bindings = w.bindings ∙ k.bindings;
            }))
            (append_audit-Frame _ q.clock s2))

  pub conflict_writes-IsKept :
      (code : String) (existing : Option String) (s : Store)
      → IsValid s
      → Ensures (λ _. IsKept s) (conflict_writes q e code existing s)
  unfolding conflict_writes
  conflict_writes-IsKept code existing s v =
      bind-Ensures (λ _. Frame s) (λ _. IsKept s)
        (register_nonce e.schema_version q.forwarded.nonce e.transfer_id q.clock) _ s
        (register_nonce-Frame e.schema_version q.forwarded.nonce e.transfer_id q.clock s)
        (λ _ s1 f. conflict_found-IsKept code existing _ s s1 (IsKept-first s s1 v f))

  -- the binding of a refusal
  unfoldable pub refusal_binding : String → Binding
  refusal_binding code = record (binding_for e (refused_as code) q.clock) { error_code = some code }

  pub rejection_writes-IsDecided :
      (code : String) (paths : Option (List String)) (s : Store)
      → IsValid s
      → get (key_of e) s.idempotency ≡ none
      → Ensures (λ _. IsDecided (refusal_binding code) s) (rejection_writes q e code paths s)
  unfolding rejection_writes binding_for refusal_binding
  rejection_writes-IsDecided code paths s v n =
      bind-Ensures (λ _. Frame s) (λ _. IsDecided (refusal_binding code) s)
        (register_nonce e.schema_version q.forwarded.nonce e.transfer_id q.now) _ s
        (register_nonce-Frame e.schema_version q.forwarded.nonce e.transfer_id q.now s)
        (λ _ s1 f.
          bind-Ensures (IsCreated _ s1) (λ _. IsDecided (refusal_binding code) s)
            (create_durable_transfer _ q.clock) _ s1
            (create_durable_transfer-IsCreated _ q.clock s1)
            (λ t s2 w.
              let same = w.bindings ∙ f.bindings in
              bind-Ensures (λ _. IsBound (refusal_binding code) s2)
                (λ _. IsDecided (refusal_binding code) s)
                (bind_idempotency_key (refusal_binding code)) _ s2
                (bind_idempotency_key-IsBound (refusal_binding code) s2
                  (ap (get (key_of e)) same ∙ n))
                (λ _ s3 b.
                  weaken-Ensures (λ _. Frame s3) (λ _. IsDecided (refusal_binding code) s) _
                    (λ _ s4 g.
                      Frame-IsDecided (refusal_binding code) s s3 s4
                        (since (refusal_binding code) s s2 s3
                          (IsBound-IsDecided (refusal_binding code) s2 s3 b
                            (IsCreated-IsValid _ s1 t s2 w (Frame-IsValid f v))
                            (λ h. absurd (refused_as-ne code h)))
                          same)
                        g)
                    (append_audit-Frame _ q.clock s3))))
