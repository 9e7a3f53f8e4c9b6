-- ===== src/LawShield/Ledger/Refinement.antt =====
-- The processor of law-shield/lawshield/durable/processor.js takes the steps of the ledger.
use mathlib.Core.Path.{subst, fun_ext}
use arma_partner_api_sandbox.Prelude.{
  ℕ, String, Bool, true, false, Option, none, some, List, ◌≡◌, refl, sym, ap, ◌∙◌, ◌==◌, ◌+◌,
  Result, ok, if◌then◌else◌,
}
use arma_partner_api_sandbox.Prelude.Map.{get, set, get-set}
use arma_partner_api_sandbox.LawShield.Store.{
  Store, Decision, accepted, rejected, quarantined, Binding, Receipt, FailPoints,
}
use arma_partner_api_sandbox.LawShield.Store.Writes.{get_receipt_record, append_audit}
use arma_partner_api_sandbox.LawShield.Store.Writes.Effects.{Frame, append_audit-Frame}
use arma_partner_api_sandbox.LawShield.Store.Transactions.Effects.{
  run_transaction-HasEnded, caught-HasEnded,
}
use arma_partner_api_sandbox.LawShield.Envelope.{Envelope}
use arma_partner_api_sandbox.LawShield.Processor.{
  Request, accepted_kind, Outcome, rejected_wire_shape, receipt_wire_shape,
}
use arma_partner_api_sandbox.LawShield.Processor.Writes.{
  conflict_writes, rejection_writes, acceptance_writes, receipt_id_for, receipt_for, refused_as,
  is_quarantine_code, answer, binding_for,
}
use arma_partner_api_sandbox.LawShield.Processor.Decide.{
  persistence_failure, quarantine_integrity_conflict, reject_transfer, accept_transfer,
  refused_kind, accepted_with,
}
use arma_partner_api_sandbox.LawShield.Ledger.{
  entry_of, opt_entry, view, update, key_of, IsRefusal, a_refusal, is_refusal_kind, IsAnswer,
  receipt, refusal, IsStep, decided, refused, first_kind,
}
use arma_partner_api_sandbox.LawShield.Ledger.Invariant.{IsValid}
use arma_partner_api_sandbox.LawShield.Ledger.Transactions.{IsDecided, same-IsConsistent}
use arma_partner_api_sandbox.LawShield.Ledger.Commits.{
  IsKept, conflict_writes-IsKept, rejection_writes-IsDecided, refusal_binding, refused_as-ne,
}
use arma_partner_api_sandbox.LawShield.Ledger.Acceptance.{
  IsAccepted, acceptance_binding, acceptance_writes-IsAccepted,
}

-- No receipt is given, and the store binds what it did.
pub record IsTurnedAway (s : Store) (x : Result Outcome × Store) : Type 0 where
  pub refusal : IsRefusal x.0
  pub kept : IsKept s x.1

-- The store after it is valid, and its ledger is one step on.
pub record IsRefined (s : Store) (o : Option Envelope) (x : Result Outcome × Store) : Type 0 where
  pub step : IsStep (view s) o x.0 (view x.1)
  pub valid : IsValid x.1

pub view-kept : (s s' : Store) → s'.idempotency ≡ s.idempotency → view s' ≡ view s
unfolding view
view-kept s s' h = λ i k. opt_entry (get k (h i))

pub IsTurnedAway-IsRefined :
    (s : Store) (o : Option Envelope) (x : Result Outcome × Store)
    → IsTurnedAway s x
    → IsRefined s o x
IsTurnedAway-IsRefined s o x t = record {
  step =
      subst (IsStep (view s) o x.0) (sym (view-kept s x.1 t.kept.bindings))
        (refused o x.0 t.refusal);
  valid = t.kept.valid;
}

abbrev pub inside : Store → Store
inside s = record s { tx_depth = s.tx_depth + 1 }

-- The failure is answered 500, whether or not its audit is written.
persistence_failure-IsTurnedAway :
    (q : Request) (e : Envelope) (raw : String) (s : Store) (f : FailPoints) (n : ℕ)
    → IsValid s
    → IsTurnedAway s (persistence_failure q e raw (record s { fail_points = f; tx_depth = n }))
unfolding persistence_failure rejected_wire_shape answer is_refusal_kind
persistence_failure-IsTurnedAway q e raw s f n v =
    let s1 = record s { fail_points = f; tx_depth = n } in
    caught-HasEnded (λ _. Frame (inside s1)) (IsTurnedAway s) s1 _ _ _
      (run_transaction-HasEnded (λ _. Frame (inside s1)) (append_audit _ q.clock) s1
        (append_audit-Frame _ q.clock (inside s1)))
      (λ _ s2 m g. record {
        refusal = a_refusal _ _ _ refl;
        kept = record {
          valid = same-IsConsistent g.bindings g.transfers g.receipts v;
          bindings = g.bindings;
        };
      })
      (λ _ p m. record {
        refusal = a_refusal _ _ _ refl;
        kept = record {
          valid = record { bound = v.bound; receipts = v.receipts };
          bindings = refl;
        };
      })

pub quarantine-IsTurnedAway :
    (q : Request) (e : Envelope) (code : String) (existing : Option String) (s : Store)
    → IsValid s
    → IsTurnedAway s (quarantine_integrity_conflict q e code existing s)
unfolding quarantine_integrity_conflict rejected_wire_shape answer is_refusal_kind
quarantine-IsTurnedAway q e code existing s v =
    caught-HasEnded (λ _. IsKept (inside s)) (IsTurnedAway s) s _ _ _
      (run_transaction-HasEnded (λ _. IsKept (inside s)) (conflict_writes q e code existing) s
        (conflict_writes-IsKept q e code existing (inside s) v))
      (λ _ s2 m k. record {
        refusal = a_refusal _ _ _ refl;
        kept = record { valid = k.valid; bindings = k.bindings };
      })
      (λ raw p m. persistence_failure-IsTurnedAway q e raw s p m v)

opt_entry-if :
    (c : Bool) (b : Binding) (o : Option Binding)
    → opt_entry (if c then some b else o) ≡ (if c then some (entry_of b) else opt_entry o)
unfolding opt_entry
opt_entry-if true b o = refl
opt_entry-if false b o = refl

-- A new binding is an update of the ledger.
view-bound :
    (k : String) (b : Binding) (s s' : Store)
    → s'.idempotency ≡ set k b s.idempotency
    → view s' ≡ update (view s) k (entry_of b)
unfolding view update
view-bound k b s s' h = fun_ext λ j.
    ap (λ m. opt_entry (get j m)) h
    ∙ ap opt_entry (get-set k j b s.idempotency)
    ∙ opt_entry-if (k == j) b (get j s.idempotency)

view-unbound : (k : String) (s : Store) → get k s.idempotency ≡ none → view s k ≡ none
unfolding view opt_entry
view-unbound k s h = ap opt_entry h

pub view-found :
    (k : String) (b : Binding) (s : Store)
    → get k s.idempotency ≡ some b
    → view s k ≡ some (entry_of b)
unfolding view opt_entry
view-found k b s h = ap opt_entry h

-- A first decision is a step of the ledger, if the answer tells it.
decided-IsRefined :
    (e : Envelope) (b : Binding) (s : Store) (r : Result Outcome) (s' : Store)
    → get (key_of e) s.idempotency ≡ none
    → IsValid s'
    → s'.idempotency ≡ set (key_of e) b s.idempotency
    → b.transfer_id ≡ e.transfer_id
    → b.payload_hash ≡ e.payload_hash
    → IsAnswer (entry_of b) (first_kind b.outcome) r
    → IsRefined s (some e) (r, s')
unfolding entry_of
decided-IsRefined e b s r s' n v d t p a = record {
  step =
      subst (IsStep (view s) (some e) r) (sym (view-bound (key_of e) b s s' d))
        (decided e (entry_of b) r (view-unbound (key_of e) s n) t p a);
  valid = v;
}

refusal_kind : (code : String) (d : Decision) → refused_as code ≡ d → refused_kind d ≡ first_kind d
unfolding refused_kind first_kind
refusal_kind code accepted h = absurd (refused_as-ne code h)
refusal_kind code rejected h = refl
refusal_kind code quarantined h = refl

pub reject_transfer-IsRefined :
    (q : Request) (e : Envelope) (code : String) (paths : Option (List String)) (s : Store)
    → IsValid s
    → get (key_of e) s.idempotency ≡ none
    → IsRefined s (some e) (reject_transfer q e code paths s)
unfolding reject_transfer answer rejected_wire_shape refusal_binding binding_for entry_of
reject_transfer-IsRefined q e code paths s v n =
    let b = refusal_binding q e code in
    caught-HasEnded (λ _. IsDecided b (inside s)) (IsRefined s (some e)) s _ _ _
      (run_transaction-HasEnded (λ _. IsDecided b (inside s)) (rejection_writes q e code paths) s
        (rejection_writes-IsDecided q e code paths (inside s) v n))
      (λ _ s2 m d. decided-IsRefined e b s _ _ n d.valid d.bindings refl refl (
        subst
          (λ k. IsAnswer (entry_of b) k (
            ok (
              answer (refused_kind (refused_as code)) 200
                (rejected_wire_shape e (some code) (is_quarantine_code code) paths))))
          (refusal_kind code (refused_as code) refl)
          (refusal (entry_of b) _ _ (λ h. absurd (refused_as-ne code h)) refl)))
      (λ raw p m.
        IsTurnedAway-IsRefined s (some e) _ (persistence_failure-IsTurnedAway q e raw s p m v))

accepted_with-IsRefined :
    (q : Request) (e : Envelope) (s s' : Store) (n : ℕ) (o : Option Receipt)
    → get (key_of e) s.idempotency ≡ none
    → (a : IsAccepted (receipt_for q e) (acceptance_binding q e) (inside s) s')
    → o ≡ some a.receipted.stored
    → IsRefined s (some e) (accepted_with q e o (record s' { tx_depth = n }))
unfolding accepted_with answer receipt_wire_shape acceptance_binding binding_for receipt_for
    entry_of first_kind
accepted_with-IsRefined q e s s' n none u a h = absurd (cc h)
accepted_with-IsRefined q e s s' n (some r) u a h =
    let same : r ≡ a.receipted.stored = cc (h) in
    decided-IsRefined e (acceptance_binding q e) s
      (ok (answer accepted_kind 200 (receipt_wire_shape r))) _ u
      (record { bound = a.decided.valid.bound; receipts = a.decided.valid.receipts })
      a.decided.bindings refl refl
      (receipt _ _ _ refl (ap (λ x. x.transfer_id) same ∙ a.receipted.transfer)
        (ap (λ x. x.payload_hash) same ∙ a.receipted.payload))

pub accept_transfer-IsRefined :
    (q : Request) (e : Envelope) (fields : List String) (s : Store)
    → IsValid s
    → get (key_of e) s.idempotency ≡ none
    → IsRefined s (some e) (accept_transfer q e fields s)
unfolding accept_transfer get_receipt_record receipt_for receipt_id_for
accept_transfer-IsRefined q e fields s v n =
    let Q = λ (_ : Unit {0}). IsAccepted (receipt_for q e) (acceptance_binding q e) (inside s) in
    caught-HasEnded Q (IsRefined s (some e)) s _ _ _
      (run_transaction-HasEnded Q (acceptance_writes q e fields) s
        (acceptance_writes-IsAccepted q e fields (inside s) v n))
      (λ _ s2 m a. accepted_with-IsRefined q e s s2 m _ n a a.receipted.found)
      (λ raw p m.
        IsTurnedAway-IsRefined s (some e) _ (persistence_failure-IsTurnedAway q e raw s p m v))
