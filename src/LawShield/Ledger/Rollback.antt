-- ===== src/LawShield/Ledger/Rollback.antt =====
-- A failed request to law-shield/lawshield/durable/processor.js leaves only its audit.
use arma_partner_api_sandbox.Prelude.{
  ℕ, String, Bool, true, false, not, ◌&&◌, ◌||◌, Option, none, some, List, ◌≡◌, refl, ap, ◌∙◌, ◌==◌,
  Result, ok, err, Bool-cases, inl, inr, if◌then◌else◌, ltb, abs_diff,
}
use arma_partner_api_sandbox.Prelude.Map.{get}
use arma_partner_api_sandbox.Prelude.Json.{Json}
use arma_partner_api_sandbox.Prelude.Exec.Ensures.{Ensures, returned, thrown}
use arma_partner_api_sandbox.LawShield.Store.{
  Store, Decision, accepted, rejected, quarantined, Binding, Receipt, AuditEntry, FailPoints,
  NonceRecord,
}
use arma_partner_api_sandbox.LawShield.Store.Exec.{Exec, continue, pure}
use arma_partner_api_sandbox.LawShield.Store.Writes.{
  nonce_validity_window_ms, is_nonce, append_audit, trigger_fail_point, get_receipt_record,
  resolve_idempotency_key, resolve_found, get_nonce_record,
}
use arma_partner_api_sandbox.LawShield.Store.Transactions.Effects.{
  run_transaction-HasEnded, any_HasEnded, caught-HasEnded, continue-HasEnded,
}
use arma_partner_api_sandbox.LawShield.Envelope.{Platform, Envelope, integration_schema_version}
use arma_partner_api_sandbox.LawShield.Disclosure.{Verdict, refuse, admit}
use arma_partner_api_sandbox.LawShield.Processor.{
  Request, Kind, error_kind, Outcome, business_verdict,
}
use arma_partner_api_sandbox.LawShield.Processor.Writes.{
  answer, refused_as, acceptance_writes, receipt_for, receipt_id_for,
}
use arma_partner_api_sandbox.LawShield.Processor.Decide.{
  persistence_failure, quarantine_integrity_conflict, reject_transfer, accept_transfer,
  accepted_with, refused_kind, duplicate_receipt, duplicate_error, duplicate_by, collapse_duplicate,
  by_verdict, by_resolution, refuse_replay, by_nonce, process_fresh, process_envelope,
  best_effort_audit, invalid_entry, invalid_answer, by_validation, by_parse, is_content_hash,
  process_transfer_request,
}
use arma_partner_api_sandbox.LawShield.Store.Transactions.Neutral.{Spares}
use arma_partner_api_sandbox.LawShield.Ledger.Spared.{process_transfer_request-Spares}
use arma_partner_api_sandbox.LawShield.Ledger.{key_of}
use arma_partner_api_sandbox.LawShield.Ledger.Invariant.{IsValid}
use arma_partner_api_sandbox.LawShield.Ledger.Refinement.{inside}
use arma_partner_api_sandbox.LawShield.Ledger.Acceptance.{
  IsAccepted, acceptance_binding, acceptance_writes-IsAccepted,
}

-- The collections are as they were: what a rollback restores. Of the fail points and the depth the
-- result below speaks.
abbrev SparesData : Store → Store → Type 0
SparesData s s' = s' ≡ record s {
  audit = s'.audit;
  audit_sequence = s'.audit_sequence;
  fail_points = s'.fail_points;
  tx_depth = s'.tx_depth;
}

is_error_kind : Kind → Bool
is_error_kind error_kind = true
is_error_kind _ = false

-- a throw, or an answer of the kind ERROR
unfoldable pub has_failed : Result Outcome → Bool
unfolding is_error_kind
has_failed (err code) = true
has_failed (ok o) = is_error_kind o.kind

abbrev FailsClean : Store → Result Outcome × Store → Type 0
FailsClean s x = has_failed x.0 ≡ true → SparesData s x.1

append_audit-SparesData :
    (e : AuditEntry) (clock : ℕ) (s : Store)
    → Ensures (λ _ s'. SparesData s s') (append_audit e clock s)
unfolding append_audit trigger_fail_point
append_audit-SparesData e clock s = elim (Bool-cases s.fail_points.audit_write) [
  | inl h ↦ rw h (thrown _ _)
  | inr h ↦ simp h (returned _ _ refl)
]

persistence_failure-SparesData :
    (q : Request) (e : Envelope) (raw : String) (s : Store) (f : FailPoints) (n : ℕ)
    → SparesData s (persistence_failure q e raw (record s { fail_points = f; tx_depth = n })).1
unfolding persistence_failure
persistence_failure-SparesData q e raw s f n =
    let s1 = record s { fail_points = f; tx_depth = n } in
    caught-HasEnded (λ _ s'. SparesData (inside s1) s') (λ x. SparesData s x.1) s1 _ _ _
      (run_transaction-HasEnded (λ _ s'. SparesData (inside s1) s') (append_audit _ q.clock) s1
        (append_audit-SparesData _ q.clock (inside s1)))
      (λ _ s2 m g. ap {A = Store} {B = Store} (λ z. record z { tx_depth = m }) g) (λ _ p m. refl)

quarantine-FailsClean :
    (q : Request) (e : Envelope) (code : String) (existing : Option String) (s : Store)
    → FailsClean s (quarantine_integrity_conflict q e code existing s)
unfolding quarantine_integrity_conflict answer has_failed
quarantine-FailsClean q e code existing s =
    caught-HasEnded (λ _ _. Unit {0}) (FailsClean s) s _ _ _ (any_HasEnded _ s)
      (λ _ s2 m _ h. absurd (cc (h))) (λ raw f m h. persistence_failure-SparesData q e raw s f m)

refused_kind-failed : (d : Decision) → is_error_kind (refused_kind d) ≡ true → ⊥
unfolding refused_kind is_error_kind
refused_kind-failed accepted h = absurd (cc (h))
refused_kind-failed rejected h = absurd (cc (h))
refused_kind-failed quarantined h = absurd (cc (h))

reject_transfer-FailsClean :
    (q : Request) (e : Envelope) (code : String) (paths : Option (List String)) (s : Store)
    → FailsClean s (reject_transfer q e code paths s)
unfolding reject_transfer answer has_failed
reject_transfer-FailsClean q e code paths s =
    caught-HasEnded (λ _ _. Unit {0}) (FailsClean s) s _ _ _ (any_HasEnded _ s)
      (λ _ s2 m _ h. absurd (refused_kind-failed (refused_as code) h))
      (λ raw f m h. persistence_failure-SparesData q e raw s f m)

accepted_with-FailsClean :
    (q : Request) (e : Envelope) (s s' : Store) (o : Option Receipt) (r : Receipt)
    → o ≡ some r
    → FailsClean s (accepted_with q e o s')
unfolding accepted_with answer has_failed
accepted_with-FailsClean q e s s' none r h = absurd (cc h)
accepted_with-FailsClean q e s s' (some x) r h = λ k. absurd (cc (k))

-- The receipt that was just issued is there.
accept_transfer-FailsClean :
    (q : Request) (e : Envelope) (fields : List String) (s : Store)
    → IsValid s
    → get (key_of e) s.idempotency ≡ none
    → FailsClean s (accept_transfer q e fields s)
unfolding accept_transfer get_receipt_record receipt_for receipt_id_for
accept_transfer-FailsClean q e fields s v n =
    let Q = λ (_ : Unit {0}). IsAccepted (receipt_for q e) (acceptance_binding q e) (inside s) in
    caught-HasEnded Q (FailsClean s) s _ _ _
      (run_transaction-HasEnded Q (acceptance_writes q e fields) s
        (acceptance_writes-IsAccepted q e fields (inside s) v n))
      (λ _ s2 m a. accepted_with-FailsClean q e s _ _ _ a.receipted.found)
      (λ raw f m h. persistence_failure-SparesData q e raw s f m)

duplicate_receipt-FailsClean :
    (q : Request) (e : Envelope) (b : Binding) (o : Option Receipt) (s : Store)
    → FailsClean s (duplicate_receipt q e b o s)
unfolding duplicate_receipt answer has_failed
duplicate_receipt-FailsClean q e b none s = quarantine-FailsClean q e _ _ s
duplicate_receipt-FailsClean q e b (some r) s =
    continue-HasEnded (λ _ _. Unit {0}) (FailsClean s) s _ _ (any_HasEnded _ s)
      (λ _ s2 m _ h. absurd (cc (h))) (λ code f m h. refl)

duplicate_error-FailsClean :
    (q : Request) (e : Envelope) (b : Binding) (s : Store) → FailsClean s (duplicate_error q e b s)
unfolding duplicate_error answer has_failed
duplicate_error-FailsClean q e b s =
    continue-HasEnded (λ _ _. Unit {0}) (FailsClean s) s _ _ (any_HasEnded _ s)
      (λ _ s2 m _ h. absurd (cc (h))) (λ code f m h. refl)

duplicate_by-FailsClean :
    (q : Request) (e : Envelope) (b : Binding) (d : Decision) (s : Store)
    → FailsClean s (duplicate_by q e b d s)
unfolding duplicate_by
duplicate_by-FailsClean q e b accepted s = duplicate_receipt-FailsClean q e b _ s
duplicate_by-FailsClean q e b rejected s = duplicate_error-FailsClean q e b s
duplicate_by-FailsClean q e b quarantined s = duplicate_error-FailsClean q e b s

refuse_replay-FailsClean :
    (q : Request) (e : Envelope) (r : NonceRecord) (s : Store)
    → FailsClean s (refuse_replay q e r s)
unfolding refuse_replay answer has_failed
refuse_replay-FailsClean q e r s =
    continue-HasEnded (λ _ _. Unit {0}) (FailsClean s) s _ _ (any_HasEnded _ s)
      (λ _ s2 m _ h. absurd (cc (h))) (λ code f m h. refl)

by_verdict-FailsClean :
    (q : Request) (e : Envelope) (w : Verdict) (s : Store)
    → IsValid s
    → get (key_of e) s.idempotency ≡ none
    → FailsClean s (by_verdict q e w s)
unfolding by_verdict
by_verdict-FailsClean q e (refuse code paths) s v n = reject_transfer-FailsClean q e code paths s
by_verdict-FailsClean q e (admit fields) s v n = accept_transfer-FailsClean q e fields s v n

by_resolution-FailsClean :
    (p : Platform) (q : Request) (e : Envelope) (o : Option Binding) (s : Store)
    → IsValid s
    → get (key_of e) s.idempotency ≡ o
    → FailsClean s (by_resolution p q e (resolve_found e.transfer_id e.payload_hash o) s)
unfolding by_resolution resolve_found collapse_duplicate
by_resolution-FailsClean p q e none s v g = by_verdict-FailsClean q e (business_verdict p s e) s v g
by_resolution-FailsClean p q e (some b) s v g =
    elim (Bool-cases
      (not (b.transfer_id == e.transfer_id) || not (b.payload_hash == e.payload_hash))) [
        | inl x ↦ rw x (quarantine-FailsClean q e _ _ s)
        | inr x ↦ rw x (duplicate_by-FailsClean q e b b.outcome s)
      ]

by_nonce-FailsClean :
    (p : Platform) (q : Request) (e : Envelope) (o : Option NonceRecord) (s : Store)
    → IsValid s
    → FailsClean s (by_nonce p q e o s)
unfolding by_nonce resolve_idempotency_key
by_nonce-FailsClean p q e (some r) s v = refuse_replay-FailsClean q e r s
by_nonce-FailsClean p q e none s v =
    by_resolution-FailsClean p q e (get (key_of e) s.idempotency) s v refl

-- an early return that leaves the store alone
either :
    (c : Bool) (r : Result Outcome) (s : Store) (x : Result Outcome × Store)
    → FailsClean s x
    → FailsClean s (if c then (r, s) else x)
either true r s x h = λ k. refl
either false r s x h = h

process_envelope-FailsClean :
    (p : Platform) (q : Request) (e : Envelope) (s : Store)
    → IsValid s
    → FailsClean s (process_envelope p q e s)
unfolding process_envelope process_fresh
process_envelope-FailsClean p q e s v =
    either (not (q.forwarded.transfer_id == "") && not (q.forwarded.transfer_id == e.transfer_id)) _
      s _
      (either (not (p.sha256_hex q.raw_body == q.forwarded.content_sha256)) _ s _ (
        either (ltb nonce_validity_window_ms (abs_diff q.now e.sent_at)) _ s _
          (by_nonce-FailsClean p q e (get_nonce_record s e.schema_version q.forwarded.nonce) s v)))

continue-FailsClean :
    (s s' : Store) (r : Result (Unit {0})) (f : Unit {0} → Exec Outcome)
    → SparesData s s'
    → ((u : Unit {0}) → FailsClean s (f u s'))
    → FailsClean s (continue r f s')
continue-FailsClean s s' (ok u) f a k = k u
continue-FailsClean s s' (err code) f a k = λ h. a

best_effort_audit-SparesData :
    (q : Request) (entry : AuditEntry) (s : Store) → SparesData s (best_effort_audit q entry s).1
unfolding best_effort_audit
best_effort_audit-SparesData q entry s =
    caught-HasEnded (λ _ s'. SparesData (inside s) s') (λ x. SparesData s x.1) s _ _ _
      (run_transaction-HasEnded (λ _ s'. SparesData (inside s) s') (append_audit entry q.clock) s
        (append_audit-SparesData entry q.clock (inside s)))
      (λ _ s2 m g. ap {A = Store} {B = Store} (λ z. record z { tx_depth = m }) g) (λ _ f m. refl)

by_validation-FailsClean :
    (p : Platform) (q : Request) (j : Json) (r : Result Envelope) (s : Store)
    → IsValid s
    → FailsClean s (by_validation p q j r s)
unfolding by_validation
by_validation-FailsClean p q j (ok e) s v = process_envelope-FailsClean p q e s v
by_validation-FailsClean p q j (err code) s v =
    let audit = best_effort_audit q (invalid_entry q j code) s in
    let only = best_effort_audit-SparesData q (invalid_entry q j code) s in
    continue-FailsClean s audit.1 audit.0 (λ _. pure (invalid_answer j code)) only (λ u h. only)

by_parse-FailsClean :
    (p : Platform) (q : Request) (o : Option Json) (s : Store)
    → IsValid s
    → FailsClean s (by_parse p q o s)
unfolding by_parse
by_parse-FailsClean p q none s v = λ h. refl
by_parse-FailsClean p q (some j) s v = by_validation-FailsClean p q j _ s v

request-FailsClean :
    (p : Platform) (q : Request) (s : Store)
    → IsValid s
    → FailsClean s (process_transfer_request p q s)
unfolding process_transfer_request
request-FailsClean p q s v = either q.is_disabled _ s _ (
    either (q.raw_body == "") _ s _ (
      either (not (is_nonce q.forwarded.nonce)) _ s _ (
        either (not (is_content_hash q.forwarded.content_sha256)) _ s _ (
          either (not (q.forwarded.schema_version == integration_schema_version)) _ s _
            (by_parse-FailsClean p q (p.parse q.raw_body) s v)))))

-- Only the audit trail and its counter may differ.
unfoldable pub IsAuditOnly : Store → Store → Type 0
IsAuditOnly s s' = s' ≡ record s { audit = s'.audit; audit_sequence = s'.audit_sequence }

-- On a valid store, a request that throws or is answered with an ERROR leaves everything but the
-- audit trail and its counter as it was, whatever fail points are set.
pub process_transfer_request-IsAuditOnly :
    (p : Platform) (q : Request) (s : Store)
    → IsValid s
    → has_failed (process_transfer_request p q s).0 ≡ true
    → IsAuditOnly s (process_transfer_request p q s).1
unfolding IsAuditOnly Spares
process_transfer_request-IsAuditOnly p q s v h =
    let s' = (process_transfer_request p q s).1 in
    let (f, d) = process_transfer_request-Spares p q s in
    request-FailsClean p q s v h ∙ (λ i. record s {
      audit = s'.audit;
      audit_sequence = s'.audit_sequence;
      fail_points = f i;
      tx_depth = d i;
    })
