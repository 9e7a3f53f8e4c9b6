-- ===== src/LawShield/Ledger/Spared.antt =====
-- Requests to law-shield/lawshield/durable/processor.js leave no transaction open.
use arma_partner_api_sandbox.Prelude.{
  String, Bool, true, false, not, ◌&&◌, Option, none, some, List, refl, ◌==◌, Result, ok, err,
  if◌then◌else◌, ltb, abs_diff,
}
use arma_partner_api_sandbox.Prelude.Json.{Json, Fields}
use arma_partner_api_sandbox.LawShield.Store.{
  Store, Decision, accepted, rejected, quarantined, Binding, Receipt, AuditEntry, NonceRecord,
}
use arma_partner_api_sandbox.LawShield.Store.Writes.{
  Resolution, first_use, duplicate, conflicting, is_nonce, get_nonce_record,
  nonce_validity_window_ms,
}
use arma_partner_api_sandbox.LawShield.Store.Transactions.Neutral.{
  Spares, continue-Spares, caught-Spares, run_transaction-Spares, register_nonce-Spares,
  create_durable_transfer-Spares, create_receipt_record-Spares, bind_idempotency_key-Spares,
  append_audit-Spares,
}
use arma_partner_api_sandbox.LawShield.Envelope.{Platform, Envelope, integration_schema_version}
use arma_partner_api_sandbox.LawShield.Disclosure.{Verdict, refuse, admit}
use arma_partner_api_sandbox.LawShield.Processor.{Request, Outcome}
use arma_partner_api_sandbox.LawShield.Processor.Writes.{
  acceptance_writes, collapse_writes, conflict_found, conflict_writes, rejection_writes,
  replay_writes,
}
use arma_partner_api_sandbox.LawShield.Processor.Decide.{
  persistence_failure, quarantine_integrity_conflict, duplicate_receipt, duplicate_error,
  duplicate_by, collapse_duplicate, reject_transfer, accepted_with, accept_transfer, by_verdict,
  by_resolution, refuse_replay, by_nonce, process_fresh, process_envelope, best_effort_audit,
  by_validation, by_parse, is_content_hash, process_transfer_request,
}

conflict_found-Spares :
    (q : Request) (e : Envelope) (code : String) (existing prior : Option String) (s : Store)
    → Spares s (conflict_found q e code existing prior s)
unfolding conflict_found
conflict_found-Spares q e code existing (some prior) s = append_audit-Spares _ q.clock s
conflict_found-Spares q e code existing none s =
    continue-Spares s _ _ _ (create_durable_transfer-Spares _ q.clock s)
      (λ _ t. append_audit-Spares _ q.clock t)

conflict_writes-Spares :
    (q : Request) (e : Envelope) (code : String) (existing : Option String) (s : Store)
    → Spares s (conflict_writes q e code existing s)
unfolding conflict_writes
conflict_writes-Spares q e code existing s =
    continue-Spares s _ _ _ (register_nonce-Spares _ _ _ q.clock s)
      (λ _ t. conflict_found-Spares q e code existing _ t)

collapse_writes-Spares :
    (q : Request) (e : Envelope) (d : Decision) (detail : Fields) (s : Store)
    → Spares s (collapse_writes q e d detail s)
unfolding collapse_writes
collapse_writes-Spares q e d detail s =
    continue-Spares s _ _ _ (register_nonce-Spares _ _ _ q.now s)
      (λ _ t. append_audit-Spares _ q.clock t)

rejection_writes-Spares :
    (q : Request) (e : Envelope) (code : String) (paths : Option (List String)) (s : Store)
    → Spares s (rejection_writes q e code paths s)
unfolding rejection_writes
rejection_writes-Spares q e code paths s =
    continue-Spares s _ _ _ (register_nonce-Spares _ _ _ q.now s) (λ _ s1.
      continue-Spares s1 _ _ _ (create_durable_transfer-Spares _ q.clock s1) (λ _ s2.
        continue-Spares s2 _ _ _ (bind_idempotency_key-Spares _ s2)
          (λ _ s3. append_audit-Spares _ q.clock s3)))

acceptance_writes-Spares :
    (q : Request) (e : Envelope) (fields : List String) (s : Store)
    → Spares s (acceptance_writes q e fields s)
unfolding acceptance_writes
acceptance_writes-Spares q e fields s =
    continue-Spares s _ _ _ (register_nonce-Spares _ _ _ q.now s) (λ _ s1.
      continue-Spares s1 _ _ _ (create_durable_transfer-Spares _ q.clock s1) (λ _ s2.
        continue-Spares s2 _ _ _ (create_receipt_record-Spares _ s2) (λ _ s3.
          continue-Spares s3 _ _ _ (bind_idempotency_key-Spares _ s3)
            (λ _ s4. append_audit-Spares _ q.clock s4))))

-- What only returns leaves the store alone.
returned-Spares : (r : Result Outcome) (s : Store) → Spares s (r, s)
unfolding Spares
returned-Spares r s = (refl, refl)

persistence_failure-Spares :
    (q : Request) (e : Envelope) (raw : String) (s : Store)
    → Spares s (persistence_failure q e raw s)
unfolding persistence_failure
persistence_failure-Spares q e raw s =
    caught-Spares s _ _ _ _ (run_transaction-Spares _ s (λ t. append_audit-Spares _ q.clock t))
      (λ _ t. returned-Spares _ t) (λ _ t. returned-Spares _ t)

quarantine-Spares :
    (q : Request) (e : Envelope) (code : String) (existing : Option String) (s : Store)
    → Spares s (quarantine_integrity_conflict q e code existing s)
unfolding quarantine_integrity_conflict
quarantine-Spares q e code existing s =
    caught-Spares s _ _ _ _
      (run_transaction-Spares _ s (λ t. conflict_writes-Spares q e code existing t))
      (λ _ t. returned-Spares _ t) (λ raw t. persistence_failure-Spares q e raw t)

reject_transfer-Spares :
    (q : Request) (e : Envelope) (code : String) (paths : Option (List String)) (s : Store)
    → Spares s (reject_transfer q e code paths s)
unfolding reject_transfer
reject_transfer-Spares q e code paths s =
    caught-Spares s _ _ _ _
      (run_transaction-Spares _ s (λ t. rejection_writes-Spares q e code paths t))
      (λ _ t. returned-Spares _ t) (λ raw t. persistence_failure-Spares q e raw t)

accepted_with-Spares :
    (q : Request) (e : Envelope) (o : Option Receipt) (s : Store) → Spares s (accepted_with q e o s)
unfolding accepted_with
accepted_with-Spares q e none s = persistence_failure-Spares q e "TypeError" s
accepted_with-Spares q e (some r) s = returned-Spares _ s

accept_transfer-Spares :
    (q : Request) (e : Envelope) (fields : List String) (s : Store)
    → Spares s (accept_transfer q e fields s)
unfolding accept_transfer
accept_transfer-Spares q e fields s =
    caught-Spares s _ _ _ _
      (run_transaction-Spares _ s (λ t. acceptance_writes-Spares q e fields t))
      (λ _ t. accepted_with-Spares q e _ t) (λ raw t. persistence_failure-Spares q e raw t)

duplicate_receipt-Spares :
    (q : Request) (e : Envelope) (b : Binding) (o : Option Receipt) (s : Store)
    → Spares s (duplicate_receipt q e b o s)
unfolding duplicate_receipt
duplicate_receipt-Spares q e b none s = quarantine-Spares q e _ _ s
duplicate_receipt-Spares q e b (some r) s =
    continue-Spares s _ _ _
      (run_transaction-Spares _ s (λ t. collapse_writes-Spares q e accepted _ t))
      (λ _ t. returned-Spares _ t)

duplicate_error-Spares :
    (q : Request) (e : Envelope) (b : Binding) (s : Store) → Spares s (duplicate_error q e b s)
unfolding duplicate_error
duplicate_error-Spares q e b s =
    continue-Spares s _ _ _
      (run_transaction-Spares _ s (λ t. collapse_writes-Spares q e b.outcome _ t))
      (λ _ t. returned-Spares _ t)

duplicate_by-Spares :
    (q : Request) (e : Envelope) (b : Binding) (d : Decision) (s : Store)
    → Spares s (duplicate_by q e b d s)
unfolding duplicate_by
duplicate_by-Spares q e b accepted s = duplicate_receipt-Spares q e b _ s
duplicate_by-Spares q e b rejected s = duplicate_error-Spares q e b s
duplicate_by-Spares q e b quarantined s = duplicate_error-Spares q e b s

by_verdict-Spares :
    (q : Request) (e : Envelope) (v : Verdict) (s : Store) → Spares s (by_verdict q e v s)
unfolding by_verdict
by_verdict-Spares q e (refuse code paths) s = reject_transfer-Spares q e code paths s
by_verdict-Spares q e (admit fields) s = accept_transfer-Spares q e fields s

by_resolution-Spares :
    (p : Platform) (q : Request) (e : Envelope) (r : Resolution) (s : Store)
    → Spares s (by_resolution p q e r s)
unfolding by_resolution collapse_duplicate
by_resolution-Spares p q e first_use s = by_verdict-Spares q e _ s
by_resolution-Spares p q e (duplicate b) s = duplicate_by-Spares q e b b.outcome s
by_resolution-Spares p q e (conflicting b) s = quarantine-Spares q e _ _ s

by_nonce-Spares :
    (p : Platform) (q : Request) (e : Envelope) (o : Option NonceRecord) (s : Store)
    → Spares s (by_nonce p q e o s)
unfolding by_nonce refuse_replay replay_writes
by_nonce-Spares p q e (some r) s =
    continue-Spares s _ _ _ (run_transaction-Spares _ s (λ t. append_audit-Spares _ q.clock t))
      (λ _ t. returned-Spares _ t)
by_nonce-Spares p q e none s = by_resolution-Spares p q e _ s

-- an early return
either_Spares :
    (c : Bool) (r : Result Outcome) (s : Store) (x : Result Outcome × Store)
    → Spares s x
    → Spares s (if c then (r, s) else x)
either_Spares true r s x h = returned-Spares r s
either_Spares false r s x h = h

process_envelope-Spares :
    (p : Platform) (q : Request) (e : Envelope) (s : Store) → Spares s (process_envelope p q e s)
unfolding process_envelope process_fresh
process_envelope-Spares p q e s =
    either_Spares
      (not (q.forwarded.transfer_id == "") && not (q.forwarded.transfer_id == e.transfer_id)) _ s _
      (either_Spares (not (p.sha256_hex q.raw_body == q.forwarded.content_sha256)) _ s _ (
        either_Spares (ltb nonce_validity_window_ms (abs_diff q.now e.sent_at)) _ s _
          (by_nonce-Spares p q e (get_nonce_record s e.schema_version q.forwarded.nonce) s)))

best_effort_audit-Spares :
    (q : Request) (entry : AuditEntry) (s : Store) → Spares s (best_effort_audit q entry s)
unfolding best_effort_audit Spares
best_effort_audit-Spares q entry s =
    caught-Spares s _ _ _ _ (run_transaction-Spares _ s (λ t. append_audit-Spares entry q.clock t))
      (λ _ t. (refl, refl)) (λ _ t. (refl, refl))

by_validation-Spares :
    (p : Platform) (q : Request) (j : Json) (r : Result Envelope) (s : Store)
    → Spares s (by_validation p q j r s)
unfolding by_validation
by_validation-Spares p q j (ok e) s = process_envelope-Spares p q e s
by_validation-Spares p q j (err code) s =
    continue-Spares s _ _ _ (best_effort_audit-Spares q _ s) (λ _ t. returned-Spares _ t)

by_parse-Spares :
    (p : Platform) (q : Request) (o : Option Json) (s : Store) → Spares s (by_parse p q o s)
unfolding by_parse
by_parse-Spares p q none s = returned-Spares _ s
by_parse-Spares p q (some j) s = by_validation-Spares p q j _ s

-- Every request leaves the fail points and the depth of the transactions as they are.
pub process_transfer_request-Spares :
    (p : Platform) (q : Request) (s : Store) → Spares s (process_transfer_request p q s)
unfolding process_transfer_request
process_transfer_request-Spares p q s = either_Spares q.is_disabled _ s _ (
    either_Spares (q.raw_body == "") _ s _ (
      either_Spares (not (is_nonce q.forwarded.nonce)) _ s _ (
        either_Spares (not (is_content_hash q.forwarded.content_sha256)) _ s _ (
          either_Spares (not (q.forwarded.schema_version == integration_schema_version)) _ s _
            (by_parse-Spares p q (p.parse q.raw_body) s)))))
