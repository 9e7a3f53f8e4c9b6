-- ===== src/LawShield/Ledger/Requests.antt =====
-- Every request to the processor of law-shield/lawshield/durable/processor.js is a step of the ledger.
use arma_partner_api_sandbox.Prelude.{
  not, ◌&&◌, Option, none, some, ◌≡◌, refl, ◌==◌, Result, ok, err, Bool-cases, inl, inr, ltb,
  abs_diff,
}
use arma_partner_api_sandbox.Prelude.Map.{get}
use arma_partner_api_sandbox.Prelude.Json.{Json}
use arma_partner_api_sandbox.LawShield.Store.{Store, NonceRecord, AuditEntry}
use mathlib.Core.Path.{subst}
use arma_partner_api_sandbox.LawShield.Store.Exec.{Exec, continue}
use arma_partner_api_sandbox.LawShield.Store.Writes.{
  nonce_validity_window_ms, is_nonce, resolve_idempotency_key, append_audit,
}
use arma_partner_api_sandbox.LawShield.Store.Writes.Effects.{Frame, append_audit-Frame}
use arma_partner_api_sandbox.LawShield.Store.Transactions.Effects.{
  run_transaction-HasEnded, caught-HasEnded,
}
use arma_partner_api_sandbox.LawShield.Envelope.{Platform, Envelope, integration_schema_version}
use arma_partner_api_sandbox.LawShield.Processor.{Request, Outcome, bare_error, rejected_wire_shape}
use arma_partner_api_sandbox.LawShield.Processor.Writes.{answer}
use arma_partner_api_sandbox.LawShield.Processor.Decide.{
  by_nonce, process_fresh, process_envelope, best_effort_audit, invalid_answer, by_validation,
  by_parse, is_content_hash, process_transfer_request,
}
use arma_partner_api_sandbox.LawShield.Ledger.{
  key_of, IsRefusal, an_error, a_refusal, is_refusal_kind, envelope_of, parsed, validated,
}
use arma_partner_api_sandbox.LawShield.Ledger.Invariant.{IsValid}
use arma_partner_api_sandbox.LawShield.Ledger.Transactions.{same-IsConsistent}
use arma_partner_api_sandbox.LawShield.Ledger.Commits.{IsKept}
use arma_partner_api_sandbox.LawShield.Ledger.Refinement.{IsRefined, IsTurnedAway-IsRefined, inside}
use arma_partner_api_sandbox.LawShield.Ledger.Deliveries.{
  by_resolution-IsRefined, refuse_replay-IsRefined,
}

-- An answer without a receipt that leaves the store as it is.
refusal-IsRefined :
    (o : Option Envelope) (r : Result Outcome) (s : Store)
    → IsValid s
    → IsRefusal r
    → IsRefined s o (r, s)
refusal-IsRefined o r s v h =
    IsTurnedAway-IsRefined s o (r, s)
      (record { refusal = h; kept = record { valid = v; bindings = refl } })

by_nonce-IsRefined :
    (p : Platform) (q : Request) (e : Envelope) (o : Option NonceRecord) (s : Store)
    → IsValid s
    → IsRefined s (some e) (by_nonce p q e o s)
unfolding by_nonce resolve_idempotency_key
by_nonce-IsRefined p q e (some r) s v = refuse_replay-IsRefined q e r s v
by_nonce-IsRefined p q e none s v =
    by_resolution-IsRefined p q e (get (key_of e) s.idempotency) s v refl

process_envelope-IsRefined :
    (p : Platform) (q : Request) (e : Envelope) (s : Store)
    → IsValid s
    → IsRefined s (some e) (process_envelope p q e s)
unfolding process_envelope process_fresh answer rejected_wire_shape is_refusal_kind
process_envelope-IsRefined p q e s v =
    elim (Bool-cases
      (not (q.forwarded.transfer_id == "") && not (q.forwarded.transfer_id == e.transfer_id))) [
        | inl h ↦ rw h (refusal-IsRefined _ _ s v (a_refusal _ _ _ refl))
        | inr h ↦ elim (Bool-cases (p.sha256_hex q.raw_body == q.forwarded.content_sha256)) [
          | inr m ↦ rw (h, m) (refusal-IsRefined _ _ s v (a_refusal _ _ _ refl))
          | inl m ↦ elim (Bool-cases (ltb nonce_validity_window_ms (abs_diff q.now e.sent_at))) [
            | inl t ↦ rw (h, m, t) (refusal-IsRefined _ _ s v (a_refusal _ _ _ refl))
            | inr t ↦ rw (h, m, t) (by_nonce-IsRefined p q e _ s v)
          ]
        ]
      ]

best_effort_audit-IsKept :
    (q : Request) (entry : AuditEntry) (s : Store)
    → IsValid s
    → ((best_effort_audit q entry s).0 ≡ ok tt) × IsKept s (best_effort_audit q entry s).1
unfolding best_effort_audit
best_effort_audit-IsKept q entry s v =
    caught-HasEnded (λ _. Frame (inside s)) (λ x. (x.0 ≡ ok tt) × IsKept s x.1) s _ _ _
      (run_transaction-HasEnded (λ _. Frame (inside s)) (append_audit entry q.clock) s
        (append_audit-Frame entry q.clock (inside s)))
      (λ _ s2 m g. (
        refl,
        record {
          valid = same-IsConsistent g.bindings g.transfers g.receipts v;
          bindings = g.bindings;
        },
      ))
      (λ _ p m. (
        refl,
        record { valid = record { bound = v.bound; receipts = v.receipts }; bindings = refl },
      ))

continue-returned :
    {A B : Type 0} (R : Result B × Store → Type 0) (f : A → Exec B) (r : Result A) (a : A)
    (s : Store)
    → r ≡ ok a
    → R (f a s)
    → R (continue r f s)
continue-returned R f (ok b) a s h k = let e : a ≡ b = cc (h) in subst (λ c. R (f c s)) e k
continue-returned R f (err code) a s h k = absurd (cc h)

by_validation-IsRefined :
    (p : Platform) (q : Request) (j : Json) (r : Result Envelope) (s : Store)
    → IsValid s
    → IsRefined s (validated r) (by_validation p q j r s)
unfolding by_validation invalid_answer validated answer is_refusal_kind
by_validation-IsRefined p q j (ok e) s v = process_envelope-IsRefined p q e s v
by_validation-IsRefined p q j (err code) s v =
    let k = best_effort_audit-IsKept q _ s v in
    continue-returned (IsRefined s none) _ _ tt _ k.0
      (IsTurnedAway-IsRefined s none _ (record { refusal = a_refusal _ _ _ refl; kept = k.1 }))

by_parse-IsRefined :
    (p : Platform) (q : Request) (o : Option Json) (s : Store)
    → IsValid s
    → IsRefined s (parsed p q.clock o) (by_parse p q o s)
unfolding by_parse parsed bare_error is_refusal_kind
by_parse-IsRefined p q none s v = refusal-IsRefined _ _ s v (a_refusal _ _ _ refl)
by_parse-IsRefined p q (some j) s v = by_validation-IsRefined p q j _ s v

-- On a store whose bindings, transfers and receipts belong together, each request is one step of the
-- ledger: the first decision on an unused key, the repetition of a decision for the same transfer
-- and payload, or an answer without a receipt that leaves the ledger as it is. The store belongs
-- together again afterwards.
pub process_transfer_request-IsRefined :
    (p : Platform) (q : Request) (s : Store)
    → IsValid s
    → IsRefined s (envelope_of p q) (process_transfer_request p q s)
unfolding process_transfer_request envelope_of bare_error is_refusal_kind
process_transfer_request-IsRefined p q s v = elim (Bool-cases q.is_disabled) [
  | inl d ↦ simp d (refusal-IsRefined _ _ s v (an_error _))
  | inr d ↦ elim (Bool-cases (q.raw_body == "")) [
    | inl b ↦ simp (d, b) (refusal-IsRefined _ _ s v (a_refusal _ _ _ refl))
    | inr b ↦ elim (Bool-cases (is_nonce q.forwarded.nonce)) [
      | inr n ↦ simp (d, b, n) (refusal-IsRefined _ _ s v (a_refusal _ _ _ refl))
      | inl n ↦ elim (Bool-cases (is_content_hash q.forwarded.content_sha256)) [
        | inr c ↦ simp (d, b, n, c) (refusal-IsRefined _ _ s v (a_refusal _ _ _ refl))
        | inl c ↦ elim (Bool-cases (q.forwarded.schema_version == integration_schema_version)) [
          | inr g ↦ simp (d, b, n, c, g) (refusal-IsRefined _ _ s v (a_refusal _ _ _ refl))
          | inl g ↦ simp (d, b, n, c, g) (by_parse-IsRefined p q (p.parse q.raw_body) s v)
        ]
      ]
    ]
  ]
]
