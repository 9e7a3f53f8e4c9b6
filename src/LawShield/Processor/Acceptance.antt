-- ===== src/LawShield/Processor/Acceptance.antt =====
-- An accepted request passed every check of law-shield/lawshield/durable/processor.js.
use arma_partner_api_sandbox.Prelude.{
  ℕ, Bool, true, false, not, ◌&&◌, Option, none, some, ◌≡◌, refl, ◌==◌, Result, ok, err, eq_iff,
  ltb, abs_diff, ◌≤◌, arith, if◌then◌else◌,
}
use arma_partner_api_sandbox.Prelude.Json.{Json}
use arma_partner_api_sandbox.LawShield.Store.{Store}
use arma_partner_api_sandbox.LawShield.Store.Exec.{Exec, continue, pure}
use arma_partner_api_sandbox.LawShield.Store.Writes.{nonce_validity_window_ms, is_nonce}
use arma_partner_api_sandbox.LawShield.Envelope.{
  Platform, Envelope, integration_schema_version, validate_envelope,
}
use arma_partner_api_sandbox.LawShield.Processor.{
  Request, Outcome, accepted_kind, kind_in, bare_error,
}
use arma_partner_api_sandbox.LawShield.Processor.Writes.{answer}
use arma_partner_api_sandbox.LawShield.Processor.Decide.{
  process_fresh, process_envelope, best_effort_audit, invalid_entry, invalid_answer, by_validation,
  by_parse, is_content_hash, process_transfer_request,
}
use arma_partner_api_sandbox.LawShield.Processor.Permission.{IsNoAcceptance}
use arma_partner_api_sandbox.LawShield.Processor.Permitted.{IsFresh, by_nonce-IsFresh}

abbrev Accepts : Result Outcome × Store → Type 0
Accepts x = kind_in x.0 ≡ some accepted_kind

truth : (x : Bool) → not x ≡ false → x ≡ true
truth x h = ground arith

in_bounds : (m n : ℕ) → ltb m n ≡ false → n ≤ m
in_bounds m n h = ground arith

-- an early return that does not accept was not taken
otherwise :
    (c : Bool) (a b : Result Outcome × Store)
    → IsNoAcceptance a
    → Accepts (if c then a else b)
    → (c ≡ false) × Accepts b
otherwise true a b n h = absurd (n h)
otherwise false a b n h = (refl, h)

-- The body has the forwarded hash, the envelope was sent within the window, its nonce is not known,
-- and the transfer is permitted.
pub record IsIntact (p : Platform) (q : Request) (s : Store) (e : Envelope) : Type 0 where
  pub body : p.sha256_hex q.raw_body ≡ q.forwarded.content_sha256
  pub in_time : abs_diff q.now e.sent_at ≤ nonce_validity_window_ms
  pub fresh : IsFresh p q s e

process_envelope-IsIntact :
    (p : Platform) (q : Request) (e : Envelope) (s : Store)
    → Accepts (process_envelope p q e s)
    → IsIntact p q s e
unfolding process_envelope process_fresh answer kind_in
process_envelope-IsIntact p q e s h =
    let a =
      otherwise
        (not (q.forwarded.transfer_id == "") && not (q.forwarded.transfer_id == e.transfer_id)) _ _
        (λ k. absurd (cc k)) h in
    let b =
      otherwise (not (p.sha256_hex q.raw_body == q.forwarded.content_sha256)) _ _
        (λ k. absurd (cc k)) a.1 in
    let c =
      otherwise (ltb nonce_validity_window_ms (abs_diff q.now e.sent_at)) _ _ (λ k. absurd (cc k))
        b.1 in
    record {
      body =
          (eq_iff (p.sha256_hex q.raw_body) q.forwarded.content_sha256).0
            (truth (p.sha256_hex q.raw_body == q.forwarded.content_sha256) b.0);
      in_time = in_bounds nonce_validity_window_ms (abs_diff q.now e.sent_at) c.0;
      fresh = by_nonce-IsFresh p q e _ s refl c.1;
    }

-- The request was made while the processor is enabled, under a well-formed nonce, with a body that
-- holds a valid envelope.
pub record IsChecked (p : Platform) (q : Request) (s : Store) : Type 0 where
  pub enabled : q.is_disabled ≡ false
  pub nonce : is_nonce q.forwarded.nonce ≡ true
  pub value : Json
  pub parsed : p.parse q.raw_body ≡ some value
  pub envelope : Envelope
  pub valid : validate_envelope p q.clock value ≡ ok envelope
  pub intact : IsIntact p q s envelope

continue-IsNoAcceptance :
    (r : Result (Unit {0})) (f : Unit {0} → Exec Outcome) (s : Store)
    → ((u : Unit {0}) (s' : Store) → IsNoAcceptance (f u s'))
    → IsNoAcceptance (continue r f s)
unfolding kind_in
continue-IsNoAcceptance (ok u) f s n = n u s
continue-IsNoAcceptance (err e) f s n = λ h. absurd (cc (h))

by_validation-ok :
    (p : Platform) (q : Request) (j : Json) (r : Result Envelope) (s : Store)
    → Accepts (by_validation p q j r s)
    → (e : Envelope) × (r ≡ ok e) × IsIntact p q s e
unfolding by_validation invalid_answer answer kind_in
by_validation-ok p q j (ok e) s h = (e, refl, process_envelope-IsIntact p q e s h)
by_validation-ok p q j (err code) s h =
    let audit = best_effort_audit q (invalid_entry q j code) s in
    absurd (
      continue-IsNoAcceptance audit.0 (λ _. pure (invalid_answer j code)) audit.1
        (λ u s' k. absurd (cc (k))) h)

by_parse-ok :
    (p : Platform) (q : Request) (o : Option Json) (s : Store)
    → Accepts (by_parse p q o s)
    → (j : Json) × (o ≡ some j)
      × (e : Envelope) × (validate_envelope p q.clock j ≡ ok e)
      × IsIntact p q s e
unfolding by_parse bare_error kind_in
by_parse-ok p q none s h = absurd (cc h)
by_parse-ok p q (some j) s h =
    let r = by_validation-ok p q j (validate_envelope p q.clock j) s h in (j, refl, r.0, r.1, r.2)

-- A request is accepted only while the processor is enabled, with a well-formed nonce that the
-- registry does not know and a body of the forwarded hash that holds a valid envelope, sent within
-- the window of the time of the request, whose transfer is permitted: by its authorizer, the
-- mappings of its organization and incident, and the disclosure policy.
pub process_transfer_request-IsChecked :
    (p : Platform) (q : Request) (s : Store)
    → kind_in (process_transfer_request p q s).0 ≡ some accepted_kind
    → IsChecked p q s
unfolding process_transfer_request bare_error kind_in
process_transfer_request-IsChecked p q s h =
    let a = otherwise q.is_disabled _ _ (λ k. absurd (cc k)) h in
    let b = otherwise (q.raw_body == "") _ _ (λ k. absurd (cc k)) a.1 in
    let c = otherwise (not (is_nonce q.forwarded.nonce)) _ _ (λ k. absurd (cc k)) b.1 in
    let d =
      otherwise (not (is_content_hash q.forwarded.content_sha256)) _ _ (λ k. absurd (cc k)) c.1 in
    let f =
      otherwise (not (q.forwarded.schema_version == integration_schema_version)) _ _
        (λ k. absurd (cc k)) d.1 in
    let g = by_parse-ok p q (p.parse q.raw_body) s f.1 in
    record {
      enabled = a.0;
      nonce = truth (is_nonce q.forwarded.nonce) c.0;
      value = g.0;
      parsed = g.1;
      envelope = g.2;
      valid = g.3;
      intact = g.4;
    }
