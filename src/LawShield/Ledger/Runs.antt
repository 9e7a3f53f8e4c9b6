-- ===== src/LawShield/Ledger/Runs.antt =====
-- What any sequence of requests to the processor of law-shield/lawshield/durable/processor.js keeps.
use mathlib.Core.Path.{subst}
use arma_partner_api_sandbox.Prelude.{
  String, Option, none, some, List, [], ◌∷◌, ◌≡◌, ◌⊎◌, inl, inr, refl, sym, ap, ◌∙◌, ◌==◌, Result,
  Bool-cases, eq_iff,
}
use arma_partner_api_sandbox.LawShield.Store.{Store, accepted}
use arma_partner_api_sandbox.LawShield.Envelope.{Platform, Envelope}
use arma_partner_api_sandbox.LawShield.Processor.{
  Request, Kind, duplicate_kind, accepted_kind, Outcome, ReceiptBody, receipt_of, receipt_in,
  kind_in,
}
use arma_partner_api_sandbox.LawShield.Processor.Decide.{process_transfer_request}
use arma_partner_api_sandbox.LawShield.Ledger.{
  Entry, Ledger, view, update, key_of, envelope_of, IsRefusal, an_error, a_refusal, IsAnswer,
  receipt, refusal, first_kind, IsStep, decided, repeated, refused,
}
use arma_partner_api_sandbox.LawShield.Ledger.Invariant.{IsValid}
use arma_partner_api_sandbox.LawShield.Ledger.Requests.{process_transfer_request-IsRefined}

-- the store after a sequence of requests
unfoldable pub run : Platform → List Request → Store → Store
run p [] s = s
run p (q ∷ qs) s = run p qs (process_transfer_request p q s).1

-- A step keeps every decision.
IsStep-keeps :
    (l : Ledger) (o : Option Envelope) (x : Result Outcome) (l' : Ledger) (k : String) (en : Entry)
    → IsStep l o x l'
    → l k ≡ some en
    → l' k ≡ some en
unfolding update
IsStep-keeps l _ x _ k en (decided e en' _ n t p a) h = elim (Bool-cases (key_of e == k)) [
  | inl same ↦ absurd (cc (n, h, (eq_iff (key_of e) k).0 same))
  | inr other ↦ rw other h
]
IsStep-keeps l _ x _ k en (repeated e en' _ g t p a) h = h
IsStep-keeps l _ x _ k en (refused o _ r) h = h

-- Over any sequence of requests a valid store stays valid and keeps the first decision on each key.
pub run-keeps :
    (p : Platform) (qs : List Request) (s : Store) (k : String) (en : Entry)
    → IsValid s
    → view s k ≡ some en
    → IsValid (run p qs s) × (view (run p qs s) k ≡ some en)
unfolding run
run-keeps p [] s k en v h = (v, h)
run-keeps p (q ∷ qs) s k en v h =
    let done = process_transfer_request-IsRefined p q s v in
    run-keeps p qs (process_transfer_request p q s).1 k en done.valid (
      IsStep-keeps (view s) (envelope_of p q) (process_transfer_request p q s).0 _ k en done.step h)

-- How a step gives a receipt: for a decision that accepts this transfer and payload, first or again.
record GivesReceipt (l : Ledger) (e : Envelope) (x : Result Outcome) (l' : Ledger) (r : ReceiptBody)
    : Type 0 where
  entry : Entry
  after : l' (key_of e) ≡ some entry
  transfer : entry.transfer_id ≡ e.transfer_id
  payload : entry.payload_hash ≡ e.payload_hash
  receipt_transfer : r.transfer_id ≡ entry.transfer_id
  receipt_payload : r.payload_hash ≡ entry.payload_hash
  how :
      ((l (key_of e) ≡ none) × (kind_in x ≡ some accepted_kind))
      ⊎ ((l (key_of e) ≡ some entry) × (kind_in x ≡ some duplicate_kind))

IsAnswer-receipt :
    (en : Entry) (k : Kind) (x : Result Outcome) (r : ReceiptBody)
    → IsAnswer en k x
    → receipt_in x ≡ some r
    → (en.outcome ≡ accepted)
      × (r.transfer_id ≡ en.transfer_id)
      × (r.payload_hash ≡ en.payload_hash)
      × (kind_in x ≡ some k)
unfolding receipt_in receipt_of kind_in
IsAnswer-receipt en k _ r (receipt _ _ r0 a t p) h =
    let same : r0 ≡ r = cc (h) in
    (a, ap (λ z. z.transfer_id) (sym same) ∙ t, ap (λ z. z.payload_hash) (sym same) ∙ p, refl)
IsAnswer-receipt en k _ r (refusal _ _ b n q) h = absurd (cc h)

IsRefusal-receipt : (x : Result Outcome) (r : ReceiptBody) → IsRefusal x → receipt_in x ≡ some r → ⊥
unfolding receipt_in receipt_of
IsRefusal-receipt _ r (an_error code) h = absurd (cc h)
IsRefusal-receipt _ r (a_refusal k n b e) h = absurd (cc h)

update_self : (l : Ledger) (k : String) (en : Entry) → update l k en k ≡ some en
unfolding update
update_self l k en = rw ((eq_iff k k).1 refl) refl

IsStep-GivesReceipt :
    (l : Ledger) (o : Option Envelope) (e : Envelope) (x : Result Outcome) (l' : Ledger)
    (r : ReceiptBody)
    → IsStep l o x l'
    → o ≡ some e
    → receipt_in x ≡ some r
    → GivesReceipt l e x l' r
unfolding first_kind
IsStep-GivesReceipt l _ e x _ r (decided e0 en _ n t p a) h g =
    let same : e0 ≡ e = cc (h) in
    let (acc, rt, rp, k) = IsAnswer-receipt en (first_kind en.outcome) x r a g in
    subst (λ z. GivesReceipt l z x (update l (key_of e0) en) r) same
      (record {
        entry = en;
        after = update_self l (key_of e0) en;
        transfer = t;
        payload = p;
        receipt_transfer = rt;
        receipt_payload = rp;
        how = inl (n, k ∙ ap (λ d. some (first_kind d)) acc);
      })
IsStep-GivesReceipt l _ e x _ r (repeated e0 en _ u t p a) h g =
    let same : e0 ≡ e = cc (h) in
    let (acc, rt, rp, k) = IsAnswer-receipt en duplicate_kind x r a g in
    subst (λ z. GivesReceipt l z x l r) same
      (record {
        entry = en;
        after = u;
        transfer = t;
        payload = p;
        receipt_transfer = rt;
        receipt_payload = rp;
        how = inr (u, k);
      })
IsStep-GivesReceipt l _ e x _ r (refused o _ i) h g = absurd (IsRefusal-receipt x r i g)

-- From a valid store: once a request has been answered with a receipt, any later request under its
-- idempotency key that is answered with one, whatever requests came between, is a duplicate: it is
-- for the same transfer and payload, and so is its receipt.
pub receipts_once :
    (p : Platform) (q q' : Request) (qs : List Request) (s : Store) (e e' : Envelope)
    (r r' : ReceiptBody)
    → IsValid s
    → envelope_of p q ≡ some e
    → receipt_in (process_transfer_request p q s).0 ≡ some r
    → envelope_of p q' ≡ some e'
    → key_of e' ≡ key_of e
    → let s' = run p qs (process_transfer_request p q s).1 in
      receipt_in (process_transfer_request p q' s').0 ≡ some r'
      → (kind_in (process_transfer_request p q' s').0 ≡ some duplicate_kind)
        × (e'.transfer_id ≡ e.transfer_id)
        × (e'.payload_hash ≡ e.payload_hash)
        × (r'.transfer_id ≡ r.transfer_id)
        × (r'.payload_hash ≡ r.payload_hash)
receipts_once p q q' qs s e e' r r' v h g h' k g' =
    let one = process_transfer_request-IsRefined p q s v in
    let first = IsStep-GivesReceipt _ _ e _ _ r one.step h g in
    let between = run-keeps p qs _ (key_of e) first.entry one.valid first.after in
    let two = process_transfer_request-IsRefined p q' _ between.0 in
    let second = IsStep-GivesReceipt _ _ e' _ _ r' two.step h' g' in
    let s' = run p qs (process_transfer_request p q s).1 in
    let known : view s' (key_of e') ≡ some first.entry = ap (view s') k ∙ between.1 in
    elim second.how [
      | inl new ↦ absurd (cc (new.0, known))
      | inr old ↦
          let same : second.entry ≡ first.entry = cc (old.0, known) in
          (
            old.1,
            sym second.transfer ∙ ap (λ z. z.transfer_id) same ∙ first.transfer,
            sym second.payload ∙ ap (λ z. z.payload_hash) same ∙ first.payload,
            second.receipt_transfer ∙ ap (λ z. z.transfer_id) same ∙ sym first.receipt_transfer,
            second.receipt_payload ∙ ap (λ z. z.payload_hash) same ∙ sym first.receipt_payload,
          )
    ]
