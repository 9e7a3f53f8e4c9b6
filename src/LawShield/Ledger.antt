-- ===== src/LawShield/Ledger.antt =====
-- What the processor of law-shield promises its partner: a ledger that holds, for each idempotency
-- key, the first decision on a transfer under it.
pub mod Invariant
pub mod Transactions
pub mod Commits
pub mod Acceptance
pub mod Refinement
pub mod Deliveries
pub mod Requests
pub mod Runs
pub mod Inquiry
pub mod Spared
pub mod Rollback
use arma_partner_api_sandbox.Prelude.{
  ℕ, String, Bool, true, false, Option, none, some, ◌≡◌, ◌==◌, joined, Result, ok, err,
  if◌then◌else◌,
}
use arma_partner_api_sandbox.Prelude.Map.{get}
use arma_partner_api_sandbox.Prelude.Json.{Json}
use arma_partner_api_sandbox.LawShield.Store.{
  Store, Decision, accepted, rejected, quarantined, Binding,
}
use arma_partner_api_sandbox.LawShield.Envelope.{Platform, Envelope, validate_envelope}
use arma_partner_api_sandbox.LawShield.Processor.{
  Request, Kind, error_kind, rejected_kind, quarantined_kind, duplicate_kind, accepted_kind, Body,
  with_receipt, without_receipt, Outcome, ReceiptBody, RejectedBody,
}

pub record Entry : Type 0 where
  pub transfer_id : String
  pub payload_hash : String
  pub outcome : Decision
  pub error_code : Option String

abbrev pub Ledger : Type 0
Ledger = String → Option Entry

unfoldable pub entry_of : Binding → Entry
entry_of b = record {
  transfer_id = b.transfer_id;
  payload_hash = b.payload_hash;
  outcome = b.outcome;
  error_code = b.error_code;
}

unfoldable pub opt_entry : Option Binding → Option Entry
opt_entry none = none
opt_entry (some b) = some (entry_of b)

-- what the store says of a key `schema::key`
unfoldable pub view : Store → Ledger
view s k = opt_entry (get k s.idempotency)

unfoldable pub update : Ledger → String → Entry → Ledger
update l k en j = if k == j then some en else l j

abbrev pub key_of : Envelope → String
key_of e = joined e.schema_version e.idempotency_key

unfoldable pub validated : Result Envelope → Option Envelope
validated (ok e) = some e
validated (err code) = none

unfoldable pub parsed : Platform → ℕ → Option Json → Option Envelope
unfolding validated
parsed p clock none = none
parsed p clock (some v) = validated (validate_envelope p clock v)

-- the valid envelope that a request carries
unfoldable pub envelope_of : Platform → Request → Option Envelope
unfolding parsed
envelope_of p q = parsed p q.clock (p.parse q.raw_body)

unfoldable pub is_refusal_kind : Kind → Bool
is_refusal_kind accepted_kind = false
is_refusal_kind duplicate_kind = false
is_refusal_kind _ = true

-- The answer gives no receipt, and claims no earlier decision.
pub data IsRefusal : Result Outcome → Type 0 where
  an_error : (code : String) → IsRefusal (err code)
  a_refusal :
      (kind : Kind) (status : ℕ) (b : RejectedBody)
      → is_refusal_kind kind ≡ true
      → IsRefusal (ok (record { kind = kind; http_status = status; body = without_receipt b }))

-- How an entry's decision is answered, first or again: the receipt of its transfer and payload if it
-- was accepted, its error otherwise.
pub data IsAnswer : Entry → Kind → Result Outcome → Type 0 where
  receipt :
      (en : Entry) (kind : Kind) (r : ReceiptBody)
      → en.outcome ≡ accepted
      → r.transfer_id ≡ en.transfer_id
      → r.payload_hash ≡ en.payload_hash
      → IsAnswer en kind (ok (record { kind = kind; http_status = 200; body = with_receipt r }))
  refusal :
      (en : Entry) (kind : Kind) (b : RejectedBody)
      → (en.outcome ≡ accepted → ⊥)
      → b.error ≡ en.error_code
      → IsAnswer en kind (ok (record { kind = kind; http_status = 200; body = without_receipt b }))

unfoldable pub first_kind : Decision → Kind
first_kind accepted = accepted_kind
first_kind rejected = rejected_kind
first_kind quarantined = quarantined_kind

-- The steps of the ledger: an unused key is decided, a decision is repeated for the same transfer and
-- payload, or nothing changes and no receipt is given.
pub data IsStep (l : Ledger) : Option Envelope → Result Outcome → Ledger → Type 0 where
  decided :
      (e : Envelope) (en : Entry) (r : Result Outcome)
      → l (key_of e) ≡ none
      → en.transfer_id ≡ e.transfer_id
      → en.payload_hash ≡ e.payload_hash
      → IsAnswer en (first_kind en.outcome) r
      → IsStep l (some e) r (update l (key_of e) en)
  repeated :
      (e : Envelope) (en : Entry) (r : Result Outcome)
      → l (key_of e) ≡ some en
      → en.transfer_id ≡ e.transfer_id
      → en.payload_hash ≡ e.payload_hash
      → IsAnswer en duplicate_kind r
      → IsStep l (some e) r l
  refused : (o : Option Envelope) (r : Result Outcome) → IsRefusal r → IsStep l o r l
