-- ===== src/LawShield/Processor.antt =====
-- The requests and answers of law-shield/lawshield/durable/processor.js, and its checks against the
-- directory.
pub mod Writes
pub mod Decide
pub mod Permission
pub mod Permitted
pub mod Acceptance
pub mod Status
pub mod Handler
use arma_partner_api_sandbox.Prelude.{
  ℕ, String, Bool, true, false, not, ◌&&◌, ◌||◌, Option, none, some, is_some, List, [], ◌==◌,
  Result, ok, err, guard, ◌>>=◌, ◌>>◌,
}
use arma_partner_api_sandbox.Prelude.Json.{Json}
use arma_partner_api_sandbox.LawShield.Store.{Store, OrgMapping, CaseMapping, Authorizer, Receipt}
use arma_partner_api_sandbox.LawShield.Store.Directory.{
  get_org_mapping, get_case_mapping, get_authorizer,
}
use arma_partner_api_sandbox.LawShield.Envelope.{Platform, Envelope, truthy, is_text}
use arma_partner_api_sandbox.LawShield.Disclosure.{Verdict, refuse, enforce_disclosure_policy}

-- The first value of each forwarded header; an empty one counts as missing.
pub record Forwarded : Type 0 where
  pub nonce : String
  pub content_sha256 : String
  pub schema_version : String
  pub transfer_id : String

text_or_empty : Option String → String
text_or_empty none = ""
text_or_empty (some s) = s

-- `headers` is the first value of a header, by its name in lower case.
unfoldable pub read_forwarded_headers : (String → Option String) → Forwarded
unfolding text_or_empty
read_forwarded_headers headers = record {
  nonce = text_or_empty (headers "x-verified-arma-nonce");
  content_sha256 = text_or_empty (headers "x-verified-arma-content-sha256");
  schema_version = text_or_empty (headers "x-integration-schema-version");
  transfer_id = text_or_empty (headers "x-integration-transfer-id");
}

-- `now` is the caller's, `clock` what `Date.now()` reads during the request; `is_disabled` is the
-- kill switch.
pub record Request : Type 0 where
  pub raw_body : String
  pub forwarded : Forwarded
  pub now : ℕ
  pub clock : ℕ
  pub is_disabled : Bool

-- ERROR, REJECTED, QUARANTINED, DUPLICATE, ACCEPTED
pub data Kind : Type 0 where
  error_kind rejected_kind quarantined_kind duplicate_kind accepted_kind : Kind

pub record ReceiptBody : Type 0 where
  pub receipt_id : String
  pub transfer_id : String
  pub accepted_at : ℕ
  pub processing_result : String
  pub payload_hash : String

pub record RejectedBody : Type 0 where
  pub error : Option String
  pub transfer_id : Option String
  pub idempotency_key : Option String
  pub is_quarantined : Bool
  pub violation_paths : Option (List String)

-- `accepted` is true with a receipt and false without
pub data Body : Type 0 where
  with_receipt : ReceiptBody → Body
  without_receipt : RejectedBody → Body

-- `meta` is read by tests only
pub record Outcome : Type 0 where
  pub kind : Kind
  pub http_status : ℕ
  pub body : Body

unfoldable pub receipt_of : Body → Option ReceiptBody
receipt_of (with_receipt r) = some r
receipt_of (without_receipt b) = none

-- the receipt and the kind of an answer
unfoldable pub receipt_in : Result Outcome → Option ReceiptBody
unfolding receipt_of
receipt_in (ok o) = receipt_of o.body
receipt_in (err code) = none

unfoldable pub kind_in : Result Outcome → Option Kind
kind_in (ok o) = some o.kind
kind_in (err code) = none

unfoldable pub receipt_wire_shape : Receipt → Body
receipt_wire_shape r = with_receipt (record {
  receipt_id = r.receipt_id;
  transfer_id = r.transfer_id;
  accepted_at = r.accepted_at;
  processing_result = r.processing_result;
  payload_hash = r.payload_hash;
})

-- without ids, for an answer before there is an envelope
unfoldable pub bare_error : ℕ → String → Outcome
bare_error status code = record {
  kind = error_kind;
  http_status = status;
  body = without_receipt (record {
    error = some code;
    transfer_id = none;
    idempotency_key = none;
    is_quarantined = false;
    violation_paths = none;
  });
}

unfoldable pub rejected_wire_shape : Envelope → Option String → Bool → Option (List String) → Body
rejected_wire_shape e error is_quarantined violation_paths = without_receipt (record {
  error = error;
  transfer_id = some e.transfer_id;
  idempotency_key = some e.idempotency_key;
  is_quarantined = is_quarantined;
  violation_paths = violation_paths;
})

unfoldable pub authorizer_found : Envelope → Option Authorizer → Result (Unit {0})
authorizer_found e none = err "AUTHORIZER_UNKNOWN"
authorizer_found e (some a) = do
  guard a.is_active "AUTHORIZER_INACTIVE"
  guard (a.arma_org_id == e.arma_org_id) "AUTHORIZER_ORG_MISMATCH"

unfoldable pub check_processor_authorizer : Store → Envelope → Result (Unit {0})
unfolding authorizer_found
check_processor_authorizer s e = authorizer_found e (get_authorizer s e.authorized_by)

unfoldable pub case_found : Envelope → Option CaseMapping → Result (Unit {0})
case_found e none = err "CASE_MAPPING_MISSING"
case_found e (some m) = do
  guard m.is_active "CASE_MAPPING_INACTIVE"
  guard (m.law_shield_org_id == e.law_shield_org_id) "CASE_MAPPING_MISMATCH"
  guard (not (truthy e.law_shield_case_id) || is_text e.law_shield_case_id m.law_shield_case_id)
      "CASE_MAPPING_MISMATCH"

-- only for a transfer of an incident
unfoldable pub case_checked : Bool → Envelope → Option CaseMapping → Result (Unit {0})
case_checked true e found = case_found e found
case_checked false e found = ok tt

unfoldable pub org_found : Envelope → Option OrgMapping → Result (Unit {0})
org_found e none = err "ORG_MAPPING_MISSING"
org_found e (some m) = do
  guard m.is_active "ORG_MAPPING_INACTIVE"
  guard (m.law_shield_org_id == e.law_shield_org_id) "ORG_MAPPING_MISMATCH"

unfoldable pub check_processor_mappings : Platform → Store → Envelope → Result (Unit {0})
unfolding org_found case_checked case_found
check_processor_mappings p s e = do
  org_found e (get_org_mapping s e.arma_org_id)
  case_checked (truthy e.incident_id) e (get_case_mapping s e.arma_org_id (p.to_text e.incident_id))

unfoldable pub after_checks : Result (Unit {0}) → Verdict → Verdict
after_checks (err code) v = refuse code none
after_checks (ok u) v = v

-- The business checks of the first delivery of a key, in their order.
unfoldable pub business_verdict : Platform → Store → Envelope → Verdict
unfolding after_checks
business_verdict p s e =
    after_checks (check_processor_authorizer s e >> check_processor_mappings p s e)
      (enforce_disclosure_policy e.record_type e.payload)
