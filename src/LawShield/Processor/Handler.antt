-- ===== src/LawShield/Processor/Handler.antt =====
-- `createDurableProcessorServer` of law-shield/lawshield/durable/processor.js: routing, the kill
-- switch and the bearer token.
pub mod Guards
use text.Mathlib.Text.{starts_with}
use arma_partner_api_sandbox.Prelude.{
  ℕ, String, Bool, true, false, not, ◌&&◌, ◌||◌, Option, none, some, ◌==◌, ◌<+>◌, ◌≡◌, refl, Result,
  ok, err, if◌then◌else◌, Bool-cases, inl, inr, arith, codes, map, in_range, ◌+◌,
}
use arma_partner_api_sandbox.Governance.Classification.{same_codes}
use arma_partner_api_sandbox.LawShield.Store.{Store}
use arma_partner_api_sandbox.LawShield.Envelope.{Platform, integration_schema_version}
use arma_partner_api_sandbox.LawShield.Processor.{read_forwarded_headers, Outcome}
use arma_partner_api_sandbox.LawShield.Processor.Decide.{process_transfer_request}
use arma_partner_api_sandbox.LawShield.Processor.Status.{StatusResponse, build_status_response}

-- LAW_SHIELD_PROCESSOR_DISABLED, and the token of the server or of the environment
pub record Settings : Type 0 where
  pub disabled : Option String
  pub token : Option String
  pub processor_token : Option String

-- `readRawBody`: the text, or the error's message
pub data RawBody : Type 0 where
  read : String → RawBody
  unread : String → RawBody

-- `search` is the value of a query parameter.
pub record HttpRequest : Type 0 where
  pub method : String
  pub url : String
  pub search : String → Option String
  pub headers : String → Option String
  pub body : RawBody

pub data Reply : Type 0 where
  failed : ℕ → String → Reply
  outcome : Outcome → Reply
  status : StatusResponse → Reply

unfoldable pub lower : ℕ → ℕ
lower c = if in_range b'A' b'Z' c then c + 32 else c

unfoldable pub processor_disabled : Option String → Bool
unfolding lower
processor_disabled none = false
processor_disabled (some s) = same_codes (map lower (codes s)) (codes "true")

unfoldable pub expected_token : Settings → Option String
expected_token c = elim c.token [ none ↦ c.processor_token | some t ↦ some t ]

-- The texts are equal exactly when the prefix is there and what follows it is the token.
unfoldable pub is_bearer : Option String → Option String → Bool
is_bearer none provided = false
is_bearer (some expected) none = false
is_bearer (some expected) (some provided) =
    not (expected == "") && provided == "Bearer " <+> expected

unfoldable pub authorized : Settings → HttpRequest → Bool
unfolding expected_token is_bearer
authorized c r = is_bearer (expected_token c) (r.headers "authorization")

unfoldable pub is_process_url : String → Bool
is_process_url url = url == "/process" || url == "/"

unfoldable pub is_status_url : String → Bool
is_status_url url = url == "/status" || starts_with url "/status?"

reply_of : Result Outcome → Reply
reply_of (ok o) = outcome o
reply_of (err code) = failed 503 "PROCESSOR_UNAVAILABLE"

unfoldable pub handle_body :
    Platform → Settings → HttpRequest → (now clock : ℕ) → RawBody → Store → Reply × Store
unfolding reply_of
handle_body p c r now clock (unread message) s =
    (failed (if message == "PAYLOAD_TOO_LARGE" then 413 else 400) message, s)
handle_body p c r now clock (read raw_body) s =
    let (x, s') =
      process_transfer_request p
        (record {
          raw_body = raw_body;
          forwarded = read_forwarded_headers r.headers;
          now = now;
          clock = clock;
          is_disabled = processor_disabled c.disabled;
        })
        s in
    (reply_of x, s')

given : Option String → Bool
given none = false
given (some s) = not (s == "")

or_default : Option String → String
or_default none = integration_schema_version
or_default (some s) = s

unfoldable pub handle_status : HttpRequest → Store → Reply
unfolding given or_default
handle_status r s =
    if not (given (r.search "transferId")) && not (given (r.search "idempotencyKey"))
    then failed 400 "STATUS_LOOKUP_CRITERIA_REQUIRED"
    else if not (or_default (r.search "schemaVersion") == integration_schema_version)
    then failed 422 "SCHEMA_VERSION_UNSUPPORTED"
    else status (
        build_status_response s (r.search "transferId") (r.search "idempotencyKey")
          (or_default (r.search "schemaVersion")))

-- `durableProcessorHandler`
unfoldable pub handle : Platform → Settings → HttpRequest → (now clock : ℕ) → Store → Reply × Store
unfolding handle_body handle_status
handle p c r now clock s =
    if processor_disabled c.disabled
    then (failed 503 "PROCESSOR_DISABLED", s)
    else if r.method == "POST" && is_process_url r.url
    then (if not (authorized c r)
        then (failed 401 "PROCESSOR_AUTH_FAILED", s)
        else handle_body p c r now clock r.body s)
    else if r.method == "GET" && is_status_url r.url
    then (if not (authorized c r)
        then (failed 401 "PROCESSOR_AUTH_FAILED", s)
        else (handle_status r s, s))
    else (failed 404 "NOT_FOUND", s)
