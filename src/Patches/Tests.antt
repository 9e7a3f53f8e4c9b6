-- ===== src/Patches/Tests.antt =====
-- The partner API of patches/lib at concrete inputs.
mod Activations
mod Authentication
use arma_partner_api_sandbox.Prelude.{
  ℕ, String, Bool, true, false, Option, none, some, List, [], ◌∷◌, ◌≡◌, ◌≢◌, ◌⊎◌, inl, inr, ◌↔◌,
  refl, arith, Result, ok, err, eq_ne, ◌+◌, ◌-◌, ◌*◌, ◌≤◌, ◌<◌,
}
use arma_partner_api_sandbox.Prelude.Map.{Map, get}
use arma_partner_api_sandbox.Prelude.Json.{Json, str, bool, obj, Fields, end, field}
use arma_partner_api_sandbox.Patches.Store.{
  Store, FailPoints, PartnerRecord, CredentialRecord, CredentialStatus, Status, OrganizationRecord,
  EntitlementRecord, EntitlementStatus, CapabilityRecord, BindingRecord, BindingStatus,
  ActivationRecord, ActivationStatus,
}
use arma_partner_api_sandbox.Patches.Store.Reads.{get_activation, get_idempotency}
use arma_partner_api_sandbox.Patches.Store.Writes.{put_activation, append_audit, fail}
use arma_partner_api_sandbox.Patches.Store.Exec.{Exec, ◌>>=◌, ◌>>◌, throw}
use arma_partner_api_sandbox.Patches.Store.Sanitize.{sanitize_detail, IsSafe, safe_detail_depth}
use arma_partner_api_sandbox.Patches.Store.Sanitize.Laws.{sanitize_detail-IsSafe}
use arma_partner_api_sandbox.Patches.Store.Transactions.{run_transaction, run_transaction_rollback}
use arma_partner_api_sandbox.Patches.RateLimit.{RateLimiter, check}
use arma_partner_api_sandbox.Patches.RateLimit.Laws.{
  Calls, allowed_for, last_time, allowed_for_bound,
}
use arma_partner_api_sandbox.Patches.Policy.{
  allow, authorize_org, check_entitlement, check_capability, check_binding,
}
use arma_partner_api_sandbox.Patches.Policy.Laws.{
  Owns, IsEntitled, IsOffered, IsBound, authorize_org_iff, check_entitlement_iff,
  check_capability_iff, check_binding_iff,
}
use arma_partner_api_sandbox.Patches.Bodies.{Outcome}
use arma_partner_api_sandbox.Patches.Activation.{
  Options, Request, ActivationInput, Pending, pending, activation_id_for, prepare,
}
use arma_partner_api_sandbox.Patches.Activation.Settle.{
  activation_for, idempotency_for, receipt_id_for, settle, process_activation,
}
use arma_partner_api_sandbox.Patches.Activation.Policies.{IsAdmitted, prepare-pending_iff}
use arma_partner_api_sandbox.Patches.Activation.Created.{
  IsSound, created_store, settle-created, IsFaulty, audited_store, failed_entry,
}
use arma_partner_api_sandbox.Patches.Activation.Race.{
  overlapped, overlapped_both_activate, repeated_id_reactivates, Accepts,
}
use arma_partner_api_sandbox.Patches.StateChange.{
  Action, deactivate, revoke, process_state_change, change_policy,
}
use arma_partner_api_sandbox.Patches.StateChange.Lifecycle.{Outcomes, process_state_change-Outcomes}
use arma_partner_api_sandbox.Patches.StateChange.Revoked.{
  IsKeyed, Change, run_changes, run_changes-revoked,
}

abbrev pub no_faults : FailPoints
no_faults = record {
  persist_activation = false;
  persist_receipt = false;
  audit_write = false;
  event_write = false;
}

abbrev pub org : OrganizationRecord
org = record { org_id = "o"; owning_partner_id = "p"; status = Status.active }

abbrev pub entitlement : EntitlementRecord
entitlement = record {
  entitlement_id = "e";
  partner_id = "p";
  org_id = "o";
  capability = "c";
  status = EntitlementStatus.active;
  licensed_from = 0;
  licensed_until = 1000000;
}

abbrev pub capability : CapabilityRecord
capability = record {
  capability = "c";
  min_api_version = "v1";
  max_api_version = "v1";
  description = "";
}

abbrev pub binding : BindingRecord
binding = record {
  binding_id = "b";
  org_id = "o";
  capability = "c";
  device_id = "d";
  subject_ref = "s";
  status = BindingStatus.active;
  bound_at = 0;
}

abbrev pub partner : PartnerRecord
partner = record { partner_id = "p"; client_id = "client"; status = Status.active }

abbrev pub credential : CredentialRecord
credential = record {
  client_id = "client";
  key_id = "key";
  secret_hash = "";
  status = CredentialStatus.active;
  activated_at = 0;
  rotated_from = none;
  retired_at = none;
  revoked_at = none;
  revoked_reason = none;
}

abbrev pub store : Store
store = record {
  partners = ("client", partner) ∷ [];
  credentials = ("client::key", credential) ∷ [];
  organizations = ("o", org) ∷ [];
  entitlements = ("p::o::c", entitlement) ∷ [];
  capabilities = ("c", capability) ∷ [];
  bindings = ("b", binding) ∷ [];
  activations = [];
  idempotency = [];
  nonces = [];
  receipts = [];
  events = [];
  audit = [];
  fail_points = no_faults;
  audit_sequence = 0;
  tx_depth = 0;
}

abbrev pub faulty_store : Store
faulty_store = record store { fail_points = record no_faults { persist_receipt = true } }

abbrev pub options : Options
options = record { hash_object = λ body. "hash"; protection_service = none }

abbrev pub request : String → Request
request id = record { client_id = "client"; partner_id = "p"; request_id = id; now = 5 }

abbrev pub body : String → Fields
body key = field "orgId" (str "o") (
    field "capability" (str "c")
      (field "bindingId" (str "b") (field "idempotencyKey" (str key) end)))

abbrev pub asked : String → Pending
asked key = record {
  input = record { org_id = "o"; capability = "c"; binding_id = "b"; idempotency_key = key };
  request_hash = "hash";
}

abbrev pub activation : ActivationStatus → ActivationRecord
activation status = record {
  activation_id = "ACT-r";
  org_id = "o";
  capability = "c";
  binding_id = "b";
  partner_id = "p";
  status = status;
  activated_at = 1;
  deactivated_at = none;
  revoked_at = none;
  last_request_id = none;
  idempotency_key = none;
  activated_via_idempotency_key = none;
  payload_hash = "hash";
}

abbrev pub store_with : ActivationStatus → Store
store_with status = record store { activations = ("ACT-r", activation status) ∷ [] }

-- It writes, and then throws.
abbrev pub failing : Exec (Unit {0})
failing = do put_activation (activation ActivationStatus.active); throw "FAILPOINT_persistReceipt"

run_transaction_rollback_example : (run_transaction failing store).1 ≡ store
unfolding run_transaction put_activation
run_transaction_rollback_example =
    run_transaction_rollback failing store "FAILPOINT_persistReceipt" refl refl

sanitize_detail-IsSafe_example : IsSafe safe_detail_depth (obj (field "code" (str "x") end))
unfolding sanitize_detail arma_partner_api_sandbox.Prelude.contains
    arma_partner_api_sandbox.Prelude.Json.utf16_length
sanitize_detail-IsSafe_example =
    sanitize_detail-IsSafe (obj (field "code" (str "x") (field "secret" (str "y") end)))
      (obj (field "code" (str "x") end)) refl

abbrev pub limiter : RateLimiter
limiter = record { capacity = 1; refill_per_second = 10; buckets = [] }

abbrev pub rate_calls : Calls
rate_calls = (5, "client") ∷ (6, "client") ∷ (200, "client") ∷ []

allowed_for_bound_example :
    1000 * allowed_for limiter "client" rate_calls ≤ 1 * 1000 + (last_time 5 rate_calls - 5) * 10
unfolding get
allowed_for_bound_example =
    allowed_for_bound limiter "client" 5 rate_calls refl
      (omega arith, (omega arith, (omega arith, tt)))

abbrev pub drained : RateLimiter
drained = (check limiter 5 "client").0
