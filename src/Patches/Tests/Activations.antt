-- ===== src/Patches/Tests/Activations.antt =====
-- The activations of patches/lib/server.ts at concrete inputs.
use arma_partner_api_sandbox.Prelude.{
  ℕ, String, Bool, true, Option, none, some, List, [], ◌∷◌, ◌≡◌, ◌≢◌, ◌⊎◌, inl, inr, ◌↔◌, refl,
  arith, Result, ok, err, eq_ne, Bool-cases, ◌==◌, eq_iff, ap, sym, ◌∙◌, if◌then◌else◌, ◌+◌, ◌-◌,
  ◌*◌, ◌≤◌, ◌<◌,
}
use arma_partner_api_sandbox.Prelude.Map.{Map, get}
use arma_partner_api_sandbox.Prelude.Json.{Json, str, bool, obj, Fields, end, field}
use arma_partner_api_sandbox.Patches.Store.{
  Store, FailPoints, PartnerRecord, CredentialRecord, CredentialStatus, Status, OrganizationRecord,
  EntitlementRecord, EntitlementStatus, CapabilityRecord, BindingRecord, BindingStatus,
  ActivationRecord, ActivationStatus,
}
use arma_partner_api_sandbox.Patches.Store.Reads.{get_activation, get_idempotency}
use arma_partner_api_sandbox.Patches.Store.Writes.{put_activation, append_audit, fail}
use arma_partner_api_sandbox.Patches.Store.Sanitize.{sanitize_detail}
use arma_partner_api_sandbox.Patches.Store.Transactions.{run_transaction}
use arma_partner_api_sandbox.Patches.Policy.{
  authorize_org, check_entitlement, check_capability, check_binding,
}
use arma_partner_api_sandbox.Patches.Bodies.{Outcome}
use arma_partner_api_sandbox.Patches.Activation.{
  Options, Request, ActivationInput, Pending, pending, activation_id_for, prepare,
}
use arma_partner_api_sandbox.Patches.Activation.Settle.{
  activation_for, idempotency_for, receipt_id_for, settle, process_activation,
}
use arma_partner_api_sandbox.Patches.Activation.Policies.{IsAdmitted, prepare-pending_iff}
use arma_partner_api_sandbox.Patches.Activation.Created.{IsSound}
use arma_partner_api_sandbox.Patches.Activation.Admitted.{
  answer, written, process_activation-created,
}
use arma_partner_api_sandbox.Patches.Policy.Laws.{Owns, IsEntitled}
use arma_partner_api_sandbox.Patches.Activation.Race.{
  overlapped, overlapped_both_activate, repeated_id_reactivates, Accepts,
}
use arma_partner_api_sandbox.Patches.StateChange.{deactivate, revoke, process_state_change}
use arma_partner_api_sandbox.Patches.StateChange.Lifecycle.{Outcomes, process_state_change-Outcomes}
use arma_partner_api_sandbox.Patches.StateChange.Later.{change, run_steps, settled_key_used}
use arma_partner_api_sandbox.Patches.StateChange.Revoked.{
  IsKeyed, Change, run_changes, run_changes-revoked,
}
use arma_partner_api_sandbox.Patches.Tests.{
  org, entitlement, capability, binding, store, options, request, body, asked, activation,
  store_with,
}

admitted : (id : String) → IsAdmitted options (request id) (body "key-1") store (asked "key-1")
unfolding arma_partner_api_sandbox.Patches.Activation.read_activation_input
    arma_partner_api_sandbox.Patches.Bodies.read_string
    arma_partner_api_sandbox.Prelude.Json.get_field
    arma_partner_api_sandbox.Patches.Store.Reads.get_organization get
    arma_partner_api_sandbox.Patches.Store.Reads.get_entitlement
    arma_partner_api_sandbox.Patches.Store.Reads.entitlement_key
    arma_partner_api_sandbox.Prelude.joined
    arma_partner_api_sandbox.Patches.Store.Reads.get_capability
    arma_partner_api_sandbox.Patches.Store.Reads.get_binding get_idempotency
admitted id = record {
  read = refl;
  hashed = refl;
  owns = record { org = org; found = refl; active = refl; owned = refl };
  entitled = record {
    ent = entitlement;
    found = refl;
    active = refl;
    started = omega arith;
    running = omega arith;
  };
  offered = record { cap = capability; found = refl; least = refl; most = refl };
  bound = record {
    binding = binding;
    found = refl;
    active = refl;
    in_org = refl;
    for_capability = refl;
  };
  unused = refl;
}

IsAdmitted-over :
    (status : ActivationStatus)
    → IsAdmitted options (request "r") (body "key-1") (store_with status) (asked "key-1")
unfolding arma_partner_api_sandbox.Patches.Activation.read_activation_input
    arma_partner_api_sandbox.Patches.Bodies.read_string
    arma_partner_api_sandbox.Prelude.Json.get_field
    arma_partner_api_sandbox.Patches.Store.Reads.get_organization get
    arma_partner_api_sandbox.Patches.Store.Reads.get_entitlement
    arma_partner_api_sandbox.Patches.Store.Reads.entitlement_key
    arma_partner_api_sandbox.Prelude.joined
    arma_partner_api_sandbox.Patches.Store.Reads.get_capability
    arma_partner_api_sandbox.Patches.Store.Reads.get_binding get_idempotency
IsAdmitted-over status = record {
  read = refl;
  hashed = refl;
  owns = record { org = org; found = refl; active = refl; owned = refl };
  entitled = record {
    ent = entitlement;
    found = refl;
    active = refl;
    started = omega arith;
    running = omega arith;
  };
  offered = record { cap = capability; found = refl; least = refl; most = refl };
  bound = record {
    binding = binding;
    found = refl;
    active = refl;
    in_org = refl;
    for_capability = refl;
  };
  unused = refl;
}

sound : IsSound store
sound = record { activation = refl; receipt = refl; audit = refl; event = refl; outside = refl }

sound_over : (status : ActivationStatus) → IsSound (store_with status)
sound_over status = record {
  activation = refl;
  receipt = refl;
  audit = refl;
  event = refl;
  outside = refl;
}

accepts : Accepts options
unfolding arma_partner_api_sandbox.Patches.Activation.Settle.await_downstream
accepts input = ("SYNTHETIC_NO_DOWNSTREAM", refl)

prepare-pending_iff_example :
    (prepare options (request "r") (body "key-1") store ≡ (ok (pending (asked "key-1")), store))
    ↔ (IsAdmitted options (request "r") (body "key-1") store (asked "key-1") × (store ≡ store))
prepare-pending_iff_example =
    prepare-pending_iff options (request "r") (body "key-1") store store (asked "key-1")

settled_key_used_example :
    (asked "key-2").input.idempotency_key ≢ (asked "key-1").input.idempotency_key
unfolding prepare arma_partner_api_sandbox.Patches.Activation.read_activation_input
    arma_partner_api_sandbox.Patches.Bodies.read_string
    arma_partner_api_sandbox.Prelude.Json.get_field
    arma_partner_api_sandbox.Patches.Activation.activation_policy authorize_org
    arma_partner_api_sandbox.Patches.Store.Reads.get_organization get settle run_transaction
    arma_partner_api_sandbox.Patches.Activation.Settle.create_writes put_activation
    arma_partner_api_sandbox.Patches.Store.Writes.put_receipt
    arma_partner_api_sandbox.Patches.Store.Writes.put_idempotency
    arma_partner_api_sandbox.Patches.Store.Writes.append_event append_audit check_entitlement
    activation_for arma_partner_api_sandbox.Patches.Activation.Settle.event_for idempotency_for
    arma_partner_api_sandbox.Patches.Activation.Settle.persistence_failure
    arma_partner_api_sandbox.Patches.Activation.Settle.receipt_for
    arma_partner_api_sandbox.Patches.Activation.audit_entry
    arma_partner_api_sandbox.Patches.Activation.resolve_idempotency check_binding check_capability
    arma_partner_api_sandbox.Patches.Store.Reads.entitlement_key get_activation
    arma_partner_api_sandbox.Patches.Store.Reads.get_binding
    arma_partner_api_sandbox.Patches.Store.Reads.get_capability
    arma_partner_api_sandbox.Patches.Store.Reads.get_entitlement get_idempotency
    arma_partner_api_sandbox.Patches.Store.Reads.idempotency_key sanitize_detail
    arma_partner_api_sandbox.Patches.Store.Writes.audit_record fail
    arma_partner_api_sandbox.Prelude.Json.utf16_length arma_partner_api_sandbox.Prelude.joined
    arma_partner_api_sandbox.Prelude.Map.set arma_partner_api_sandbox.Prelude.contains run_steps
    arma_partner_api_sandbox.Patches.StateChange.Later.step process_state_change
    arma_partner_api_sandbox.Patches.StateChange.change_policy
settled_key_used_example =
    settled_key_used options (request "r") (request "r2") (body "key-2") (asked "key-1")
      (asked "key-2") "SYNTHETIC_OK" (change revoke (request "x") "ACT-r" ∷ []) store
      (run_steps (change revoke (request "x") "ACT-r" ∷ [])
        (settle (request "r") (asked "key-1") (true, "SYNTHETIC_OK") store).1)
      sound refl refl

process_activation-created_example :
    process_activation options (request "r") (body "key-1") store
    ≡ (ok (answer (request "r") (asked "key-1")), written (request "r") (asked "key-1") store)
process_activation-created_example =
    process_activation-created options (request "r") (body "key-1") (asked "key-1") store accepts
      sound (admitted "r")

overlapped_both_activate_example :
    let (r, s2) =
      overlapped options (request "r") (body "key-1") (request "r2") (body "key-1") store in
    (x : Outcome) × (y : Outcome) × (r ≡ ok (x, y))
    × (x.status ≡ 200)
    × (y.status ≡ 200)
    × (get_activation s2 (activation_id_for (request "r"))
        ≡ some (activation_for (request "r") (asked "key-1")))
    × (get_activation s2 (activation_id_for (request "r2"))
        ≡ some (activation_for (request "r2") (asked "key-1")))
    × (get_idempotency s2 "client" "key-1" ≡ some (idempotency_for (request "r2") (asked "key-1")))
overlapped_both_activate_example =
    overlapped_both_activate options (request "r") (request "r2") (body "key-1") (body "key-1")
      (asked "key-1") (asked "key-1") store accepts sound (admitted "r") (admitted "r2") refl refl
      (eq_ne "r" "r2" refl)

repeated_id_reactivates_example :
    (b : ActivationRecord) × (get_activation
        (process_activation options
          (request "r")
          (body "key-1")
          (store_with ActivationStatus.revoked)).1
        (activation_id_for (request "r"))
      ≡ some b)
    × (b.status ≡ ActivationStatus.active)
    × (b.partner_id ≡ "p")
    × (b.org_id ≡ "o")
unfolding get_activation get
repeated_id_reactivates_example =
    repeated_id_reactivates options (request "r") (body "key-1") (asked "key-1")
      (store_with ActivationStatus.revoked) (activation ActivationStatus.revoked) accepts
      (sound_over ActivationStatus.revoked) (IsAdmitted-over ActivationStatus.revoked) refl refl

process_state_change-Outcomes_example :
    ((process_state_change revoke (request "x") "ACT-r" (store_with ActivationStatus.active)).1
      ≡ store_with ActivationStatus.active)
    ⊎ ((a : ActivationRecord) × (get_activation (store_with ActivationStatus.active) "ACT-r"
          ≡ some a)
        × Owns (store_with ActivationStatus.active) (request "x").partner_id a.org_id
        × IsEntitled
            (store_with ActivationStatus.active)
            (request "x").partner_id
            a.org_id
            a.capability
            (request "x").now
        × (a.status ≢ ActivationStatus.revoked)
        × Outcomes revoke
            (request "x")
            "ACT-r"
            a
            (store_with ActivationStatus.active)
            (process_state_change revoke
              (request "x")
              "ACT-r"
              (store_with ActivationStatus.active)).1)
process_state_change-Outcomes_example =
    process_state_change-Outcomes revoke (request "x") "ACT-r" (store_with ActivationStatus.active)
      refl

abbrev changes : List Change
changes =
    record { action = deactivate; request = request "x"; activation_id = "ACT-r" }
    ∷ record { action = revoke; request = request "y"; activation_id = "ACT-r" }
    ∷ []

id_in : Option ActivationRecord → String
id_in none = ""
id_in (some a) = a.activation_id

keyed_one :
    (status : ActivationStatus) (id : String) (a : ActivationRecord)
    → get id (store_with status).activations ≡ some a
    → a.activation_id ≡ id
unfolding get id_in
keyed_one status id a h = elim (Bool-cases ("ACT-r" == id)) [
  | inl e ↦
      let same : some (activation status) ≡ some a = rw e at h in
      sym (ap id_in same) ∙ (eq_iff "ACT-r" id).0 e
  | inr e ↦ absurd (cc (rw e at h))
]

run_changes-revoked_example :
    get_activation (run_changes changes (store_with ActivationStatus.revoked)) "ACT-r"
    ≡ some (activation ActivationStatus.revoked)
unfolding IsKeyed get_activation get
run_changes-revoked_example =
    run_changes-revoked changes (store_with ActivationStatus.revoked) "ACT-r"
      (activation ActivationStatus.revoked) refl (keyed_one ActivationStatus.revoked) refl refl
