-- ===== src/Patches/StateChange/Lifecycle.antt =====
-- The life of an activation under patches/lib/server.ts.
use arma_partner_api_sandbox.Prelude.{
  ℕ, ◌+◌, ◌<+>◌, ◌++◌, false, [], ◌∷◌, String, Option, none, some, ◌≡◌, ◌≢◌, ◌⊎◌, inl, inr, refl,
  sym, ap, ◌∙◌, Result, ok, err, Bool-cases,
}
use mathlib.Core.Path.{subst}
use arma_partner_api_sandbox.Prelude.Map.{set}
use arma_partner_api_sandbox.Prelude.Json.{str, obj, end, field}
use arma_partner_api_sandbox.Patches.Store.{
  Store, ActivationRecord, ActivationStatus, ActorKind, AuditOutcome,
}
use arma_partner_api_sandbox.Patches.Store.Reads.{get_activation}
use arma_partner_api_sandbox.Patches.Store.Writes.{
  put_activation, put_receipt, append_event, append_audit, audit_record,
}
use arma_partner_api_sandbox.Patches.Store.Transactions.{
  run_transaction, run_transaction_rollback, run_transaction-err, run_transaction-ok,
}
use arma_partner_api_sandbox.Patches.Policy.{Verdict, allow, deny}
use arma_partner_api_sandbox.Patches.Policy.Laws.{
  Owns, IsEntitled, authorize_org_iff, check_entitlement_iff, then_check-allow,
}
use arma_partner_api_sandbox.Patches.Activation.{Request}
use arma_partner_api_sandbox.Patches.Activation.Settle.{persistence_failure}
use arma_partner_api_sandbox.Patches.StateChange.{
  Action, deactivate, revoke, changed, change_writes, or_failure, commit, by_status, by_policy,
  on_found, change_policy, process_state_change,
}

pub changed-activation_id :
    (act : Action) (q : Request) (a : ActivationRecord)
    → (changed act q a).activation_id ≡ a.activation_id
unfolding changed
changed-activation_id deactivate q a = refl
changed-activation_id revoke q a = refl

-- An activation as an action leaves it: marked, with its time and the request.
unfoldable pub marked : Action → Request → ActivationRecord → ActivationRecord
marked deactivate q a = record a {
  status = ActivationStatus.deactivated;
  deactivated_at = some q.now;
  last_request_id = some q.request_id;
}
marked revoke q a = record a {
  status = ActivationStatus.revoked;
  revoked_at = some q.now;
  last_request_id = some q.request_id;
}

-- How an action is called in receipts, events and the audit, and in the ids of its receipts.
unfoldable pub called : Action → String × String × String × String
called deactivate =
    ("activation.deactivate", "activation.deactivated", "ACTIVATION_DEACTIVATED", "RCP-DEACTIVATE-")
called revoke = ("activation.revoke", "activation.revoked", "ACTIVATION_REVOKED", "RCP-REVOKE-")

-- The four writes of an action, in one record.
unfoldable pub changed_store : Action → Request → String → ActivationRecord → Store → Store
unfolding marked called
changed_store act q id a s =
    let (operation, kind, code, prefix) = called act in
    record s {
      activations = set a.activation_id (marked act q a) s.activations;
      receipts =
          set (prefix <+> q.request_id)
            (record {
              receipt_id = prefix <+> q.request_id;
              request_id = q.request_id;
              client_id = q.client_id;
              operation = operation;
              outcome = "SUCCESS";
              activation_id = some id;
              org_id = some a.org_id;
              capability = some a.capability;
              payload_hash = none;
              at = q.now;
            })
            s.receipts;
      events =
          s.events
          ++ record {
            event_id = "EVT-" <+> q.request_id;
            org_id = a.org_id;
            capability = a.capability;
            activation_id = some id;
            kind = kind;
            at = q.now;
            payload_digest = some a.payload_hash;
          }
            ∷ [];
      audit_sequence = s.audit_sequence + 1;
      audit =
          s.audit
          ++ audit_record (s.audit_sequence + 1) (record {
            at = q.now;
            actor_kind = ActorKind.partner;
            client_id = q.client_id;
            request_id = q.request_id;
            operation = operation;
            outcome = AuditOutcome.success;
            detail = obj (
                field "code" (str code) (
                  field "activationId" (str id)
                    (field "orgId" (str a.org_id) (field "capability" (str a.capability) end))));
          })
            ∷ [];
    }

change_writes_sound :
    (act : Action) (q : Request) (id : String) (a : ActivationRecord) (s : Store)
    → s.fail_points.persist_activation ≡ false
    → s.fail_points.persist_receipt ≡ false
    → s.fail_points.event_write ≡ false
    → s.fail_points.audit_write ≡ false
    → change_writes act q id a s ≡ (ok tt, changed_store act q id a s)
unfolding change_writes put_activation put_receipt append_event append_audit changed_store changed
change_writes_sound deactivate q id a s f r w x = rw (f, r, w, x) refl
change_writes_sound revoke q id a s f r w x = rw (f, r, w, x) refl

change_writes-cases :
    (act : Action) (q : Request) (id : String) (a : ActivationRecord) (s : Store)
    → ((e : String) × ((change_writes act q id a s).0 ≡ err e))
      ⊎ (change_writes act q id a s ≡ (ok tt, changed_store act q id a s))
unfolding change_writes put_activation put_receipt append_event append_audit
change_writes-cases act q id a s = elim (Bool-cases s.fail_points.persist_activation) [
  | inl f ↦ inl ("FAILPOINT_persistActivation", rw f refl)
  | inr f ↦ elim (Bool-cases s.fail_points.persist_receipt) [
    | inl r ↦ inl ("FAILPOINT_persistReceipt", rw (f, r) refl)
    | inr r ↦ elim (Bool-cases s.fail_points.event_write) [
      | inl w ↦ inl ("FAILPOINT_eventWrite", rw (f, r, w) refl)
      | inr w ↦ elim (Bool-cases s.fail_points.audit_write) [
        | inl x ↦ inl ("FAILPOINT_auditWrite", rw (f, r, w, x) refl)
        | inr x ↦ inr (change_writes_sound act q id a s f r w x)
      ]
    ]
  ]
]

-- Nothing but the audit trail and its counter has changed.
unfoldable pub IsAuditOnly : Store → Store → Type 0
IsAuditOnly s s' = s' ≡ record s { audit = s'.audit; audit_sequence = s'.audit_sequence }

-- A failed transaction leaves at most its audit.
pub persistence_failure-IsAuditOnly :
    (q : Request) (s : Store) → s.tx_depth ≡ 0 → IsAuditOnly s (persistence_failure q s).1
unfolding persistence_failure run_transaction append_audit IsAuditOnly
persistence_failure-IsAuditOnly q s d = elim (Bool-cases s.fail_points.audit_write) [
  | inl x ↦ rw (d, x) refl
  | inr x ↦ rw (d, x) refl
]

-- The four writes are in the store and nothing else has changed, or at most the audit has.
unfoldable pub Outcomes : Action → Request → String → ActivationRecord → Store → Store → Type 0
Outcomes act q id a s s' = IsAuditOnly s s' ⊎ (s' ≡ changed_store act q id a s)

or_failure-fails :
    (act : Action) (q : Request) (id : String) (a : ActivationRecord) (r : Result (Unit {0}))
    (s' : Store) (e : String) (s : Store)
    → r ≡ err e
    → s' ≡ s
    → s.tx_depth ≡ 0
    → Outcomes act q id a s (or_failure act q id a r s').1
unfolding or_failure Outcomes
or_failure-fails act q id a (ok u) s' e s h g d = absurd (cc h)
or_failure-fails act q id a (err x) s' e s h g d =
    subst (λ t. Outcomes act q id a s (persistence_failure q t).1) (sym g)
      (inl (persistence_failure-IsAuditOnly q s d))

or_failure-written :
    (act : Action) (q : Request) (id : String) (a : ActivationRecord) (r : Result (Unit {0}))
    (s' : Store) (s : Store)
    → r ≡ ok tt
    → s' ≡ changed_store act q id a s
    → Outcomes act q id a s (or_failure act q id a r s').1
unfolding or_failure Outcomes
or_failure-written act q id a (ok u) s' s h w = inr w
or_failure-written act q id a (err x) s' s h w = absurd (cc h)

outside :
    (act : Action) (q : Request) (id : String) (a : ActivationRecord) (s : Store)
    → s.tx_depth ≡ 0
    → record (changed_store act q id a (record s { tx_depth = 1 })) { tx_depth = 0 }
      ≡ changed_store act q id a s
unfolding changed_store
outside act q id a s d =
    ap {A = ℕ} {B = Store} (λ n. record (changed_store act q id a s) { tx_depth = n }) (sym d)

commit-Outcomes :
    (act : Action) (q : Request) (id : String) (a : ActivationRecord) (s : Store)
    → s.tx_depth ≡ 0
    → Outcomes act q id a s (commit act q id a s).1
unfolding commit
commit-Outcomes act q id a s d = elim (change_writes-cases act q id a (record s { tx_depth = 1 })) [
  | inl f ↦
      let threw = run_transaction-err (change_writes act q id a) s f.0 d f.1 in
      or_failure-fails act q id a _ _ f.0 s threw
        (run_transaction_rollback (change_writes act q id a) s f.0 d threw) d
  | inr w ↦
      let done = run_transaction-ok (change_writes act q id a) s tt d (ap (λ t. t.0) w) in
      or_failure-written act q id a _ _ s (ap (λ t. t.0) done)
        (ap (λ t. t.1) done ∙ ap (λ t. record (t.1) { tx_depth = 0 }) w ∙ outside act q id a s d)
]

by_status-Outcomes :
    (act : Action) (q : Request) (id : String) (a : ActivationRecord) (st : ActivationStatus)
    (s : Store)
    → s.tx_depth ≡ 0
    → ((by_status act q id a st s).1 ≡ s)
      ⊎ ((st ≢ ActivationStatus.revoked) × Outcomes act q id a s (by_status act q id a st s).1)
unfolding by_status
by_status-Outcomes deactivate q id a ActivationStatus.active s d =
    inr (λ h. absurd (cc h), commit-Outcomes deactivate q id a s d)
by_status-Outcomes deactivate q id a ActivationStatus.deactivated s d = inl refl
by_status-Outcomes deactivate q id a ActivationStatus.revoked s d = inl refl
by_status-Outcomes revoke q id a ActivationStatus.active s d =
    inr (λ h. absurd (cc h), commit-Outcomes revoke q id a s d)
by_status-Outcomes revoke q id a ActivationStatus.deactivated s d =
    inr (λ h. absurd (cc h), commit-Outcomes revoke q id a s d)
by_status-Outcomes revoke q id a ActivationStatus.revoked s d = inl refl

by_policy-Outcomes :
    (act : Action) (q : Request) (id : String) (a : ActivationRecord) (v : Verdict) (s : Store)
    → s.tx_depth ≡ 0
    → ((by_policy act q id a v s).1 ≡ s)
      ⊎ ((v ≡ allow)
          × (a.status ≢ ActivationStatus.revoked)
          × Outcomes act q id a s (by_policy act q id a v s).1)
unfolding by_policy
by_policy-Outcomes act q id a (deny code) s d = inl refl
by_policy-Outcomes act q id a allow s d = elim (by_status-Outcomes act q id a a.status s d) [
  | inl same ↦ inl same
  | inr o ↦ inr (refl, o.0, o.1)
]

on_found-Outcomes :
    (act : Action) (q : Request) (id : String) (o : Option ActivationRecord) (s : Store)
    → s.tx_depth ≡ 0
    → ((on_found act q id o s).1 ≡ s)
      ⊎ ((a : ActivationRecord) × (o ≡ some a)
          × (change_policy s q a ≡ allow)
          × (a.status ≢ ActivationStatus.revoked)
          × Outcomes act q id a s (on_found act q id o s).1)
unfolding on_found
on_found-Outcomes act q id none s d = inl refl
on_found-Outcomes act q id (some a) s d =
    elim (by_policy-Outcomes act q id a (change_policy s q a) s d) [
      | inl same ↦ inl same
      | inr o ↦ inr (a, refl, o.0, o.1, o.2)
    ]

state_change-cases :
    (act : Action) (q : Request) (id : String) (s : Store)
    → s.tx_depth ≡ 0
    → ((process_state_change act q id s).1 ≡ s)
      ⊎ ((a : ActivationRecord) × (get_activation s id ≡ some a)
          × (change_policy s q a ≡ allow)
          × (a.status ≢ ActivationStatus.revoked)
          × Outcomes act q id a s (process_state_change act q id s).1)
unfolding process_state_change
state_change-cases act q id s d = on_found-Outcomes act q id (get_activation s id) s d

change_policy-allow :
    (s : Store) (q : Request) (a : ActivationRecord)
    → change_policy s q a ≡ allow
    → Owns s q.partner_id a.org_id × IsEntitled s q.partner_id a.org_id a.capability q.now
unfolding change_policy
change_policy-allow s q a h =
    let (owns, entitled) = (then_check-allow _ _).0 h in
    (
      (authorize_org_iff s q.partner_id a.org_id).0 owns,
      (check_entitlement_iff s q.partner_id a.org_id a.capability q.now).0 entitled,
    )

-- Outside a transaction, a deactivation or revocation leaves the whole store as it is; or the
-- activation it names was there and not revoked, the partner owns its organization, which is active,
-- and is entitled to its capability, and then either at most the audit trail and its counter have
-- changed, or exactly four writes are in the store: the activation marked as deactivated or revoked
-- at that time by that request, and the action's receipt, event and audit record.
pub process_state_change-Outcomes :
    (act : Action) (q : Request) (id : String) (s : Store)
    → s.tx_depth ≡ 0
    → ((process_state_change act q id s).1 ≡ s)
      ⊎ ((a : ActivationRecord) × (get_activation s id ≡ some a)
          × Owns s q.partner_id a.org_id
          × IsEntitled s q.partner_id a.org_id a.capability q.now
          × (a.status ≢ ActivationStatus.revoked)
          × Outcomes act q id a s (process_state_change act q id s).1)
process_state_change-Outcomes act q id s d = elim (state_change-cases act q id s d) [
  | inl same ↦ inl same
  | inr (a, found, allowed, open_still, o) ↦
      let (owns, entitled) = change_policy-allow s q a allowed in
      inr (a, found, owns, entitled, open_still, o)
]

changed-marked :
    (act : Action) (q : Request) (a : ActivationRecord) → marked act q a ≡ changed act q a
unfolding marked changed
changed-marked deactivate q a = refl
changed-marked revoke q a = refl

-- What that means for the activations, and for the depth of the transactions.
pub activations_after :
    (act : Action) (q : Request) (id : String) (s : Store)
    → s.tx_depth ≡ 0
    → ((process_state_change act q id s).1 ≡ s)
      ⊎ ((a : ActivationRecord) × (get_activation s id ≡ some a)
          × (a.status ≢ ActivationStatus.revoked)
          × (((process_state_change act q id s).1.activations ≡ s.activations)
              ⊎ ((process_state_change act q id s).1.activations
                  ≡ set a.activation_id (changed act q a) s.activations))
          × ((process_state_change act q id s).1.tx_depth ≡ 0))
unfolding Outcomes IsAuditOnly changed_store
activations_after act q id s d = elim (state_change-cases act q id s d) [
  | inl same ↦ inl same
  | inr (a, found, _, open_still, inl only) ↦
      inr (a, found, open_still, inl (ap (λ t. t.activations) only), ap (λ t. t.tx_depth) only ∙ d)
  | inr (a, found, _, open_still, inr w) ↦ inr (
    a,
    found,
    open_still,
    inr (
        ap (λ t. t.activations) w
        ∙ ap (λ b. set a.activation_id b s.activations) (changed-marked act q a)),
    ap (λ t. t.tx_depth) w ∙ d,
  )
]
