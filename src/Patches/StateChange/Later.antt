-- ===== src/Patches/StateChange/Later.antt =====
-- The idempotency key of a settled activation, whatever patches/lib/server.ts does later.
use arma_partner_api_sandbox.Prelude.{
  String, Bool, true, false, Option, none, some, List, [], ◌∷◌, ◌≡◌, ◌≢◌, ◌⊎◌, inl, inr, refl, sym,
  ap, ◌∙◌, ◌==◌, Result, ok, err, Bool-cases,
}
use mathlib.Core.Path.{subst}
use arma_partner_api_sandbox.Prelude.Map.{get, get-set}
use arma_partner_api_sandbox.Prelude.Json.{Fields}
use arma_partner_api_sandbox.Patches.Store.{Store, FailPoints}
use arma_partner_api_sandbox.Patches.Store.Reads.{get_idempotency, idempotency_key}
use arma_partner_api_sandbox.Patches.Store.Writes.{
  put_activation, put_receipt, put_idempotency, append_event, append_audit,
}
use arma_partner_api_sandbox.Patches.Store.Transactions.{
  run_transaction_rollback, run_transaction-err, run_transaction-ok,
}
use arma_partner_api_sandbox.Patches.Store.Exec.{continue}
use arma_partner_api_sandbox.Patches.Policy.{Verdict, allow, deny}
use arma_partner_api_sandbox.Patches.Activation.{
  Options, Request, ActivationInput, Pending, Prepared, answered, pending, IdempotencyResolution,
  fresh, duplicate, conflicting, by_resolution, by_policy, with_input, prepare,
  read_activation_input,
}
use arma_partner_api_sandbox.Patches.Activation.Settle.{
  create_writes, persistence_failure, or_failure, created, downstream_failed, settle, after_prepare,
  process_activation, idempotency_for,
}
use arma_partner_api_sandbox.Patches.Activation.Policies.{prepare-IsAdmitted}
use arma_partner_api_sandbox.Patches.Activation.Created.{
  IsSound, created_store, create_writes_sound, settle-created, get_idempotency-created,
}
use arma_partner_api_sandbox.Patches.StateChange.{Action, process_state_change}
use arma_partner_api_sandbox.Patches.StateChange.Lifecycle.{
  IsAuditOnly, persistence_failure-IsAuditOnly, changed_store, Outcomes,
  process_state_change-Outcomes,
}

-- What may come between: activations, state changes, and settings of the fail points.
pub data Step : Type 0 where
  activate : Options → Request → Fields → Step
  change : Action → Request → String → Step
  set_faults : FailPoints → Step

unfoldable pub step : Step → Store → Store
step (activate o q body) s = (process_activation o q body s).1
step (change act q id) s = (process_state_change act q id s).1
step (set_faults f) s = record s { fail_points = f }

unfoldable pub run_steps : List Step → Store → Store
run_steps [] s = s
run_steps (x ∷ xs) s = run_steps xs (step x s)

-- Neither the idempotency records nor the depth of the transactions have changed.
Same : Store → Store → Type 0
Same s s' = (s'.idempotency ≡ s.idempotency) × (s'.tx_depth ≡ s.tx_depth)

-- No transaction is open, and the key is used if it was.
record Keeps (k : String) (s s' : Store) : Type 0 where
  outside : s'.tx_depth ≡ 0
  used : get k s.idempotency ≢ none → get k s'.idempotency ≢ none

Same-Keeps : (k : String) (s s' : Store) → s.tx_depth ≡ 0 → Same s s' → Keeps k s s'
unfolding Same
Same-Keeps k s s' d (i, t) = record { outside = t ∙ d; used = λ u n. u (ap (get k) (sym i) ∙ n) }

by_resolution-Same :
    (q : Request) (i : ActivationInput) (h : String) (r : IdempotencyResolution) (s : Store)
    → Same s (by_resolution q i h r s).1
unfolding by_resolution append_audit Same
by_resolution-Same q i h fresh s = (refl, refl)
by_resolution-Same q i h (conflicting existing) s = elim (Bool-cases s.fail_points.audit_write) [
  | inl x ↦ rw x (refl, refl)
  | inr x ↦ rw x (refl, refl)
]
by_resolution-Same q i h (duplicate existing) s = elim (Bool-cases s.fail_points.audit_write) [
  | inl x ↦ rw x (refl, refl)
  | inr x ↦ rw x (refl, refl)
]

by_policy-Same :
    (q : Request) (i : ActivationInput) (h : String) (v : Verdict) (s : Store)
    → Same s (by_policy q i h v s).1
unfolding by_policy Same
by_policy-Same q i h (deny code) s = (refl, refl)
by_policy-Same q i h allow s = by_resolution-Same q i h _ s

prepare-Same :
    (o : Options) (q : Request) (body : Fields) (i : Option ActivationInput) (s : Store)
    → Same s (with_input o q body i s).1
unfolding with_input Same
prepare-Same o q body none s = (refl, refl)
prepare-Same o q body (some i) s = by_policy-Same q i (o.hash_object body) _ s

failed-Same : (q : Request) (s : Store) → s.tx_depth ≡ 0 → Same s (persistence_failure q s).1
unfolding Same IsAuditOnly
failed-Same q s d =
    let only = persistence_failure-IsAuditOnly q s d in
    (ap (λ t. t.idempotency) only, ap (λ t. t.tx_depth) only)

create_writes-cases :
    (q : Request) (p : Pending) (s : Store)
    → ((e : String) × ((create_writes q p s).0 ≡ err e))
      ⊎ (create_writes q p s ≡ (ok tt, created_store q p s))
unfolding create_writes put_activation put_receipt put_idempotency append_event append_audit
create_writes-cases q p s = elim (Bool-cases s.fail_points.persist_activation) [
  | inl a ↦ inl ("FAILPOINT_persistActivation", rw a refl)
  | inr a ↦ elim (Bool-cases s.fail_points.persist_receipt) [
    | inl r ↦ inl ("FAILPOINT_persistReceipt", rw (a, r) refl)
    | inr r ↦ elim (Bool-cases s.fail_points.event_write) [
      | inl w ↦ inl ("FAILPOINT_eventWrite", rw (a, r, w) refl)
      | inr w ↦ elim (Bool-cases s.fail_points.audit_write) [
        | inl x ↦ inl ("FAILPOINT_auditWrite", rw (a, r, w, x) refl)
        | inr x ↦ inr (create_writes_sound q p s a r x w)
      ]
    ]
  ]
]

created-Keeps :
    (q : Request) (p : Pending) (s : Store) (k : String)
    → Keeps k s (record (created_store q p (record s { tx_depth = 1 })) { tx_depth = 0 })
unfolding created_store
created-Keeps q p s k = record {
  outside = refl;
  used = λ u n.
      let key = idempotency_key q.client_id p.input.idempotency_key in
      elim (Bool-cases (key == k)) [
        | inl same ↦ absurd (cc (rw (get-set key k (idempotency_for q p) s.idempotency, same) at n))
        | inr other ↦ u (rw (get-set key k (idempotency_for q p) s.idempotency, other) at n)
      ];
}

or_failure-fails :
    (q : Request) (p : Pending) (s s' : Store) (k : String) (r : Result (Unit {0})) (e : String)
    → s.tx_depth ≡ 0
    → r ≡ err e
    → s' ≡ s
    → Keeps k s (or_failure q r (created q p) s').1
unfolding or_failure
or_failure-fails q p s s' k (ok u) e d h g = absurd (cc h)
or_failure-fails q p s s' k (err x) e d h g =
    subst (λ t. Keeps k s (persistence_failure q t).1) (sym g)
      (Same-Keeps k s _ d (failed-Same q s d))

or_failure-written :
    (q : Request) (p : Pending) (s s' : Store) (k : String) (r : Result (Unit {0}))
    → r ≡ ok tt
    → Keeps k s s'
    → Keeps k s (or_failure q r (created q p) s').1
unfolding or_failure created
or_failure-written q p s s' k (ok u) h g = g
or_failure-written q p s s' k (err x) h g = absurd (cc h)

downstream_failed-Same :
    (q : Request) (status : String) (s : Store) → Same s (downstream_failed q status s).1
unfolding downstream_failed append_audit Same
downstream_failed-Same q status s = elim (Bool-cases s.fail_points.audit_write) [
  | inl x ↦ rw x (refl, refl)
  | inr x ↦ rw x (refl, refl)
]

settle-Keeps :
    (q : Request) (p : Pending) (reply : Bool × String) (s : Store) (k : String)
    → s.tx_depth ≡ 0
    → Keeps k s (settle q p reply s).1
unfolding settle
settle-Keeps q p (false, status) s k d = Same-Keeps k s _ d (downstream_failed-Same q status s)
settle-Keeps q p (true, status) s k d = elim (create_writes-cases q p (record s { tx_depth = 1 })) [
  | inl f ↦
      let threw = run_transaction-err (create_writes q p) s f.0 d f.1 in
      or_failure-fails q p s _ k _ f.0 d threw
        (run_transaction_rollback (create_writes q p) s f.0 d threw)
  | inr w ↦
      let done = run_transaction-ok (create_writes q p) s tt d (ap (λ t. t.0) w) in
      let stored = ap (λ t. t.1) done ∙ ap (λ t. record (t.1) { tx_depth = 0 }) w in
      or_failure-written q p s _ k _ (ap (λ t. t.0) done)
        (subst (Keeps k s) (sym stored) (created-Keeps q p s k))
]

after_prepare-Keeps :
    (o : Options) (q : Request) (r : Result Prepared) (s s' : Store) (k : String)
    → s.tx_depth ≡ 0
    → Same s s'
    → Keeps k s (continue r (after_prepare o q) s').1
unfolding after_prepare Same
after_prepare-Keeps o q (err e) s s' k d g = Same-Keeps k s s' d g
after_prepare-Keeps o q (ok (answered x)) s s' k d g = Same-Keeps k s s' d g
after_prepare-Keeps o q (ok (pending p)) s s' k d g =
    let h = settle-Keeps q p _ s' k (g.1 ∙ d) in
    record { outside = h.outside; used = λ u. h.used (λ n. u (ap (get k) (sym g.0) ∙ n)) }

change-Keeps :
    (act : Action) (q : Request) (id : String) (s : Store) (k : String)
    → s.tx_depth ≡ 0
    → Keeps k s (process_state_change act q id s).1
unfolding Outcomes IsAuditOnly changed_store Same
change-Keeps act q id s k d = elim (process_state_change-Outcomes act q id s d) [
  | inl same ↦ Same-Keeps k s _ d (ap (λ t. t.idempotency) same, ap (λ t. t.tx_depth) same)
  | inr (_, _, _, _, _, inl only) ↦
      Same-Keeps k s _ d (ap (λ t. t.idempotency) only, ap (λ t. t.tx_depth) only)
  | inr (_, _, _, _, _, inr w) ↦
      Same-Keeps k s _ d (ap (λ t. t.idempotency) w, ap (λ t. t.tx_depth) w)
]

step-Keeps : (x : Step) (s : Store) (k : String) → s.tx_depth ≡ 0 → Keeps k s (step x s)
unfolding step process_activation prepare Same
step-Keeps (activate o q body) s k d =
    let prepared = with_input o q body (read_activation_input body) s in
    after_prepare-Keeps o q prepared.0 s prepared.1 k d
      (prepare-Same o q body (read_activation_input body) s)
step-Keeps (change act q id) s k d = change-Keeps act q id s k d
step-Keeps (set_faults f) s k d = Same-Keeps k s _ d (refl, refl)

run_steps-Keeps :
    (xs : List Step) (s : Store) (k : String) → s.tx_depth ≡ 0 → Keeps k s (run_steps xs s)
unfolding run_steps
run_steps-Keeps [] s k d = record { outside = d; used = λ u. u }
run_steps-Keeps (x ∷ xs) s k d =
    let h = step-Keeps x s k d in
    let g = run_steps-Keeps xs (step x s) k h.outside in
    record { outside = g.outside; used = λ u. g.used (h.used u) }

-- Once a request has been settled with success, on a store without fail points and outside a
-- transaction, then whatever activations, deactivations and revocations come, by whomever and with
-- whatever fail points set, no later request of the client under the same idempotency key goes on
-- to the downstream service, whatever its body.
pub settled_key_used :
    (o : Options) (q q' : Request) (body' : Fields) (p p' : Pending) (status : String)
    (between : List Step) (s s3 : Store)
    → IsSound s
    → prepare o q' body' (run_steps between (settle q p (true, status) s).1) ≡ (ok (pending p'), s3)
    → q'.client_id ≡ q.client_id
    → p'.input.idempotency_key ≢ p.input.idempotency_key
unfolding get_idempotency
settled_key_used o q q' body' p p' status between s s3 h e c k =
    let s1 = (settle q p (true, status) s).1 in
    let key = idempotency_key q.client_id p.input.idempotency_key in
    let stored : s1 ≡ created_store q p s = (settle-created q p status s h).0 in
    let closed : s1.tx_depth ≡ 0 = (settle-Keeps q p (true, status) s key h.outside).outside in
    let here : get key s1.idempotency ≢ none = λ n.
      absurd
        (cc (ap (λ t. get key t.idempotency) (sym stored) ∙ n, get_idempotency-created q p s)) in
    let unused = (prepare-IsAdmitted o q' body' (run_steps between s1) s3 p' e).0.unused in
    (run_steps-Keeps between s1 key closed).used here (rw (c, k) at unused)
