-- ===== src/Patches/Activation/Race.antt =====
-- Idempotency keys and request ids of `processActivation` (patches/lib/server.ts) over several
-- requests, one after another and with their waits overlapping.
use mathlib.Core.Path.{subst₂}
use text.Mathlib.TextLemmas.{append_cancel_left}
use arma_partner_api_sandbox.Prelude.{
  String, true, false, some, ◌≡◌, ◌≢◌, refl, sym, ok, ◌==◌, eq_iff, eq_refl, Bool-cases, inl, inr,
}
use arma_partner_api_sandbox.Prelude.Json.{Fields}
use arma_partner_api_sandbox.Patches.Store.{Store, ActivationRecord, ActivationStatus}
use arma_partner_api_sandbox.Patches.Store.Reads.{get_activation, get_idempotency}
use arma_partner_api_sandbox.Patches.Activation.{
  Options, Request, ServiceInput, Pending, pending, activation_id_for, prepare,
}
use arma_partner_api_sandbox.Patches.Activation.Settle.{
  activation_for, idempotency_for, after_prepare, process_activation, await_downstream,
}
use arma_partner_api_sandbox.Patches.Store.Exec.{Exec, ◌>>=◌, pure}
use arma_partner_api_sandbox.Patches.Bodies.{Outcome}
use arma_partner_api_sandbox.Patches.Activation.Policies.{IsAdmitted, prepare-pending_iff}
use arma_partner_api_sandbox.Patches.Activation.Created.{
  IsSound, created_store, settle-created, get_activation-created, get_idempotency-created,
}

created-IsSound :
    (q : Request) (p : Pending) (s : Store) → IsSound s → IsSound (created_store q p s)
unfolding created_store
created-IsSound q p s h = record {
  activation = h.activation;
  receipt = h.receipt;
  audit = h.audit;
  event = h.event;
  outside = h.outside;
}

ids_differ :
    (q q' : Request)
    → q.request_id ≢ q'.request_id
    → (activation_id_for q == activation_id_for q') ≡ false
ids_differ q q' d = elim (Bool-cases (activation_id_for q == activation_id_for q')) [
  | inl same ↦
      absurd (d (append_cancel_left "ACT-" q.request_id q'.request_id ((eq_iff _ _).0 same)))
  | inr other ↦ other
]

-- `processActivation` of two requests, where the second is checked while the first waits for the
-- downstream service.
unfoldable pub overlapped : Options → Request → Fields → Request → Fields → Exec (Outcome × Outcome)
overlapped o q body q' body' = do
  prepared ← prepare o q body
  prepared' ← prepare o q' body'
  outcome ← after_prepare o q prepared
  outcome' ← after_prepare o q' prepared'
  pure (outcome, outcome')

-- The service accepts whatever it is sent.
abbrev pub Accepts : Options → Type 0
Accepts o = (input : ServiceInput) → (status : String) × (await_downstream o input ≡ (true, status))

after_prepare-accepted :
    (o : Options) (q : Request) (p : Pending) (s : Store)
    → Accepts o
    → IsSound s
    → ((after_prepare o q (pending p) s).1 ≡ created_store q p s)
      × (x : Outcome) × ((after_prepare o q (pending p) s).0 ≡ ok x)
      × (x.status ≡ 200)
unfolding after_prepare
after_prepare-accepted o q p s up h =
    let (status, replied) = up (record {
      activation_id = activation_id_for q;
      capability = p.input.capability;
      org_id = p.input.org_id;
      binding_id = p.input.binding_id;
    }) in
    let (wrote, x, answered, good, _, _) = settle-created q p status s h in
    rw replied (wrote, x, answered, good)

-- Two requests of one client with the same idempotency key and different request ids, the second of
-- which is checked while the first waits, are both answered 200: two activations stand in the store,
-- and the idempotency record names the second alone.
pub overlapped_both_activate :
    (o : Options) (q q' : Request) (body body' : Fields) (p p' : Pending) (s : Store)
    → Accepts o
    → IsSound s
    → IsAdmitted o q body s p
    → IsAdmitted o q' body' s p'
    → q'.client_id ≡ q.client_id
    → p'.input.idempotency_key ≡ p.input.idempotency_key
    → q.request_id ≢ q'.request_id
    → let (r, s2) = overlapped o q body q' body' s in
      (x : Outcome) × (y : Outcome) × (r ≡ ok (x, y))
      × (x.status ≡ 200)
      × (y.status ≡ 200)
      × (get_activation s2 (activation_id_for q) ≡ some (activation_for q p))
      × (get_activation s2 (activation_id_for q') ≡ some (activation_for q' p'))
      × (get_idempotency s2 q.client_id p.input.idempotency_key ≡ some (idempotency_for q' p'))
unfolding overlapped
overlapped_both_activate o q q' body body' p p' s up h w w' c k d =
    let (s1, x, xr, xs) = after_prepare-accepted o q p s up h in
    let (s2, y, yr, ys) =
      after_prepare-accepted o q' p' (created_store q p s) up (created-IsSound q p s h) in
    rw
      (
        (prepare-pending_iff o q body s s p).1 (w, refl),
        (prepare-pending_iff o q' body' s s p').1 (w', refl),
        xr,
        s1,
        yr,
        s2,
      )
      (
        x,
        y,
        refl,
        xs,
        ys,
        rw (
          get_activation-created q' p' (created_store q p s) (activation_id_for q),
          ids_differ q' q (λ e. d (sym e)),
          get_activation-created q p s (activation_id_for q),
          eq_refl (activation_id_for q),
        ),
        rw (
          get_activation-created q' p' (created_store q p s) (activation_id_for q'),
          eq_refl (activation_id_for q'),
        ),
        subst₂
            (λ a b.
              get_idempotency (created_store q' p' (created_store q p s)) a b
              ≡ some (idempotency_for q' p'))
            c k (get_idempotency-created q' p' (created_store q p s)),
      )

-- A request that repeats the id of an earlier one takes over the activation of that name, whosever it
-- is and whatever its status: an admitted request whose service accepts makes it active, in the
-- request's organization.
pub repeated_id_reactivates :
    (o : Options) (q : Request) (body : Fields) (p : Pending) (s : Store) (a : ActivationRecord)
    → Accepts o
    → IsSound s
    → IsAdmitted o q body s p
    → get_activation s (activation_id_for q) ≡ some a
    → a.status ≡ ActivationStatus.revoked
    → (b : ActivationRecord) × (get_activation
          (process_activation o q body s).1
          (activation_id_for q)
        ≡ some b)
      × (b.status ≡ ActivationStatus.active)
      × (b.partner_id ≡ q.partner_id)
      × (b.org_id ≡ p.input.org_id)
unfolding process_activation
repeated_id_reactivates o q body p s a up h w found was =
    let (wrote, x, answered, good) = after_prepare-accepted o q p s up h in
    rw ((prepare-pending_iff o q body s s p).1 (w, refl), wrote)
      (
        activation_for q p,
        rw (get_activation-created q p s (activation_id_for q), eq_refl (activation_id_for q)),
        unfold activation_for in refl,
        unfold activation_for in refl,
        unfold activation_for in refl,
      )
