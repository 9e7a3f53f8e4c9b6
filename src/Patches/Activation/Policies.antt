-- ===== src/Patches/Activation/Policies.antt =====
-- When `processActivation` of patches/lib/server.ts goes on to its downstream service.
use arma_partner_api_sandbox.Prelude.{
  String, Option, none, some, ◌≡◌, refl, arith, ok, inl, inr, Bool-cases, ◌↔◌,
}
use arma_partner_api_sandbox.Prelude.Json.{Fields}
use arma_partner_api_sandbox.Patches.Store.{Store, IdempotencyRecord}
use arma_partner_api_sandbox.Patches.Store.Reads.{get_idempotency}
use arma_partner_api_sandbox.Patches.Store.Writes.{append_audit}
use arma_partner_api_sandbox.Patches.Policy.{Verdict, allow, deny}
use arma_partner_api_sandbox.Patches.Policy.Laws.{
  Owns, IsEntitled, IsOffered, IsBound, authorize_org_iff, check_entitlement_iff,
  check_capability_iff, check_binding_iff, then_check-allow,
}
use arma_partner_api_sandbox.Patches.Activation.{
  Options, Request, ActivationInput, Pending, pending, IdempotencyResolution, fresh, duplicate,
  conflicting, read_activation_input, resolve_found, resolve_idempotency, activation_policy,
  by_resolution, by_policy, with_input, prepare,
}

-- Everything that stands behind a request that waits for the service.
pub record IsAdmitted (o : Options) (q : Request) (body : Fields) (s : Store) (p : Pending)
    : Type 0 where
  pub read : read_activation_input body ≡ some p.input
  pub hashed : p.request_hash ≡ o.hash_object body
  pub owns : Owns s q.partner_id p.input.org_id
  pub entitled : IsEntitled s q.partner_id p.input.org_id p.input.capability q.now
  pub offered : IsOffered s p.input.capability "v1"
  pub bound : IsBound s p.input.binding_id p.input.org_id p.input.capability
  pub unused : get_idempotency s q.client_id p.input.idempotency_key ≡ none

by_resolution-pending :
    (q : Request) (i : ActivationInput) (h : String) (r : IdempotencyResolution) (s s' : Store)
    (p : Pending)
    → by_resolution q i h r s ≡ (ok (pending p), s')
    → (r ≡ fresh) × (p ≡ record { input = i; request_hash = h }) × (s' ≡ s)
unfolding by_resolution append_audit
by_resolution-pending q i h fresh s s' p e = (refl, cc e, cc e)
by_resolution-pending q i h (duplicate x) s s' p e = elim (Bool-cases s.fail_points.audit_write) [
  | inl bad ↦ absurd (cc (rw bad at e))
  | inr good ↦ absurd (cc (rw good at e))
]
by_resolution-pending q i h (conflicting x) s s' p e = elim (Bool-cases s.fail_points.audit_write) [
  | inl bad ↦ absurd (cc (rw bad at e))
  | inr good ↦ absurd (cc (rw good at e))
]

by_policy-pending :
    (q : Request) (i : ActivationInput) (h : String) (v : Verdict) (s s' : Store) (p : Pending)
    → by_policy q i h v s ≡ (ok (pending p), s')
    → (v ≡ allow)
      × (resolve_idempotency s q.client_id i.idempotency_key h ≡ fresh)
      × (p ≡ record { input = i; request_hash = h })
      × (s' ≡ s)
unfolding by_policy
by_policy-pending q i h (deny c) s s' p e = absurd (cc e)
by_policy-pending q i h allow s s' p e =
    let (new, shape, same) = by_resolution-pending q i h _ s s' p e in (refl, new, shape, same)

resolve_found-fresh :
    (h : String) (o : Option IdempotencyRecord) → resolve_found h o ≡ fresh → o ≡ none
unfolding resolve_found
resolve_found-fresh h none e = refl
resolve_found-fresh h (some x) e = ground arith

activation_policy-allow :
    (s : Store) (q : Request) (i : ActivationInput)
    → (activation_policy s q i ≡ allow) ↔ (
        Owns s q.partner_id i.org_id
        × IsEntitled s q.partner_id i.org_id i.capability q.now
        × IsOffered s i.capability "v1"
        × IsBound s i.binding_id i.org_id i.capability)
unfolding activation_policy
activation_policy-allow s q i =
    let org = authorize_org_iff s q.partner_id i.org_id in
    let ent = check_entitlement_iff s q.partner_id i.org_id i.capability q.now in
    let cap = check_capability_iff s i.capability "v1" in
    let bind = check_binding_iff s i.binding_id i.org_id i.capability in
    (
      λ h.
          let (a, h1) = (then_check-allow _ _).0 h in
          let (b, h2) = (then_check-allow _ _).0 h1 in
          let (c, d) = (then_check-allow _ _).0 h2 in (org.0 a, ent.0 b, cap.0 c, bind.0 d),
      λ w. (then_check-allow _ _).1 (
        org.1 w.0,
        (then_check-allow _ _).1 (ent.1 w.1, (then_check-allow _ _).1 (cap.1 w.2, bind.1 w.3)),
      ),
    )

with_input-pending :
    (o : Options) (q : Request) (body : Fields) (r : Option ActivationInput) (s s' : Store)
    (p : Pending)
    → with_input o q body r s ≡ (ok (pending p), s')
    → (r ≡ some p.input)
      × (p.request_hash ≡ o.hash_object body)
      × (activation_policy s q p.input ≡ allow)
      × (get_idempotency s q.client_id p.input.idempotency_key ≡ none)
      × (s' ≡ s)
unfolding with_input resolve_idempotency
with_input-pending o q body none s s' p e = absurd (cc e)
with_input-pending o q body (some i) s s' p e =
    let (allowed, new, shape, same) =
      by_policy-pending q i (o.hash_object body) (activation_policy s q i) s s' p e in
    rw shape (refl, refl, allowed, resolve_found-fresh (o.hash_object body) _ new, same)

pub prepare-IsAdmitted :
    (o : Options) (q : Request) (body : Fields) (s s' : Store) (p : Pending)
    → prepare o q body s ≡ (ok (pending p), s')
    → IsAdmitted o q body s p × (s' ≡ s)
unfolding prepare
prepare-IsAdmitted o q body s s' p e =
    let (read, hashed, allowed, unused, same) =
      with_input-pending o q body (read_activation_input body) s s' p e in
    let (owns, entitled, offered, bound) = (activation_policy-allow s q p.input).0 allowed in
    (
      record {
        read = read;
        hashed = hashed;
        owns = owns;
        entitled = entitled;
        offered = offered;
        bound = bound;
        unused = unused;
      },
      same,
    )

prepare-admitted :
    (o : Options) (q : Request) (body : Fields) (s : Store) (p : Pending)
    → IsAdmitted o q body s p
    → prepare o q body s ≡ (ok (pending p), s)
unfolding prepare with_input by_policy by_resolution resolve_idempotency resolve_found
prepare-admitted o q body s p w =
    let allowed =
      (activation_policy-allow s q p.input).1 (w.owns, w.entitled, w.offered, w.bound) in
    rw (w.read, allowed, w.unused, ← w.hashed) refl

-- A request goes on to the downstream service exactly when its four fields are there and not empty, the
-- partner owns the active organization, holds an active entitlement whose window contains the time,
-- the capability is offered for v1, an active binding joins the three, and the client has not used
-- the idempotency key before; what it carries on is its input and the hash of its body, and the store is as it was.
pub prepare-pending_iff :
    (o : Options) (q : Request) (body : Fields) (s s' : Store) (p : Pending)
    → (prepare o q body s ≡ (ok (pending p), s')) ↔ (IsAdmitted o q body s p × (s' ≡ s))
prepare-pending_iff o q body s s' p =
    (prepare-IsAdmitted o q body s s' p, λ (w, same). rw same (prepare-admitted o q body s p w))
