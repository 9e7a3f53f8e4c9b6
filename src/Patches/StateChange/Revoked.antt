-- ===== src/Patches/StateChange/Revoked.antt =====
-- What no sequence of the state changes of patches/lib/server.ts can undo.
use arma_partner_api_sandbox.Prelude.{
  String, Option, none, some, List, [], ◌∷◌, ◌≡◌, ◌≢◌, ◌⊎◌, inl, inr, refl, sym, ap, ◌∙◌,
  Bool-cases, ◌==◌, eq_iff,
}
use mathlib.Core.Path.{subst}
use arma_partner_api_sandbox.Prelude.Map.{Map, get, set, get-set, get-set_ne}
use arma_partner_api_sandbox.Patches.Store.{Store, ActivationRecord, ActivationStatus}
use arma_partner_api_sandbox.Patches.Store.Reads.{get_activation}
use arma_partner_api_sandbox.Patches.Activation.{Request}
use arma_partner_api_sandbox.Patches.StateChange.{Action, changed, process_state_change}
use arma_partner_api_sandbox.Patches.StateChange.Lifecycle.{
  activations_after, changed-activation_id,
}

-- Every activation is stored under its own id.
unfoldable pub IsKeyed : Map ActivationRecord → Type 0
IsKeyed m = (id : String) (a : ActivationRecord) → get id m ≡ some a → a.activation_id ≡ id

record_id_of : ActivationRecord → Option ActivationRecord → String
record_id_of d none = d.activation_id
record_id_of d (some a) = a.activation_id

changed-IsKeyed :
    (act : Action) (q : Request) (a : ActivationRecord) (m : Map ActivationRecord)
    → IsKeyed m
    → IsKeyed (set a.activation_id (changed act q a) m)
unfolding IsKeyed record_id_of
changed-IsKeyed act q a m k id b h = elim (Bool-cases (a.activation_id == id)) [
  | inl e ↦
      let found : some b ≡ some (changed act q a) =
        sym h ∙ get-set a.activation_id id (changed act q a) m ∙ rw e refl in
      ap (record_id_of b) found ∙ changed-activation_id act q a ∙ (eq_iff a.activation_id id).0 e
  | inr e ↦ k id b (sym (get-set a.activation_id id (changed act q a) m ∙ rw e refl) ∙ h)
]

-- One call of the handler, as a server sees it: which action, whose request, which activation.
pub record Change : Type 0 where
  pub action : Action
  pub request : Request
  pub activation_id : String

unfoldable pub run_changes : List Change → Store → Store
run_changes [] s = s
run_changes (c ∷ cs) s =
    run_changes cs (process_state_change c.action c.request c.activation_id s).1

step-IsKeyed :
    (act : Action) (q : Request) (id : String) (s : Store)
    → s.tx_depth ≡ 0
    → IsKeyed s.activations
    → IsKeyed (process_state_change act q id s).1.activations
      × ((process_state_change act q id s).1.tx_depth ≡ 0)
step-IsKeyed act q id s d k = elim (activations_after act q id s d) [
  | inl same ↦ (subst (λ t. IsKeyed t.activations) (sym same) k, ap (λ t. t.tx_depth) same ∙ d)
  | inr o ↦ elim o.3 [
    | inl same ↦ (subst IsKeyed (sym same) k, o.4)
    | inr w ↦ (subst IsKeyed (sym w) (changed-IsKeyed act q o.0 s.activations k), o.4)
  ]
]

status_of : Option ActivationRecord → ActivationStatus
status_of none = ActivationStatus.active
status_of (some a) = a.status

changed_elsewhere :
    (id j : String) (a b : ActivationRecord) (m : Map ActivationRecord)
    → get id m ≡ some a
    → get j m ≡ some b
    → a.activation_id ≡ id
    → a.status ≢ ActivationStatus.revoked
    → (id ≢ j) ⊎ (b.status ≡ ActivationStatus.revoked)
    → a.activation_id ≢ j
unfolding status_of
changed_elsewhere id j a b m ha hb own n (inl ne) e = ne (sym own ∙ e)
changed_elsewhere id j a b m ha hb own n (inr r) e =
    n (ap status_of (sym ha ∙ ap (λ x. get x m) (sym own ∙ e) ∙ hb) ∙ r)

-- A change of one activation leaves each other one as it is, and a revoked one stays as it is.
step_keeps :
    (act : Action) (q : Request) (id : String) (s : Store) (j : String) (b : ActivationRecord)
    → s.tx_depth ≡ 0
    → IsKeyed s.activations
    → get_activation s j ≡ some b
    → (id ≢ j) ⊎ (b.status ≡ ActivationStatus.revoked)
    → get_activation (process_state_change act q id s).1 j ≡ some b
unfolding IsKeyed get_activation
step_keeps act q id s j b d k h r = elim (activations_after act q id s d) [
  | inl same ↦ ap (λ t. get j t.activations) same ∙ h
  | inr o ↦ elim o.3 [
    | inl same ↦ ap (get j) same ∙ h
    | inr w ↦
        ap (get j) w
        ∙ get-set_ne o.0.activation_id j (changed act q o.0) s.activations
            (changed_elsewhere id j o.0 b s.activations o.1 h (k id o.0 o.1) o.2 r)
        ∙ h
  ]
]

-- Whatever deactivations and revocations follow, by whomever and with whatever persistence failures,
-- a revoked activation keeps the very record it has, if each activation is stored under its own
-- id and no transaction is open.
pub run_changes-revoked :
    (cs : List Change) (s : Store) (j : String) (b : ActivationRecord)
    → s.tx_depth ≡ 0
    → IsKeyed s.activations
    → get_activation s j ≡ some b
    → b.status ≡ ActivationStatus.revoked
    → get_activation (run_changes cs s) j ≡ some b
unfolding run_changes
run_changes-revoked [] s j b d k h r = h
run_changes-revoked (c ∷ cs) s j b d k h r =
    let (k', d') = step-IsKeyed c.action c.request c.activation_id s d k in
    run_changes-revoked cs _ j b d' k'
      (step_keeps c.action c.request c.activation_id s j b d k h (inr r)) r
