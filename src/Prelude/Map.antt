-- ===== src/Prelude/Map.antt =====
-- JavaScript's `Map` with string keys: an association list in insertion order.
use Prim.Native.Nat.{ℕ}
use Prim.Native.String.{String}
use mathlib.Core.Path.{◌≡◌, refl}
use mathlib.Core.Bool.{Bool, true}
use mathlib.Core.List.{List, [], ◌∷◌}
use mathlib.Core.Option.{Option, none, some}
use native.Mathlib.Omega.{arith}
use text.Mathlib.Text.{◌==◌}
use text.Mathlib.TextEquality.{eq_iff}
use text.Mathlib.TextPositions.{eq_refl}
use mathlib.Core.Logic.{◌≢◌}
use arma_partner_api_sandbox.Prelude.Tests.{if◌then◌else◌}
use arma_partner_api_sandbox.Prelude.Lists.{length}

abbrev pub Map {ℓ} : Type ℓ → Type ℓ
Map V = List (String × V)

module _ {ℓ} {V : Type ℓ} where
  abbrev pub empty : Map V
  empty = []

  -- m.get(k)
  unfoldable pub get : String → Map V → Option V
  get k [] = none
  get k ((j, v) ∷ m) = if j == k then some v else get k m

  -- m.set(k, v): an existing key keeps its place
  unfoldable pub set : String → V → Map V → Map V
  set k v [] = (k, v) ∷ []
  set k v ((j, w) ∷ m) = if j == k then (k, v) ∷ m else (j, w) ∷ set k v m

  -- m.delete(k)
  unfoldable pub delete : String → Map V → Map V
  delete k [] = []
  delete k ((j, v) ∷ m) = let rest = delete k m in if j == k then rest else (j, v) ∷ rest

  -- for (const [k, v] of m) if (!p(v)) m.delete(k)
  unfoldable pub retain : (V → Bool) → Map V → Map V
  retain p [] = []
  retain p ((j, v) ∷ m) = let rest = retain p m in if p v then (j, v) ∷ rest else rest

  -- m.size
  unfoldable pub size : Map V → ℕ
  size m = length m

  pub get-empty : (k : String) → get k empty ≡ none
  unfolding get
  get-empty k = refl

  pub get-set :
      (k j : String) (v : V) (m : Map V) → get j (set k v m) ≡ (if k == j then some v else get j m)
  unfolding get set
  get-set k j v [] = refl
  get-set k j v ((i, w) ∷ m) = ground (arith, eq_iff k j, eq_iff i k, eq_iff i j, get-set k j v m)

  pub get-delete :
      (k j : String) (m : Map V) → get j (delete k m) ≡ (if k == j then none else get j m)
  unfolding get delete
  get-delete k j [] = ground arith
  get-delete k j ((i, w) ∷ m) = ground (arith, eq_iff k j, eq_iff i k, eq_iff i j, get-delete k j m)

  -- What is retained is found again, and only that.
  pub get-retain_keeps :
      (p : V → Bool) (k : String) (m : Map V) (v : V)
      → get k m ≡ some v
      → p v ≡ true
      → get k (retain p m) ≡ some v
  unfolding get retain
  get-retain_keeps p k [] v h t = ground arith
  get-retain_keeps p k ((i, w) ∷ m) v h t = ground (arith, get-retain_keeps p k m v)

  pub get-retain_sound :
      (p : V → Bool) (k : String) (m : Map V) (v : V) → get k (retain p m) ≡ some v → p v ≡ true
  unfolding get retain
  get-retain_sound p k [] v h = ground arith
  get-retain_sound p k ((i, w) ∷ m) v h = ground (arith, get-retain_sound p k m v)

  pub get-set_self : (k : String) (v : V) (m : Map V) → get k (set k v m) ≡ some v
  get-set_self k v m = rw (get-set k k v m, eq_refl)

  pub get-set_ne : (k j : String) (v : V) (m : Map V) → k ≢ j → get j (set k v m) ≡ get j m
  get-set_ne k j v m h = rw (get-set k j v m) (ground (arith, eq_iff k j))
