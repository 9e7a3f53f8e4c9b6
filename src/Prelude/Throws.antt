-- ===== src/Prelude/Throws.antt =====
-- A computation that may throw: `err` carries the message of the `Error`.
use Prim.Native.String.{String}
use mathlib.Core.Bool.{Bool, true, false}

pub data Result {ℓ} (A : Type ℓ) : Type ℓ where
  err : String → Result A
  ok : A → Result A

-- `if (!b) throw new Error(message)`
abbrev pub guard : Bool → String → Result (Unit {0})
guard false message = err message
guard true message = ok tt

-- What comes after a throw is not run.
infixl 5 ◌>>◌ ◌>>=◌
abbrev pub ◌>>=◌ {ℓ κ} : {A : Type ℓ} {B : Type κ} → Result A → (A → Result B) → Result B
err message >>= rest = err message
ok value >>= rest = rest value

abbrev pub ◌>>◌ {κ} : {B : Type κ} → Result (Unit {0}) → Result B → Result B
first >> rest = first >>= λ _. rest
