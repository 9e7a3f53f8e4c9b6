-- ===== src/Prelude/Exec.antt =====
-- Code that changes a state and may throw: what was written before a throw stays written.
pub mod Ensures
use arma_partner_api_sandbox.Prelude.Throws.{Result, ok, err}
use Prim.Native.String.{String}

abbrev pub Exec : Type 0 → Type 0 → Type 0
Exec S A = S → Result A × S

module _ {S : Type 0} where
  abbrev pub continue : {A B : Type 0} → Result A → (A → Exec S B) → Exec S B
  continue (ok a) f s = f a s
  continue (err e) f s = (err e, s)

  infixl 5 ◌>>=◌ ◌>>◌
  abbrev pub ◌>>=◌ : {A B : Type 0} → Exec S A → (A → Exec S B) → Exec S B
  ◌>>=◌ m f s = let (r, s') = m s in continue r f s'

  abbrev pub ◌>>◌ : {B : Type 0} → Exec S (Unit {0}) → Exec S B → Exec S B
  m >> n = m >>= λ _. n

  abbrev pub pure : {A : Type 0} → A → Exec S A
  pure a s = (ok a, s)

  abbrev pub throw : {A : Type 0} → String → Exec S A
  throw e s = (err e, s)

  abbrev pub gets : {A : Type 0} → (S → A) → Exec S A
  gets f s = (ok (f s), s)

  abbrev pub modify : (S → S) → Exec S (Unit {0})
  modify f s = (ok tt, f s)

  abbrev pub caught : {A B : Type 0} → Result A → (A → Exec S B) → (String → Exec S B) → Exec S B
  caught (ok a) f handler s = f a s
  caught (err e) f handler s = handler e s

  -- `try { a = m() } catch (e) { return handler(e) } return f(a)`
  abbrev pub catching : {A B : Type 0} → Exec S A → (A → Exec S B) → (String → Exec S B) → Exec S B
  catching m f handler s = let (r, s') = m s in caught r f handler s'
