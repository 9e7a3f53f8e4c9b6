-- ===== src/Prelude/Exec/Ensures.antt =====
-- What holds where a run of such code returns; a run that throws is free.
use Prim.Native.String.{String}
use mathlib.Core.Path.{◌≡◌, sym, subst}
use arma_partner_api_sandbox.Prelude.Throws.{Result, ok, err}
use arma_partner_api_sandbox.Prelude.Exec.{Exec, continue, ◌>>=◌}

module _ {S : Type 0} where
  pub data Ensures {A : Type 0} (Q : A → S → Type 0) : Result A × S → Type 0 where
    returned : (a : A) (s : S) → Q a s → Ensures Q (ok a, s)
    thrown : (e : String) (s : S) → Ensures Q (err e, s)

  pub returns :
      {A : Type 0} (Q : A → S → Type 0) (a : A) (s : S) (x : Result A × S)
      → x ≡ (ok a, s)
      → Q a s
      → Ensures Q x
  returns Q a s x e q = subst (Ensures Q) (sym e) (returned a s q)

  pub throws :
      {A : Type 0} (Q : A → S → Type 0) (e : String) (s : S) (x : Result A × S)
      → x ≡ (err e, s)
      → Ensures Q x
  throws Q e s x h = subst (Ensures Q) (sym h) (thrown e s)

  pub weaken-Ensures :
      {A : Type 0} (P Q : A → S → Type 0) (x : Result A × S)
      → ((a : A) (s : S) → P a s → Q a s)
      → Ensures P x
      → Ensures Q x
  weaken-Ensures P Q _ k (returned a s p) = returned a s (k a s p)
  weaken-Ensures P Q _ k (thrown e s) = thrown e s

  continue-Ensures :
      {A B : Type 0} (P : A → S → Type 0) (Q : B → S → Type 0) (f : A → Exec S B) (x : Result A × S)
      → Ensures P x
      → ((a : A) (s : S) → P a s → Ensures Q (f a s))
      → Ensures Q (continue x.0 f x.1)
  continue-Ensures P Q f _ (returned a s p) h = h a s p
  continue-Ensures P Q f _ (thrown e s) h = thrown e s

  pub bind-Ensures :
      {A B : Type 0} (P : A → S → Type 0) (Q : B → S → Type 0) (m : Exec S A) (f : A → Exec S B)
      (s : S)
      → Ensures P (m s)
      → ((a : A) (s' : S) → P a s' → Ensures Q (f a s'))
      → Ensures Q ((m >>= f) s)
  bind-Ensures P Q m f s h k = continue-Ensures P Q f (m s) h k

  pub ok-Ensures :
      {A : Type 0} (Q : A → S → Type 0) (x : Result A × S) (a : A)
      → Ensures Q x
      → x.0 ≡ ok a
      → Q a x.1
  ok-Ensures Q _ a (returned b s q) h = subst (λ c. Q c s) (value h) q
    where
      value : ok b ≡ ok a → b ≡ a
      value h = cc (h)
  ok-Ensures Q _ a (thrown e s) h = absurd (cc h)
