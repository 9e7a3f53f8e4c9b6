-- ===== src/LawShield/Store/Transactions/Effects.antt =====
-- How a transaction of law-shield/lawshield/durable/store.js ends, whatever code it runs.

use arma_partner_api_sandbox.Prelude.{ℕ, ◌+◌, String, Result, ok, err}
use arma_partner_api_sandbox.Prelude.Exec.Ensures.{Ensures, returned, thrown}
use arma_partner_api_sandbox.LawShield.Store.{Store, FailPoints}
use arma_partner_api_sandbox.LawShield.Store.Exec.{Exec, continue}
use arma_partner_api_sandbox.Prelude.Exec.{caught}
use arma_partner_api_sandbox.LawShield.Store.Transactions.{run_transaction, finish, restore_state}

-- Committed: what the code ensures holds, but for the depth. Rolled back: all collections and the
-- audit counter are as before.
pub data HasEnded {A : Type 0} (Q : A → Store → Type 0) (s : Store)
    : Result A × Store → Type 0 where
  committed :
      (a : A) (s' : Store) (n : ℕ) → Q a s' → HasEnded Q s (ok a, record s' { tx_depth = n })
  rolled_back :
      (e : String) (f : FailPoints) (n : ℕ)
      → HasEnded Q s (err e, record s { fail_points = f; tx_depth = n })

finish-HasEnded :
    {A : Type 0} (Q : A → Store → Type 0) (s : Store) (x : Result A × Store)
    → Ensures Q x
    → HasEnded Q s (finish s x.0 x.1)
unfolding finish restore_state
finish-HasEnded Q s _ (returned a s' q) = committed a s' _ q
finish-HasEnded Q s _ (thrown e s') = rolled_back e _ _

pub run_transaction-HasEnded :
    {A : Type 0} (Q : A → Store → Type 0) (fn : Exec A) (s : Store)
    → Ensures Q (fn (record s { tx_depth = s.tx_depth + 1 }))
    → HasEnded Q s (run_transaction fn s)
unfolding run_transaction
run_transaction-HasEnded Q fn s h =
    finish-HasEnded Q s (fn (record s { tx_depth = s.tx_depth + 1 })) h

-- Any code ends so, whatever it does.
pub any_HasEnded :
    {A : Type 0} (fn : Exec A) (s : Store) → HasEnded (λ _ _. Unit {0}) s (run_transaction fn s)
any_HasEnded {A} fn s = run_transaction-HasEnded (λ _ _. Unit {0}) fn s (free _)
  where
    free : (x : Result A × Store) → Ensures (λ _ _. Unit {0}) x
    free (ok a, s') = returned a s' tt
    free (err e, s') = thrown e s'

-- By how the transaction ends: what comes after it in a `try`, and its `catch`.
pub caught-HasEnded :
    {A B : Type 0} (Q : A → Store → Type 0) (R : Result B × Store → Type 0) (s : Store)
    (f : A → Exec B) (handler : String → Exec B) (x : Result A × Store)
    → HasEnded Q s x
    → ((a : A) (s' : Store) (n : ℕ) → Q a s' → R (f a (record s' { tx_depth = n })))
    → ((e : String) (p : FailPoints) (n : ℕ)
        → R (handler e (record s { fail_points = p; tx_depth = n })))
    → R (caught x.0 f handler x.1)
caught-HasEnded Q R s f handler _ (committed a s' n q) k h = k a s' n q
caught-HasEnded Q R s f handler _ (rolled_back e p n) k h = h e p n

-- The same where nothing catches.
pub continue-HasEnded :
    {A B : Type 0} (Q : A → Store → Type 0) (R : Result B × Store → Type 0) (s : Store)
    (f : A → Exec B) (x : Result A × Store)
    → HasEnded Q s x
    → ((a : A) (s' : Store) (n : ℕ) → Q a s' → R (f a (record s' { tx_depth = n })))
    → ((e : String) (p : FailPoints) (n : ℕ)
        → R (err e, record s { fail_points = p; tx_depth = n }))
    → R (continue x.0 f x.1)
continue-HasEnded Q R s f _ (committed a s' n q) k h = k a s' n q
continue-HasEnded Q R s f _ (rolled_back e p n) k h = h e p n
