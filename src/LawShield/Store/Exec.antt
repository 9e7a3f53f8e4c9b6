-- ===== src/LawShield/Store/Exec.antt =====
-- Code that changes the processor's store and may throw.
unfoldable pub use arma_partner_api_sandbox.Prelude.Exec.{
  continue, ◌>>=◌, ◌>>◌, pure, throw, gets, modify, catching,
}
use arma_partner_api_sandbox.Prelude.Exec.{Exec as Stateful}
use arma_partner_api_sandbox.LawShield.Store.{Store}

abbrev pub Exec : Type 0 → Type 0
Exec = Stateful Store
