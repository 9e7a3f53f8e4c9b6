-- ===== src/Patches/Store/Exec.antt =====
-- Code that changes the partner store and may throw.
unfoldable pub use arma_partner_api_sandbox.Prelude.Exec.{
  continue, ◌>>=◌, ◌>>◌, pure, throw, gets, modify,
}
use arma_partner_api_sandbox.Prelude.Exec.{Exec as Stateful}
use arma_partner_api_sandbox.Patches.Store.{Store}

abbrev pub Exec : Type 0 → Type 0
Exec = Stateful Store
