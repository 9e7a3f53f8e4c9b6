-- ===== src/Patches/Security/Rotation.antt =====
-- `rotateCredential` and `revokeCredential` of patches/lib/security.ts.
use arma_partner_api_sandbox.Prelude.{ℕ, ◌+◌, String, Option, none, some}
use arma_partner_api_sandbox.Patches.Store.{CredentialRecord, CredentialStatus}
use arma_partner_api_sandbox.Patches.Store.Exec.{Exec, ◌>>◌, pure}
use arma_partner_api_sandbox.Patches.Store.Reads.{get_credential, active_credential_for}
use arma_partner_api_sandbox.Patches.Store.Writes.{put_credential}
use arma_partner_api_sandbox.Patches.Store.Transactions.{run_transaction}

pub record RotateCredentialInput : Type 0 where
  pub client_id : String
  pub new_key_id : String
  pub new_secret_hash : String
  pub grace_ms : ℕ
  pub now : ℕ

-- only an ACTIVE one gets a grace period
retire_if_active : ℕ → Option CredentialRecord → Exec (Unit {0})
retire_if_active until none = pure tt
retire_if_active until (some c) = elim c.status [
  | CredentialStatus.active ↦
      put_credential (record c { status = CredentialStatus.grace; retired_at = some until })
  | _ ↦ pure tt
]

unfoldable pub rotated : RotateCredentialInput → Option CredentialRecord → CredentialRecord
rotated input previous = record {
  client_id = input.client_id;
  key_id = input.new_key_id;
  secret_hash = input.new_secret_hash;
  status = CredentialStatus.active;
  activated_at = input.now;
  rotated_from = elim previous [ some c ↦ some c.key_id | none ↦ none ];
  retired_at = none;
  revoked_at = none;
  revoked_reason = none;
}

rotation : RotateCredentialInput → Option CredentialRecord → Exec CredentialRecord
unfolding retire_if_active rotated
rotation input previous = do
  retire_if_active (input.now + input.grace_ms) previous
  put_credential (rotated input previous)
  pure (rotated input previous)

-- `graceMs ?? 10 * 60 * 1000` is the caller's.
unfoldable pub rotate_credential : RotateCredentialInput → Exec CredentialRecord
unfolding rotation
rotate_credential input =
    run_transaction (λ s. rotation input (active_credential_for s input.client_id) s)

unfoldable pub revoked : ℕ → String → CredentialRecord → CredentialRecord
revoked now reason c = record c {
  status = CredentialStatus.revoked;
  revoked_at = some now;
  revoked_reason = some reason;
}

on_found : ℕ → String → Option CredentialRecord → Exec (Option CredentialRecord)
unfolding revoked
on_found now reason none = pure none
on_found now reason (some c) = do
  put_credential (revoked now reason c)
  pure (some (revoked now reason c))

unfoldable pub revoke_credential :
    (client_id key_id reason : String) (now : ℕ) → Exec (Option CredentialRecord)
unfolding on_found
revoke_credential client_id key_id reason now s =
    on_found now reason (get_credential s client_id key_id) s
