-- ===== src/LawShield/Reconciliation/Tests.antt =====
-- Example runs of law-shield/arma/reconciliation.js, and the theorem at one of them.
use arma_partner_api_sandbox.Prelude.{String, true, false, none, some, List, [], ◌∷◌, ◌≡◌, refl}
use arma_partner_api_sandbox.LawShield.Reconciliation.{
  Directory, seed_synthetic_identities, Store, get_reconciliation, reconciliation_reopen_approval,
  Reconciliation, Discrepancy,
}
use arma_partner_api_sandbox.LawShield.Reconciliation.Resolved.{
  Op, to_open, to_resolve, run, IsSettled, may_resend-IsSettled,
}

abbrev directory : Directory
directory = seed_synthetic_identities []

abbrev store : Store
store = record {
  org_mappings = [];
  case_mappings = [];
  transfer_orgs = ("T1", "org-arma-1") ∷ [];
  reconciliations = [];
}

abbrev timed_out : Discrepancy
timed_out = record {
  transfer_id = "T1";
  expected_payload_hash = some "ab";
  expected_destination = "ls-org-1";
  current_arma_state = "SENT";
  discrepancy_code = some "PROCESSOR_TIMEOUT";
  reported_law_shield_state = none;
}

abbrev by_user : String → Op
by_user user_id =
    to_resolve (some user_id)
      (record { transfer_id = "T1"; note = some " upstream never accepted "; status = none }) 20

-- The engine and the officer are refused, and so is another organization's commander.
abbrev attempts : List Op
attempts =
    to_open timed_out 10
    ∷ by_user "ai-engine-joy"
    ∷ by_user "user-officer-1"
    ∷ by_user "user-commander-2"
    ∷ []

still_open :
    reconciliation_reopen_approval (run directory attempts store) "T1"
    ≡ (false, "RECONCILIATION_STILL_OPEN")
unfolding run reconciliation_reopen_approval arma_partner_api_sandbox.Prelude.Map.get
    arma_partner_api_sandbox.LawShield.Reconciliation.resolve_reconciliation
    seed_synthetic_identities arma_partner_api_sandbox.Prelude.Map.set
    arma_partner_api_sandbox.Prelude.contains
    arma_partner_api_sandbox.LawShield.Reconciliation.open_reconciliation
still_open = refl

abbrev resolved_ops : List Op
resolved_ops = to_open timed_out 10 ∷ by_user "ai-engine-joy" ∷ by_user "user-commander-1" ∷ []

approved :
    reconciliation_reopen_approval (run directory resolved_ops store) "T1"
    ≡ (true, "HUMAN_CONFIRMED_UPSTREAM_NOT_ACCEPTED")
unfolding run reconciliation_reopen_approval arma_partner_api_sandbox.Prelude.Map.get
    arma_partner_api_sandbox.LawShield.Reconciliation.resolve_reconciliation
    seed_synthetic_identities arma_partner_api_sandbox.Prelude.Map.set
    arma_partner_api_sandbox.Prelude.contains
    arma_partner_api_sandbox.LawShield.Reconciliation.open_reconciliation
    arma_partner_api_sandbox.Prelude.Json.utf16_length arma_partner_api_sandbox.Prelude.is_space
approved = refl

may_resend-IsSettled_example :
    (r : Reconciliation) × (get_reconciliation (run directory resolved_ops store) "T1" ≡ some r)
    × IsSettled directory (run directory resolved_ops store).transfer_orgs "T1" r
may_resend-IsSettled_example =
    may_resend-IsSettled directory resolved_ops store "T1" "HUMAN_CONFIRMED_UPSTREAM_NOT_ACCEPTED"
      refl approved
