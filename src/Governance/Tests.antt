-- ===== src/Governance/Tests.antt =====
-- The governance of ai-governance at concrete inputs.
use arma_partner_api_sandbox.Prelude.{
  ℕ, ◌+◌, String, Bool, true, false, Option, none, some, List, [], ◌∷◌, ◌≡◌, ◌⊎◌, refl, Result, ok,
  err,
}
use arma_partner_api_sandbox.Prelude.Json.{Items, Fields}
use arma_partner_api_sandbox.Governance.Audit.{
  GovernanceAuditRecord, AuditLog, record_for, appended,
}
use arma_partner_api_sandbox.Governance.Store.{GovernanceStore, HumanReviewRecord}
use arma_partner_api_sandbox.Governance.HumanReview.{
  human, HumanReviewer, recorded, record_human_review, verify_human_review,
}
use arma_partner_api_sandbox.Governance.HumanReview.Laws.{IsEligible, record_human_review-verify}
use arma_partner_api_sandbox.Governance.Protected.{ProtectedActionPolicy, ProtectedActionRequest}
use arma_partner_api_sandbox.Governance.Protected.Judge.{
  ProtectedActionDecision, evaluate_protected_action,
}
use arma_partner_api_sandbox.Governance.Protected.Laws.{IsAuthorized}
use arma_partner_api_sandbox.Governance.Protected.Decisions.{
  IsRecordOf, evaluate-IsAuthorized, evaluate_audited,
}

abbrev sign : Items → String → String
sign values key = key

abbrev sha256 : String → String
sha256 bytes = bytes

abbrev hash : String
hash = "aaaaaaaaaaaaaaaaaaaaaaaaaaaaaaaaaaaaaaaaaaaaaaaaaaaaaaaaaaaaaaaa"

abbrev review : HumanReviewRecord
review = record {
  review_id = "REV-000001";
  reviewer_id = "alice";
  org_id = "org";
  action = "ADMIN_GRANT";
  output_hash = hash;
  at = 7;
  audit_id = "AUD-000001";
}

abbrev empty_log : AuditLog
empty_log = record { secret_values = "integrity-key" ∷ []; records = []; seq = 0 }

abbrev store : GovernanceStore
store = record {
  policy_version = "ai-governance.policy.v1";
  integrity_key = "integrity-key";
  audit_log = empty_log;
  engines = [];
  provenance = [];
  deterministic = [];
  reviews = [];
  provenance_seq = 0;
  deterministic_seq = 0;
  review_seq = 0;
}

abbrev reviewed_store : GovernanceStore
reviewed_store = record store { reviews = ("REV-000001", review) ∷ []; review_seq = 1 }

abbrev reviewer : HumanReviewer
reviewer = record {
  reviewer_id = "alice";
  actor_type = human;
  org_id = "org";
  authenticated = true;
  authorized_actions = "ADMIN_GRANT" ∷ [];
}

record_human_review-verify_example :
    IsEligible reviewer "ADMIN_GRANT" "org" hash
    × (verify_human_review
          (record_human_review reviewer "ADMIN_GRANT" "org" hash 7 store).1
          "REV-000001"
          "ADMIN_GRANT"
          "org"
          hash
          (some "alice")
        ≡ ok review)
    × ((action' org_id' output_hash' id : String) (r' : HumanReviewRecord)
        → verify_human_review
            (record_human_review reviewer "ADMIN_GRANT" "org" hash 7 store).1
            "REV-000001"
            action'
            org_id'
            output_hash'
            (some id)
          ≡ ok r'
        → (action' ≡ "ADMIN_GRANT") × (org_id' ≡ "org") × (output_hash' ≡ hash) × (id ≡ "alice"))
unfolding record_human_review arma_partner_api_sandbox.Governance.HumanReview.check_reviewer
    arma_partner_api_sandbox.Prelude.is_blank
    arma_partner_api_sandbox.Governance.Deterministic.is_constant
    arma_partner_api_sandbox.Prelude.matches_head
    arma_partner_api_sandbox.Governance.Classification.is_id
    arma_partner_api_sandbox.Prelude.is_alnum arma_partner_api_sandbox.Prelude.is_id_char
    arma_partner_api_sandbox.Prelude.is_sha256_hex arma_partner_api_sandbox.Prelude.contains
    arma_partner_api_sandbox.Governance.Store.store_audit
    arma_partner_api_sandbox.Governance.Audit.record_audit
    arma_partner_api_sandbox.Governance.Audit.check_entry
    arma_partner_api_sandbox.Governance.Classification.same_codes
    arma_partner_api_sandbox.Governance.Classification.normalize_key
    arma_partner_api_sandbox.Governance.Audit.numbered
    arma_partner_api_sandbox.Prelude.Json.utf16_length arma_partner_api_sandbox.Prelude.decimal
    appended arma_partner_api_sandbox.Governance.Audit.forbidden_as record_for
    arma_partner_api_sandbox.Governance.HumanReview.review_of
    arma_partner_api_sandbox.Governance.HumanReview.stored
    arma_partner_api_sandbox.Governance.Store.next_review_id
    arma_partner_api_sandbox.Governance.Store.put_review arma_partner_api_sandbox.Prelude.Map.get
    arma_partner_api_sandbox.Prelude.Map.set arma_partner_api_sandbox.Prelude.is_hex
    arma_partner_api_sandbox.Prelude.is_token_char arma_partner_api_sandbox.Prelude.matches_class
record_human_review-verify_example =
    record_human_review-verify reviewer "ADMIN_GRANT" "org" hash 7 store review refl

abbrev grant_request : ProtectedActionRequest
grant_request = record {
  action = "ADMIN_GRANT";
  org_id = "org";
  actor_class = "HUMAN_OPERATOR";
  actor_id = "alice";
  policy_version = "ai-governance.policy.v1";
  review_id = some "REV-000001";
  output_hash = some hash;
  ai_assisted = false;
  ai_provenance = none;
  deterministic_provenance = none;
}

abbrev grant_decision : ProtectedActionDecision
grant_decision = record {
  allowed = true;
  action = "ADMIN_GRANT";
  actor_class = "HUMAN_OPERATOR";
  actor_id = "alice";
  org_id = "org";
  reason_code = "HUMAN_AUTHORIZED";
  audit_id = "AUD-000001";
  reviewed_provenance_id = none;
  review_id = some "REV-000001";
  deterministic_ruling = none;
}

evaluate-IsAuthorized_example :
    (p : ProtectedActionPolicy) × IsAuthorized sign sha256 reviewed_store grant_request p
unfolding evaluate_protected_action arma_partner_api_sandbox.Governance.Store.store_audit
    arma_partner_api_sandbox.Governance.Audit.record_audit
    arma_partner_api_sandbox.Governance.Audit.check_entry arma_partner_api_sandbox.Prelude.is_blank
    arma_partner_api_sandbox.Governance.Protected.get_protected_action_policy
    arma_partner_api_sandbox.Prelude.contains arma_partner_api_sandbox.Prelude.is_sha256_hex
    verify_human_review arma_partner_api_sandbox.Governance.Store.get_review
    arma_partner_api_sandbox.Prelude.Map.get
    arma_partner_api_sandbox.Governance.Classification.same_codes
    arma_partner_api_sandbox.Governance.Classification.normalize_key
    arma_partner_api_sandbox.Prelude.is_alnum record_for
    arma_partner_api_sandbox.Prelude.Json.utf16_length arma_partner_api_sandbox.Prelude.decimal
evaluate-IsAuthorized_example =
    evaluate-IsAuthorized sign sha256 grant_request 7 reviewed_store grant_decision refl refl

evaluate_audited_example :
    ((e : String) × (evaluate_protected_action sign sha256 grant_request 7 reviewed_store
        ≡ (err e, reviewed_store)))
    ⊎ ((d : ProtectedActionDecision) × (r : GovernanceAuditRecord) × (evaluate_protected_action sign
            sha256 grant_request 7 reviewed_store
          ≡ (
            ok d,
            record reviewed_store { audit_log = record empty_log { records = r ∷ []; seq = 1 } },
          ))
        × IsRecordOf d r)
evaluate_audited_example = evaluate_audited sign sha256 grant_request 7 reviewed_store
