-- ===== src/Governance/HumanReview.antt =====
-- The human reviews of ai-governance/humanReview.ts.
pub mod Laws
use arma_partner_api_sandbox.Prelude.{
  is_blank, ℕ, String, Bool, true, false, not, ◌&&◌, Option, none, some, List, [], ◌∷◌, ◌==◌,
  Result, ok, err, guard, ◌>>=◌, ◌>>◌, if◌then◌else◌, is_sha256_hex, contains,
}
use arma_partner_api_sandbox.Prelude.Json.{Json, bool, str, Fields, end, field}
use arma_partner_api_sandbox.Governance.Classification.{is_id}
use arma_partner_api_sandbox.Governance.Audit.{GovernanceAuditRecord, RecordAuditEntry}
use arma_partner_api_sandbox.Governance.Deterministic.{is_constant}
use arma_partner_api_sandbox.Governance.Store.{
  GovernanceStore, HumanReviewRecord, Governed, store_audit, next_review_id, put_review, get_review,
}

pub data ReviewerActorType : Type 0 where
  human ai system : ReviewerActorType

abbrev pub is_human : ReviewerActorType → Bool
is_human human = true
is_human _ = false

pub record HumanReviewer : Type 0 where
  pub reviewer_id : String
  pub actor_type : ReviewerActorType
  pub org_id : String
  pub authenticated : Bool
  pub authorized_actions : List String

-- Who may review what: the guards, in their order.
unfoldable pub check_reviewer : HumanReviewer → String → String → String → Result (Unit {0})
check_reviewer reviewer action org_id output_hash = do
  guard (is_human reviewer.actor_type) "REVIEWER_MUST_BE_HUMAN"
  guard reviewer.authenticated "REVIEWER_NOT_AUTHENTICATED"
  guard (not (is_blank org_id) && reviewer.org_id == org_id) "REVIEWER_ORG_MISMATCH"
  guard (is_constant action) "REVIEW_ACTION_INVALID"
  guard (is_id 2 63 reviewer.reviewer_id) "REVIEWER_INVALID"
  guard (is_sha256_hex output_hash) "REVIEW_OUTPUT_HASH_INVALID"
  guard (contains reviewer.authorized_actions action) "REVIEWER_NOT_AUTHORIZED_FOR_ACTION"

-- What the function returns; a throw of the store is an `err` around it.
pub data RecordReviewOutcome : Type 0 where
  recorded : HumanReviewRecord → RecordReviewOutcome
  refused : String → RecordReviewOutcome

review_entry : HumanReviewer → String → String → String → String → RecordAuditEntry
review_entry reviewer review_id action org_id output_hash = record {
  kind = "governance.human_review.recorded";
  subject_id = reviewer.reviewer_id;
  reason_code = "HUMAN_REVIEW_RECORDED";
  details = field "reviewId" (str review_id) (
      field "action" (str action) (
        field "outputHash" (str output_hash) (
          field "orgId" (str org_id)
            (field "actorType" (str "HUMAN") (field "authenticated" (bool true) end)))));
  org_ref = some org_id;
}

unfoldable pub review_of :
    HumanReviewer → String → String → String → String → ℕ → String → HumanReviewRecord
review_of reviewer review_id action org_id output_hash now audit_id = record {
  review_id = review_id;
  reviewer_id = reviewer.reviewer_id;
  org_id = org_id;
  action = action;
  output_hash = output_hash;
  at = now;
  audit_id = audit_id;
}

unfoldable pub stored :
    HumanReviewRecord
    → Result (Unit {0}) × GovernanceStore
    → Result RecordReviewOutcome × GovernanceStore
stored review (ok _, s) = (ok (recorded review), s)
stored review (err e, s) = (err e, s)

after_audit :
    HumanReviewer
    → String
    → String
    → String
    → String
    → ℕ
    → Result GovernanceAuditRecord × GovernanceStore
    → Result RecordReviewOutcome × GovernanceStore
unfolding review_of stored
after_audit reviewer id action org_id output_hash now (err e, s) = (err e, s)
after_audit reviewer id action org_id output_hash now (ok audit, s) =
    let review = review_of reviewer id action org_id output_hash now audit.audit_id in
    stored review (put_review review s)

after_checks :
    HumanReviewer → String → String → String → Result (Unit {0}) → Governed RecordReviewOutcome
unfolding next_review_id review_entry after_audit
after_checks reviewer action org_id output_hash (err code) now s = (ok (refused code), s)
after_checks reviewer action org_id output_hash (ok _) now s =
    let (id, s') = next_review_id s in
    after_audit reviewer id action org_id output_hash now
      (store_audit (review_entry reviewer id action org_id output_hash) now s')

unfoldable pub record_human_review :
    HumanReviewer → String → String → String → Governed RecordReviewOutcome
unfolding after_checks
record_human_review reviewer action org_id output_hash now s =
    after_checks reviewer action org_id output_hash
      (check_reviewer reviewer action org_id output_hash) now s

-- The reason code of a refusal is the message of `err`.
unfoldable pub check_review :
    Option HumanReviewRecord
    → (action org_id output_hash : String) → Option String
    → Result HumanReviewRecord
check_review none action org_id output_hash actor = err "REVIEW_NOT_FOUND"
check_review (some review) action org_id output_hash actor = do
  guard (review.action == action) "REVIEW_ACTION_MISMATCH"
  guard (review.org_id == org_id) "REVIEW_ORG_MISMATCH"
  guard (review.output_hash == output_hash) "REVIEW_OUTPUT_HASH_MISMATCH"
  guard (elim actor [ some id ↦ review.reviewer_id == id | none ↦ true ]) "REVIEWER_ACTOR_MISMATCH"
  ok review

unfoldable pub verify_human_review :
    GovernanceStore
    → (review_id action org_id output_hash : String) → Option String
    → Result HumanReviewRecord
unfolding check_review
verify_human_review s review_id action org_id output_hash actor =
    if is_blank review_id
    then err "REVIEW_NOT_FOUND"
    else check_review (get_review review_id s) action org_id output_hash actor
