-- ===== src/Governance/Protected/Judge.antt =====
-- `evaluateProtectedAction` of ai-governance/protectedActions.ts: the checks, then the decision.
use arma_partner_api_sandbox.Prelude.{
  is_blank, String, Bool, true, false, not, ◌||◌, Option, none, some, is_some, [], ◌∷◌, ◌==◌,
  Result, ok, err, if◌then◌else◌, is_sha256_hex, contains,
}
use arma_partner_api_sandbox.Prelude.Json.{str, Items, Fields, end, field}
use arma_partner_api_sandbox.Governance.Audit.{GovernanceAuditRecord, RecordAuditEntry}
use arma_partner_api_sandbox.Governance.Store.{GovernanceStore, Governed, store_audit}
use arma_partner_api_sandbox.Governance.Provenance.{text_of, verify_provenance_envelope}
use arma_partner_api_sandbox.Governance.Deterministic.{
  ruling_of, verify_deterministic_result_envelope,
}
use arma_partner_api_sandbox.Governance.HumanReview.{verify_human_review}
use arma_partner_api_sandbox.Governance.Protected.{
  active_policy_version, ProtectedActionPolicy, get_protected_action_policy, safe_string,
  safe_option, ProtectedActionRequest, actor_of, org_of, Grant, Judgement, granted, denied, ◌>>=◌,
  ◌>>◌, require, present, sound,
}

-- the review as it was named, or the empty text
abbrev pub review_id_of : ProtectedActionRequest → String
review_id_of q = elim q.review_id [ some id ↦ id | none ↦ "" ]

module _ (sign : Items → String → String) (sha256 : String → String) where
  -- 6) the deterministic rule engine: always a denial
  unfoldable pub judge_engine :
      GovernanceStore → ProtectedActionRequest → ProtectedActionPolicy → Judgement Grant
  unfolding ruling_of text_of
  judge_engine s q policy = do
    require policy.deterministic_allowed "DETERMINISTIC_AUTOMATION_DENIED"
        (field "actionKind" (str policy.action) end)
    envelope ← present q.deterministic_provenance "DETERMINISTIC_DECISION_MISSING" end
    sound (verify_deterministic_result_envelope sign s envelope active_policy_version)
        (λ reason.
          field "resultRef" (str (safe_string (text_of "resultId" envelope) "UNKNOWN_RESULT"))
            (field "reasonCode" (str reason) end))
        "DETERMINISTIC_PROVENANCE_INVALID"
    require (contains policy.allowed_deterministic_decisions (ruling_of envelope))
        "DETERMINISTIC_DECISION_DENIED" (field "ruling" (str (ruling_of envelope)) end)
    denied "DETERMINISTIC_AUTO_BLOCKED"
        (field "ruling" (str (ruling_of envelope)) (
          field "resultRef" (str (text_of "resultId" envelope))
            (field "deterministicRuling" (str (ruling_of envelope)) end)))
        (some (ruling_of envelope))

  -- the hash of the governed output that the review has to be of
  unfoldable pub governed_hash :
      GovernanceStore → ProtectedActionRequest → Option Fields → Judgement String
  unfolding text_of
  governed_hash s q (some envelope) = do
    sound (verify_provenance_envelope sign sha256 s envelope active_policy_version none)
        (λ reason.
          field "provenanceRef"
            (str (safe_string (text_of "provenanceId" envelope) "UNKNOWN_PROVENANCE"))
            (field "reasonCode" (str reason) end))
        "AI_PROVENANCE_INVALID"
    require (text_of "designation" envelope == "AI_ADVISORY") "AI_PROVENANCE_INVALID" (
        field "provenanceRef"
          (str (safe_string (text_of "provenanceId" envelope) "UNKNOWN_PROVENANCE"))
          (field "reasonCode" (str "DESIGNATION_NOT_ADVISORY") end))
    granted (text_of "outputHash" envelope)
  governed_hash s q none = do
    hash ← present q.output_hash "HUMAN_REVIEW_INVALID" (
        field "reviewRef" (str (review_id_of q))
          (field "reasonCode" (str "REVIEW_OUTPUT_HASH_ABSENT") end))
    require (is_sha256_hex hash) "HUMAN_REVIEW_INVALID" (
        field "reviewRef" (str (review_id_of q))
          (field "reasonCode" (str "REVIEW_OUTPUT_HASH_ABSENT") end))
    granted hash

  -- 7) the human operator
  unfoldable pub judge_human :
      GovernanceStore → ProtectedActionRequest → ProtectedActionPolicy → Judgement Grant
  unfolding governed_hash text_of
  judge_human s q policy = do
    require (contains policy.allowed_actor_classes "HUMAN_OPERATOR") "ACTOR_CLASS_NOT_ALLOWED"
        (field "actionKind" (str policy.action) end)
    require (not (is_blank (review_id_of q))) "HUMAN_REVIEW_REQUIRED" end
    require (is_some q.ai_provenance || not q.ai_assisted) "AI_PROVENANCE_MISSING"
        (field "reviewRef" (str (review_id_of q)) end)
    hash ← governed_hash s q q.ai_provenance
    review ←
        sound
          (verify_human_review s (review_id_of q) policy.action (org_of q) hash (some (actor_of q)))
          (λ reason. field "reviewRef" (str (review_id_of q)) (field "reasonCode" (str reason) end))
          "HUMAN_REVIEW_INVALID"
    granted (record {
      review_id = review_id_of q;
      reviewed_provenance_id = elim q.ai_provenance [
        | some envelope ↦ some (text_of "provenanceId" envelope)
        | none ↦ none
      ];
    })

  -- 3) to 7) by the class of the actor
  unfoldable pub judge_actor :
      GovernanceStore → ProtectedActionRequest → ProtectedActionPolicy → Judgement Grant
  unfolding judge_engine judge_human
  judge_actor s q policy =
      if q.actor_class == "AI"
      then denied "AI_ACTOR_DENIED" (field "reviewRef" (str (safe_option q.review_id "NONE")) end)
          none
      else if q.actor_class == "SYSTEM_AUTOMATION"
      then denied "SYSTEM_ACTOR_DENIED" end none
      else if q.actor_class == "DETERMINISTIC_RULE_ENGINE"
      then judge_engine s q policy
      else if q.actor_class == "HUMAN_OPERATOR"
      then judge_human s q policy
      else denied "ACTOR_CLASS_UNKNOWN"
          (field "actorClassLabel" (str (safe_string q.actor_class "NOT_A_STRING")) end) none

  unfoldable pub judge : GovernanceStore → ProtectedActionRequest → Judgement Grant
  unfolding judge_actor
  judge s q = do
    policy ←
        present (get_protected_action_policy q.action) "PROTECTED_ACTION_UNKNOWN"
          (field "presentedAction" (str (safe_string q.action "NOT_A_STRING")) end)
    require (q.policy_version == active_policy_version) "POLICY_VERSION_STALE" (
        field "presentedPolicyVersion" (str (safe_string q.policy_version "POLICY_VERSION_INVALID"))
          (field "requiredPolicyVersion" (str active_policy_version) end))
    judge_actor s q policy

-- The class that a decision shows.
abbrev pub class_of : ProtectedActionRequest → String
class_of q =
    if contains ("HUMAN_OPERATOR" ∷ "AI" ∷ "DETERMINISTIC_RULE_ENGINE" ∷ "SYSTEM_AUTOMATION" ∷ [])
      q.actor_class
    then q.actor_class
    else "UNKNOWN"

pub record ProtectedActionDecision : Type 0 where
  pub allowed : Bool
  pub action : String
  pub actor_class : String
  pub actor_id : String
  pub org_id : String
  pub reason_code : String
  pub audit_id : String
  pub reviewed_provenance_id : Option String
  pub review_id : Option String
  pub deterministic_ruling : Option String

-- the details of the audit record: those of every decision, then its own
unfoldable pub decision_details : ProtectedActionRequest → String → Fields → Fields
decision_details q outcome details = field "actorClass" (str (class_of q)) (
    field "actorId" (str (actor_of q))
      (field "orgId" (str (org_of q)) (field "outcome" (str outcome) details)))

unfoldable pub decision_entry : ProtectedActionRequest → String → String → Fields → RecordAuditEntry
unfolding decision_details
decision_entry q outcome reason_code details = record {
  kind = "governance.protected_action.decision";
  subject_id = safe_string q.action "UNKNOWN_ACTION";
  reason_code = reason_code;
  details = decision_details q outcome details;
  org_ref = if org_of q == "UNKNOWN_ORG" then none else some (org_of q);
}

abbrev grant_reason : Grant → String
grant_reason g = elim g.reviewed_provenance_id [
  | some id ↦ "HUMAN_AUTHORIZED_ON_ADVISORY"
  | none ↦ "HUMAN_AUTHORIZED"
]

abbrev grant_details : Grant → Fields
grant_details g =
    field "reviewRef" (str g.review_id)
      (elim g.reviewed_provenance_id [ some id ↦ field "provenanceRef" (str id) end | none ↦ end ])

unfoldable pub outcome_of : Judgement Grant → String
outcome_of (granted g) = "ALLOWED"
outcome_of (denied code details ruling) = "DENIED"

unfoldable pub reason_of : Judgement Grant → String
reason_of (granted g) = grant_reason g
reason_of (denied code details ruling) = code

unfoldable pub details_of : Judgement Grant → Fields
details_of (granted g) = grant_details g
details_of (denied code details ruling) = details

unfoldable pub decision_of :
    ProtectedActionRequest → Judgement Grant → String → ProtectedActionDecision
decision_of q (granted g) audit_id = record {
  allowed = true;
  action = safe_string q.action "UNKNOWN_ACTION";
  actor_class = class_of q;
  actor_id = actor_of q;
  org_id = org_of q;
  reason_code = grant_reason g;
  audit_id = audit_id;
  reviewed_provenance_id = g.reviewed_provenance_id;
  review_id = some g.review_id;
  deterministic_ruling = none;
}
decision_of q (denied code details ruling) audit_id = record {
  allowed = false;
  action = safe_string q.action "UNKNOWN_ACTION";
  actor_class = class_of q;
  actor_id = actor_of q;
  org_id = org_of q;
  reason_code = code;
  audit_id = audit_id;
  reviewed_provenance_id = none;
  review_id = none;
  deterministic_ruling = ruling;
}

-- A decision is returned with the id of its audit record, or the audit log throws.
unfoldable pub decided :
    ProtectedActionRequest
    → Judgement Grant
    → Result GovernanceAuditRecord × GovernanceStore
    → Result ProtectedActionDecision × GovernanceStore
unfolding decision_of
decided q j (ok audit, s) = (ok (decision_of q j audit.audit_id), s)
decided q j (err e, s) = (err e, s)

-- `decide`
unfoldable pub decide : ProtectedActionRequest → Judgement Grant → Governed ProtectedActionDecision
unfolding decided decision_entry outcome_of reason_of details_of
decide q j now s =
    decided q j (store_audit (decision_entry q (outcome_of j) (reason_of j) (details_of j)) now s)

unfoldable pub evaluate_protected_action :
    (Items → String → String)
    → (String → String)
    → ProtectedActionRequest
    → Governed ProtectedActionDecision
unfolding judge decide
evaluate_protected_action sign sha256 q now s = decide q (judge sign sha256 s q) now s
