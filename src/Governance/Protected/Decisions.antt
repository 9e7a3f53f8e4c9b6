-- ===== src/Governance/Protected/Decisions.antt =====
-- The decisions of ai-governance/protectedActions.ts and their audit records.
use arma_partner_api_sandbox.Prelude.{
  ℕ, ◌+◌, String, Bool, true, false, Result, ok, err, ◌≡◌, refl, ap, ◌∙◌, ◌⊎◌, inl, inr, [], ◌∷◌,
  ◌++◌, if◌then◌else◌,
}
use arma_partner_api_sandbox.Prelude.Json.{Items, str, get_field}
use arma_partner_api_sandbox.Governance.Audit.{
  GovernanceAuditRecord, RecordAuditEntry, check_entry, record_audit, record_for, appended,
}
use arma_partner_api_sandbox.Governance.Store.{GovernanceStore, store_audit}
use arma_partner_api_sandbox.Governance.Protected.{
  ProtectedActionPolicy, ProtectedActionRequest, Grant, Judgement, granted, denied,
}
use arma_partner_api_sandbox.Governance.Protected.Judge.{
  ProtectedActionDecision, judge, decide, decided, decision_of, decision_entry, outcome_of,
  reason_of, details_of, evaluate_protected_action,
}
use arma_partner_api_sandbox.Governance.Protected.Laws.{IsAuthorized, judge-IsAuthorized}

allowed_of : Result ProtectedActionDecision → Bool
allowed_of (ok d) = d.allowed
allowed_of (err e) = false

decided-granted :
    (q : ProtectedActionRequest) (j : Judgement Grant)
    (r : Result GovernanceAuditRecord × GovernanceStore)
    → allowed_of (decided q j r).0 ≡ true
    → (g : Grant) × (j ≡ granted g)
unfolding decided decision_of allowed_of
decided-granted q (granted g) r h = (g, refl)
decided-granted q (denied code details ruling) (ok audit, s) h = absurd (cc h)
decided-granted q (denied code details ruling) (err e, s) h = absurd (cc h)

store_audit-ok :
    (entry : RecordAuditEntry) (now : ℕ) (s : GovernanceStore) (r : Result (Unit {0}))
    → check_entry s.audit_log.secret_values entry ≡ r
    → ((e : String) × (store_audit entry now s ≡ (err e, s)))
      ⊎ (store_audit entry now s ≡ (
        ok (record_for entry now (s.audit_log.seq + 1)),
        record s { audit_log = appended entry now s.audit_log },
      ))
unfolding store_audit record_audit
store_audit-ok entry now s (ok u) h = inr (rw h refl)
store_audit-ok entry now s (err e) h = inl (e, rw h refl)

-- The record says what the decision does.
pub record IsRecordOf (d : ProtectedActionDecision) (r : GovernanceAuditRecord) : Type 0 where
  pub of_kind : r.kind ≡ "governance.protected_action.decision"
  pub same_id : d.audit_id ≡ r.audit_id
  pub same_reason : d.reason_code ≡ r.reason_code
  pub same_action : r.subject_id ≡ d.action
  pub same_class : get_field "actorClass" r.details ≡ str d.actor_class
  pub same_actor : get_field "actorId" r.details ≡ str d.actor_id
  pub same_org : get_field "orgId" r.details ≡ str d.org_id
  pub same_outcome : get_field "outcome" r.details ≡ str (if d.allowed then "ALLOWED" else "DENIED")

decision-IsRecordOf :
    (q : ProtectedActionRequest) (j : Judgement Grant) (now n : ℕ)
    → let r = record_for (decision_entry q (outcome_of j) (reason_of j) (details_of j)) now n in
      IsRecordOf (decision_of q j r.audit_id) r
unfolding decision_of decision_entry outcome_of reason_of details_of record_for get_field
decision-IsRecordOf q (granted g) now n = record {
  of_kind = refl;
  same_id = refl;
  same_reason = refl;
  same_action = refl;
  same_class = refl;
  same_actor = refl;
  same_org = refl;
  same_outcome = refl;
}
decision-IsRecordOf q (denied code details ruling) now n = record {
  of_kind = refl;
  same_id = refl;
  same_reason = refl;
  same_action = refl;
  same_class = refl;
  same_actor = refl;
  same_org = refl;
  same_outcome = refl;
}

module _ (sign : Items → String → String) (sha256 : String → String) where
  -- An action is allowed only to a request that is authorized.
  pub evaluate-IsAuthorized :
      (q : ProtectedActionRequest) (now : ℕ) (s : GovernanceStore) (d : ProtectedActionDecision)
      → (evaluate_protected_action sign sha256 q now s).0 ≡ ok d
      → d.allowed ≡ true
      → (p : ProtectedActionPolicy) × IsAuthorized sign sha256 s q p
  unfolding evaluate_protected_action decide allowed_of
  evaluate-IsAuthorized q now s d h a =
      let g = decided-granted q (judge sign sha256 s q) _ (ap allowed_of h ∙ a) in
      judge-IsAuthorized sign sha256 s q g.0 g.1

  -- Each evaluation either throws and leaves the store as it was, or returns a decision and appends
  -- one audit record, whose id and reason code the decision carries, which names the decision's
  -- action, actor class, actor and organization, and ALLOWED or DENIED as the decision is; nothing
  -- else of the store changes but the log's counter.
  pub evaluate_audited :
      (q : ProtectedActionRequest) (now : ℕ) (s : GovernanceStore)
      → ((e : String) × (evaluate_protected_action sign sha256 q now s ≡ (err e, s)))
        ⊎ ((d : ProtectedActionDecision) × (r : GovernanceAuditRecord) × (evaluate_protected_action
                sign sha256 q now s
              ≡ (
                ok d,
                record s {
                  audit_log = record s.audit_log {
                    records = s.audit_log.records ++ (r ∷ []);
                    seq = s.audit_log.seq + 1;
                  };
                },
              ))
            × IsRecordOf d r)
  unfolding evaluate_protected_action decide decided appended
  evaluate_audited q now s =
      let j = judge sign sha256 s q in
      let entry = decision_entry q (outcome_of j) (reason_of j) (details_of j) in
      elim (store_audit-ok entry now s _ refl) [
        | inl f ↦ inl (f.0, rw f.1 refl)
        | inr w ↦ inr (
          decision_of q j (record_for entry now (s.audit_log.seq + 1)).audit_id,
          record_for entry now (s.audit_log.seq + 1),
          rw w refl,
          decision-IsRecordOf q j now (s.audit_log.seq + 1),
        )
      ]
