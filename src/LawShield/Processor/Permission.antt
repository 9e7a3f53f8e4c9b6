-- ===== src/LawShield/Processor/Permission.antt =====
-- What the processor of law-shield/lawshield/durable/processor.js has checked when it accepts.
use arma_partner_api_sandbox.Prelude.{String, true, Option, none, some, List, ◌≡◌, Result}
use arma_partner_api_sandbox.LawShield.Store.{
  Store, Decision, accepted, rejected, quarantined, Binding, Receipt, NonceRecord, OrgMapping,
  CaseMapping, Authorizer,
}
use arma_partner_api_sandbox.LawShield.Store.Directory.{
  get_org_mapping, get_case_mapping, get_authorizer,
}
use arma_partner_api_sandbox.LawShield.Store.Transactions.Effects.{
  any_HasEnded, caught-HasEnded, continue-HasEnded,
}
use arma_partner_api_sandbox.LawShield.Envelope.{Platform, Envelope, truthy, is_text}
use arma_partner_api_sandbox.LawShield.Disclosure.{admit, enforce_disclosure_policy}
use arma_partner_api_sandbox.LawShield.Processor.{Request, accepted_kind, Outcome, kind_in}
use arma_partner_api_sandbox.LawShield.Processor.Writes.{refused_as, answer}
use arma_partner_api_sandbox.LawShield.Processor.Decide.{
  persistence_failure, quarantine_integrity_conflict, reject_transfer, refused_kind,
  duplicate_receipt, duplicate_error, duplicate_by, refuse_replay,
}

-- the answer does not accept
abbrev pub IsNoAcceptance : Result Outcome × Store → Type 0
IsNoAcceptance x = kind_in x.0 ≡ some accepted_kind → ⊥

persistence_failure-IsNoAcceptance :
    (q : Request) (e : Envelope) (raw : String) (s : Store)
    → IsNoAcceptance (persistence_failure q e raw s)
unfolding persistence_failure answer kind_in
persistence_failure-IsNoAcceptance q e raw s =
    caught-HasEnded (λ _ _. Unit {0}) IsNoAcceptance s _ _ _ (any_HasEnded _ s)
      (λ _ s2 m _ h. absurd (cc (h))) (λ _ f m h. absurd (cc (h)))

pub quarantine-IsNoAcceptance :
    (q : Request) (e : Envelope) (code : String) (existing : Option String) (s : Store)
    → IsNoAcceptance (quarantine_integrity_conflict q e code existing s)
unfolding quarantine_integrity_conflict answer kind_in
quarantine-IsNoAcceptance q e code existing s =
    caught-HasEnded (λ _ _. Unit {0}) IsNoAcceptance s _ _ _ (any_HasEnded _ s)
      (λ _ s2 m _ h. absurd (cc (h))) (λ raw f m. persistence_failure-IsNoAcceptance q e raw _)

refused_kind-ne : (d : Decision) → some (refused_kind d) ≡ some accepted_kind → ⊥
unfolding refused_kind
refused_kind-ne accepted h = absurd (cc (h))
refused_kind-ne rejected h = absurd (cc (h))
refused_kind-ne quarantined h = absurd (cc (h))

pub reject_transfer-IsNoAcceptance :
    (q : Request) (e : Envelope) (code : String) (paths : Option (List String)) (s : Store)
    → IsNoAcceptance (reject_transfer q e code paths s)
unfolding reject_transfer answer kind_in
reject_transfer-IsNoAcceptance q e code paths s =
    caught-HasEnded (λ _ _. Unit {0}) IsNoAcceptance s _ _ _ (any_HasEnded _ s)
      (λ _ s2 m _. refused_kind-ne (refused_as code))
      (λ raw f m. persistence_failure-IsNoAcceptance q e raw _)

duplicate_receipt-IsNoAcceptance :
    (q : Request) (e : Envelope) (b : Binding) (o : Option Receipt) (s : Store)
    → IsNoAcceptance (duplicate_receipt q e b o s)
unfolding duplicate_receipt answer kind_in
duplicate_receipt-IsNoAcceptance q e b none s = quarantine-IsNoAcceptance q e _ _ s
duplicate_receipt-IsNoAcceptance q e b (some r) s =
    continue-HasEnded (λ _ _. Unit {0}) IsNoAcceptance s _ _ (any_HasEnded _ s)
      (λ _ s2 m _ h. absurd (cc (h))) (λ code f m h. absurd (cc (h)))

duplicate_error-IsNoAcceptance :
    (q : Request) (e : Envelope) (b : Binding) (s : Store)
    → IsNoAcceptance (duplicate_error q e b s)
unfolding duplicate_error answer kind_in
duplicate_error-IsNoAcceptance q e b s =
    continue-HasEnded (λ _ _. Unit {0}) IsNoAcceptance s _ _ (any_HasEnded _ s)
      (λ _ s2 m _ h. absurd (cc (h))) (λ code f m h. absurd (cc (h)))

pub duplicate_by-IsNoAcceptance :
    (q : Request) (e : Envelope) (b : Binding) (d : Decision) (s : Store)
    → IsNoAcceptance (duplicate_by q e b d s)
unfolding duplicate_by
duplicate_by-IsNoAcceptance q e b accepted s = duplicate_receipt-IsNoAcceptance q e b _ s
duplicate_by-IsNoAcceptance q e b rejected s = duplicate_error-IsNoAcceptance q e b s
duplicate_by-IsNoAcceptance q e b quarantined s = duplicate_error-IsNoAcceptance q e b s

pub refuse_replay-IsNoAcceptance :
    (q : Request) (e : Envelope) (r : NonceRecord) (s : Store)
    → IsNoAcceptance (refuse_replay q e r s)
unfolding refuse_replay answer kind_in
refuse_replay-IsNoAcceptance q e r s =
    continue-HasEnded (λ _ _. Unit {0}) IsNoAcceptance s _ _ (any_HasEnded _ s)
      (λ _ s2 m _ h. absurd (cc (h))) (λ code f m h. absurd (cc (h)))

-- The authorizer is known, active and of the sender's organization; the organization is mapped,
-- actively, to the receiver's; an incident has an active case mapping to the receiver's organization
-- and to the case that the envelope names, if it names one; and the payload obeys the disclosure policy.
pub record IsPermitted (p : Platform) (s : Store) (e : Envelope) : Type 0 where
  pub authorizer : Authorizer
  pub authorizer_known : get_authorizer s e.authorized_by ≡ some authorizer
  pub authorizer_active : authorizer.is_active ≡ true
  pub authorizer_org : authorizer.arma_org_id ≡ e.arma_org_id
  pub mapping : OrgMapping
  pub mapping_known : get_org_mapping s e.arma_org_id ≡ some mapping
  pub mapping_active : mapping.is_active ≡ true
  pub mapping_org : mapping.law_shield_org_id ≡ e.law_shield_org_id
  pub incident :
      truthy e.incident_id ≡ true
      → (m : CaseMapping) × (get_case_mapping s e.arma_org_id (p.to_text e.incident_id) ≡ some m)
        × (m.is_active ≡ true)
        × (m.law_shield_org_id ≡ e.law_shield_org_id)
        × (truthy e.law_shield_case_id ≡ true
            → is_text e.law_shield_case_id m.law_shield_case_id ≡ true)
  pub fields : List String
  pub disclosure : enforce_disclosure_policy e.record_type e.payload ≡ admit fields
