-- ===== src/Governance/Protected/Laws.antt =====
-- When `evaluateProtectedAction` of ai-governance/protectedActions.ts allows an action.
use arma_partner_api_sandbox.Prelude.{
  is_blank, String, Bool, true, false, not, ◌||◌, Option, none, some, is_some, ◌==◌, Result, ok,
  err, is_sha256_hex, contains, ◌≡◌, ◌≢◌, ◌⊎◌, inl, inr, refl, ap, ◌∙◌, eq_iff, Bool-cases, guard,
  ◌>>◌ as ◌>>>◌,
}
use mathlib.Core.Path.{subst}
use arma_partner_api_sandbox.Prelude.Json.{Items, Fields}
use arma_partner_api_sandbox.Governance.Store.{GovernanceStore, HumanReviewRecord, get_review}
use arma_partner_api_sandbox.Governance.Provenance.{text_of, verify_provenance_envelope}
use arma_partner_api_sandbox.Governance.Deterministic.{
  ruling_of, verify_deterministic_result_envelope,
}
use arma_partner_api_sandbox.Governance.HumanReview.{verify_human_review, check_review}
use arma_partner_api_sandbox.Governance.Protected.{
  active_policy_version, ProtectedActionPolicy, get_protected_action_policy, ProtectedActionRequest,
  actor_of, org_of, Grant, Judgement, granted, denied, ◌>>=◌, ◌>>◌, require, present, sound,
}
use arma_partner_api_sandbox.Governance.Protected.Judge.{
  review_id_of, judge_engine, governed_hash, judge_human, judge_actor, judge,
}

require-granted :
    {A : Type 0} (b : Bool) (code : String) (d : Fields) (k : Judgement A) (a : A)
    → (require b code d >> k) ≡ granted a
    → (b ≡ true) × (k ≡ granted a)
require-granted true code d k a h = (refl, h)
require-granted false code d k a h = absurd (cc h)

present-granted :
    {A B : Type 0} (o : Option A) (code : String) (d : Fields) (k : A → Judgement B) (b : B)
    → (present o code d >>= k) ≡ granted b
    → (a : A) × (o ≡ some a) × (k a ≡ granted b)
present-granted (some a) code d k b h = (a, refl, h)
present-granted none code d k b h = absurd (cc h)

then-granted :
    {A B : Type 0} (m : Judgement A) (k : A → Judgement B) (b : B)
    → (m >>= k) ≡ granted b
    → (a : A) × (m ≡ granted a) × (k a ≡ granted b)
then-granted (granted a) k b h = (a, refl, h)
then-granted (denied code d r) k b h = absurd (cc h)

text_in : Judgement String → String
text_in (granted a) = a
text_in (denied code d r) = ""

sound-granted :
    {A B : Type 0} (r : Result A) (d : String → Fields) (code : String) (k : A → Judgement B)
    (b : B)
    → (sound r d code >>= k) ≡ granted b
    → (a : A) × (r ≡ ok a) × (k a ≡ granted b)
sound-granted (ok a) d code k b h = (a, refl, h)
sound-granted (err e) d code k b h = absurd (cc h)

-- The review that a granted request names: of this action, organization and output, by this actor.
pub record IsReviewed (s : GovernanceStore) (q : ProtectedActionRequest) (action hash : String)
    : Type 0 where
  pub review : HumanReviewRecord
  pub is_stored : get_review (review_id_of q) s ≡ some review
  pub of_action : review.action ≡ action
  pub of_org : review.org_id ≡ org_of q
  pub of_output : review.output_hash ≡ hash
  pub by_actor : review.reviewer_id ≡ actor_of q

ok-guard :
    {A : Type 0} (b : Bool) (e : String) (k : Result A) (a : A)
    → (guard b e >>> k) ≡ ok a
    → (b ≡ true) × (k ≡ ok a)
ok-guard true e k a h = (refl, h)
ok-guard false e k a h = absurd (cc h)

check_review-IsReviewed :
    (s : GovernanceStore) (q : ProtectedActionRequest) (action hash : String)
    (o : Option HumanReviewRecord) (r : HumanReviewRecord)
    → get_review (review_id_of q) s ≡ o
    → check_review o action (org_of q) hash (some (actor_of q)) ≡ ok r
    → IsReviewed s q action hash
unfolding check_review
check_review-IsReviewed s q action hash none r found h = absurd (cc h)
check_review-IsReviewed s q action hash (some v) r found h =
    let a = ok-guard (v.action == action) _ _ r h in
    let b = ok-guard (v.org_id == org_of q) _ _ r a.1 in
    let c = ok-guard (v.output_hash == hash) _ _ r b.1 in
    let d = ok-guard (v.reviewer_id == actor_of q) _ _ r c.1 in
    record {
      review = v;
      is_stored = found;
      of_action = (eq_iff v.action action).0 a.0;
      of_org = (eq_iff v.org_id (org_of q)).0 b.0;
      of_output = (eq_iff v.output_hash hash).0 c.0;
      by_actor = (eq_iff v.reviewer_id (actor_of q)).0 d.0;
    }

verify_human_review-IsReviewed :
    (s : GovernanceStore) (q : ProtectedActionRequest) (action hash : String)
    (r : HumanReviewRecord)
    → is_blank (review_id_of q) ≡ false
    → verify_human_review s (review_id_of q) action (org_of q) hash (some (actor_of q)) ≡ ok r
    → IsReviewed s q action hash
unfolding verify_human_review
verify_human_review-IsReviewed s q action hash r b h =
    check_review-IsReviewed s q action hash (get_review (review_id_of q) s) r refl (rw b at h)

not-true : (b : Bool) → not b ≡ true → b ≡ false
not-true true h = absurd (cc h)
not-true false h = refl

module _ (sign : Items → String → String) (sha256 : String → String) where
  -- No envelope of the rule engine allows anything.
  judge_engine_denies :
      (s : GovernanceStore) (q : ProtectedActionRequest) (p : ProtectedActionPolicy) (g : Grant)
      → judge_engine sign sha256 s q p ≢ granted g
  unfolding judge_engine
  judge_engine_denies s q p g h =
      let a = require-granted p.deterministic_allowed _ _ _ g h in
      let b = present-granted q.deterministic_provenance _ _ _ g a.1 in
      let c =
        sound-granted (verify_deterministic_result_envelope sign s b.0 active_policy_version) _ _ _
          g b.2 in
      let d =
        require-granted (contains p.allowed_deterministic_decisions (ruling_of b.0)) _ _ _ g c.2 in
      absurd (cc d.1)

  -- The output is the one that verified advisory provenance is of, or, without any, the
  -- request's own.
  pub HasOutput : GovernanceStore → ProtectedActionRequest → String → Type 0
  HasOutput s q hash =
      ((e : Fields) × (q.ai_provenance ≡ some e)
        × (verify_provenance_envelope sign sha256 s e active_policy_version none ≡ ok tt)
        × (text_of "outputHash" e ≡ hash))
      ⊎ ((q.ai_provenance ≡ none)
          × (q.ai_assisted ≡ false)
          × (q.output_hash ≡ some hash)
          × (is_sha256_hex hash ≡ true))

  governed_hash-HasOutput :
      (s : GovernanceStore) (q : ProtectedActionRequest) (o : Option Fields) (hash : String)
      → q.ai_provenance ≡ o
      → is_some o || not q.ai_assisted ≡ true
      → governed_hash sign sha256 s q o ≡ granted hash
      → HasOutput s q hash
  unfolding governed_hash HasOutput text_in
  governed_hash-HasOutput s q (some e) hash found linked h =
      let a =
        sound-granted (verify_provenance_envelope sign sha256 s e active_policy_version none) _ _ _
          hash h in
      let b = require-granted (text_of "designation" e == "AI_ADVISORY") _ _ _ hash a.2 in
      inl (e, found, a.1, ap text_in b.1)
  governed_hash-HasOutput s q none hash found linked h =
      let a = present-granted q.output_hash _ _ _ hash h in
      let b = require-granted (is_sha256_hex a.0) _ _ _ hash a.2 in
      let same : a.0 ≡ hash = ap text_in b.1 in
      inr (
        found,
        not-true q.ai_assisted linked,
        a.1 ∙ ap some same,
        subst (λ x. is_sha256_hex x ≡ true) same b.0,
      )

  -- Everything an allowed request rests on.
  pub record IsAuthorized (s : GovernanceStore) (q : ProtectedActionRequest)
      (p : ProtectedActionPolicy) : Type 0 where
    pub output : String
    pub of_policy : get_protected_action_policy q.action ≡ some p
    pub of_version : q.policy_version ≡ active_policy_version
    pub by_human : q.actor_class ≡ "HUMAN_OPERATOR"
    pub is_open : contains p.allowed_actor_classes "HUMAN_OPERATOR" ≡ true
    pub has_output : HasOutput s q output
    pub is_reviewed : IsReviewed s q p.action output

  judge_human-granted :
      (s : GovernanceStore) (q : ProtectedActionRequest) (p : ProtectedActionPolicy) (g : Grant)
      → judge_human sign sha256 s q p ≡ granted g
      → (contains p.allowed_actor_classes "HUMAN_OPERATOR" ≡ true)
        × ((hash : String) × HasOutput s q hash × IsReviewed s q p.action hash)
  unfolding judge_human
  judge_human-granted s q p g h =
      let a = require-granted (contains p.allowed_actor_classes "HUMAN_OPERATOR") _ _ _ g h in
      let b = require-granted (not (is_blank (review_id_of q))) _ _ _ g a.1 in
      let c = require-granted (is_some q.ai_provenance || not q.ai_assisted) _ _ _ g b.1 in
      let d = then-granted (governed_hash sign sha256 s q q.ai_provenance) _ g c.1 in
      let e =
        sound-granted
          (verify_human_review s (review_id_of q) p.action (org_of q) d.0 (some (actor_of q))) _ _ _
          g d.2 in
      (
        a.0,
        (
          d.0,
          governed_hash-HasOutput s q q.ai_provenance d.0 refl c.0 d.1,
          verify_human_review-IsReviewed s q p.action d.0 e.0 (not-true _ b.0) e.1,
        ),
      )

  judge_actor-granted :
      (s : GovernanceStore) (q : ProtectedActionRequest) (p : ProtectedActionPolicy) (g : Grant)
      → judge_actor sign sha256 s q p ≡ granted g
      → (q.actor_class ≡ "HUMAN_OPERATOR") × (judge_human sign sha256 s q p ≡ granted g)
  unfolding judge_actor
  judge_actor-granted s q p g h = elim (Bool-cases (q.actor_class == "AI")) [
    | inl x ↦ absurd (cc (rw x at h))
    | inr x ↦ elim (Bool-cases (q.actor_class == "SYSTEM_AUTOMATION")) [
      | inl y ↦ absurd (cc (rw (x, y) at h))
      | inr y ↦ elim (Bool-cases (q.actor_class == "DETERMINISTIC_RULE_ENGINE")) [
        | inl z ↦ absurd (judge_engine_denies s q p g (rw (x, y, z) at h))
        | inr z ↦ elim (Bool-cases (q.actor_class == "HUMAN_OPERATOR")) [
          | inl w ↦ ((eq_iff q.actor_class "HUMAN_OPERATOR").0 w, rw (x, y, z, w) at h)
          | inr w ↦ absurd (cc (rw (x, y, z, w) at h))
        ]
      ]
    ]
  ]

  -- A request is granted only to a human operator, under the active policy version, for an action
  -- whose policy is open to human operators, on a stored review of the same action, organization
  -- and output that the actor made, where the output is that of verified advisory provenance
  -- when the request presents any, and the request's own otherwise, which is then not AI-assisted.
  pub judge-IsAuthorized :
      (s : GovernanceStore) (q : ProtectedActionRequest) (g : Grant)
      → judge sign sha256 s q ≡ granted g
      → (p : ProtectedActionPolicy) × IsAuthorized s q p
  unfolding judge
  judge-IsAuthorized s q g h =
      let a = present-granted (get_protected_action_policy q.action) _ _ _ g h in
      let b = require-granted (q.policy_version == active_policy_version) _ _ _ g a.2 in
      let c = judge_actor-granted s q a.0 g b.1 in
      let d = judge_human-granted s q a.0 g c.1 in
      (
        a.0,
        record {
          output = d.1.0;
          of_policy = a.1;
          of_version = (eq_iff q.policy_version active_policy_version).0 b.0;
          by_human = c.0;
          is_open = d.0;
          has_output = d.1.1;
          is_reviewed = d.1.2;
        },
      )
