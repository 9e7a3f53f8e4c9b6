-- ===== src/Governance/HumanReview/Laws.antt =====
-- What a recorded review of ai-governance/humanReview.ts says, and that it verifies.
use arma_partner_api_sandbox.Prelude.{
  is_blank, ℕ, ◌+◌, String, Bool, true, false, not, ◌&&◌, ◌==◌, Option, none, some, is_some, Result,
  ok, err, guard, ◌>>◌, ◌≡◌, refl, sym, ap, ◌∙◌, Bool-cases, inl, inr, eq_iff, eq_refl,
  is_sha256_hex, contains, ◌<+>◌,
}
use Prim.Native.Char.{Char}
use mathlib.Core.Path.{subst}
use text.Mathlib.TextLemmas.{cons-append}
use arma_partner_api_sandbox.Prelude.Map.{get, get-set_self}
use arma_partner_api_sandbox.Governance.Audit.{GovernanceAuditRecord, numbered}
use arma_partner_api_sandbox.Governance.Store.{
  GovernanceStore, HumanReviewRecord, next_review_id, put_review, get_review,
}
use arma_partner_api_sandbox.Governance.Classification.{is_id}
use arma_partner_api_sandbox.Governance.Deterministic.{is_constant}
use arma_partner_api_sandbox.Governance.HumanReview.{
  ReviewerActorType, human, HumanReviewer, is_human, check_reviewer, RecordReviewOutcome, recorded,
  refused, review_of, stored, after_audit, after_checks, record_human_review, check_review,
  verify_human_review,
}

abbrev letter : Char
letter = "R"

prefixed_not_blank : (t : String) → is_blank ("REV-" <+> t) ≡ false
unfolding is_blank
prefixed_not_blank t = ap is_blank (cons-append letter "EV-" t)

numbered_not_blank : (n : ℕ) → is_blank (numbered "REV-" n) ≡ false
unfolding numbered
numbered_not_blank n = prefixed_not_blank _

review_in : Result RecordReviewOutcome → Option HumanReviewRecord
review_in (ok (recorded r)) = some r
review_in (ok (refused e)) = none
review_in (err e) = none

stored-review :
    (r : HumanReviewRecord) (s : GovernanceStore) (v : HumanReviewRecord)
    → review_in (stored r (put_review r s)).0 ≡ some v
    → (v ≡ r) × (get_review r.review_id (stored r (put_review r s)).1 ≡ some r)
unfolding stored put_review get_review review_in
stored-review r s v h = elim (Bool-cases (is_some (get r.review_id s.reviews))) [
  | inl e ↦ absurd (cc (rw e at h))
  | inr e ↦
      let same : some r ≡ some v = rw e at h in
      (cc same, rw e (get-set_self r.review_id r s.reviews))
]

-- The guards of a reviewer, all passed.
pub record IsEligible (reviewer : HumanReviewer) (action org_id output_hash : String) : Type 0 where
  pub is_person : reviewer.actor_type ≡ human
  pub is_known : reviewer.authenticated ≡ true
  pub of_org : reviewer.org_id ≡ org_id
  pub of_hash : is_sha256_hex output_hash ≡ true
  pub is_allowed : contains reviewer.authorized_actions action ≡ true

ok-guard :
    {A : Type 0} (b : Bool) (e : String) (k : Result A) (a : A)
    → (guard b e >> k) ≡ ok a
    → (b ≡ true) × (k ≡ ok a)
ok-guard true e k a h = (refl, h)
ok-guard false e k a h = absurd (cc h)

passed : (b : Bool) (e : String) → guard b e ≡ ok tt → b ≡ true
passed true e h = refl
passed false e h = absurd (cc h)

is_human-human : (t : ReviewerActorType) → is_human t ≡ true → t ≡ human
is_human-human human h = refl
is_human-human ReviewerActorType.ai h = absurd (cc h)
is_human-human ReviewerActorType.system h = absurd (cc h)

second : (a b : Bool) → a && b ≡ true → b ≡ true
second true b h = h
second false b h = absurd (cc h)

check_reviewer-IsEligible :
    (v : HumanReviewer) (action org_id output_hash : String)
    → check_reviewer v action org_id output_hash ≡ ok tt
    → IsEligible v action org_id output_hash
unfolding check_reviewer
check_reviewer-IsEligible v action org_id output_hash h =
    let a = ok-guard (is_human v.actor_type) _ _ tt h in
    let b = ok-guard v.authenticated _ _ tt a.1 in
    let c = ok-guard (not (is_blank org_id) && v.org_id == org_id) _ _ tt b.1 in
    let d = ok-guard (is_constant action) _ _ tt c.1 in
    let e = ok-guard (is_id 2 63 v.reviewer_id) _ _ tt d.1 in
    let f = ok-guard (is_sha256_hex output_hash) _ _ tt e.1 in
    record {
      is_person = is_human-human v.actor_type a.0;
      is_known = b.0;
      of_org = (eq_iff v.org_id org_id).0 (second _ _ c.0);
      of_hash = f.0;
      is_allowed = passed (contains v.authorized_actions action) _ f.1;
    }

after_audit-review :
    (v : HumanReviewer) (id action org_id output_hash : String) (now : ℕ)
    (t : Result GovernanceAuditRecord × GovernanceStore) (r : HumanReviewRecord)
    → let out = after_audit v id action org_id output_hash now t in
      review_in out.0 ≡ some r
      → (r.reviewer_id ≡ v.reviewer_id)
        × (r.org_id ≡ org_id)
        × (r.action ≡ action)
        × (r.output_hash ≡ output_hash)
        × (r.review_id ≡ id)
        × (get_review r.review_id out.1 ≡ some r)
unfolding after_audit review_of review_in
after_audit-review v id action org_id output_hash now (err e, s) r h = absurd (cc h)
after_audit-review v id action org_id output_hash now (ok audit, s) r h =
    let made = review_of v id action org_id output_hash now audit.audit_id in
    let (same, found) = stored-review made s r h in
    subst
      (λ x.
        (x.reviewer_id ≡ v.reviewer_id)
        × (x.org_id ≡ org_id)
        × (x.action ≡ action)
        × (x.output_hash ≡ output_hash)
        × (x.review_id ≡ id)
        × (get_review x.review_id (stored made (put_review made s)).1 ≡ some x))
      (sym same) (refl, refl, refl, refl, refl, found)

check_review-own :
    (r : HumanReviewRecord)
    → check_review (some r) r.action r.org_id r.output_hash (some r.reviewer_id) ≡ ok r
unfolding check_review
check_review-own r = rw (eq_refl, eq_refl, eq_refl, eq_refl) refl

after_checks-review :
    (v : HumanReviewer) (action org_id output_hash : String) (c : Result (Unit {0})) (now : ℕ)
    (s : GovernanceStore) (r : HumanReviewRecord)
    → let out = after_checks v action org_id output_hash c now s in
      review_in out.0 ≡ some r
      → (c ≡ ok tt)
        × ((r.reviewer_id ≡ v.reviewer_id)
            × (r.org_id ≡ org_id)
            × (r.action ≡ action)
            × (r.output_hash ≡ output_hash)
            × (r.review_id ≡ numbered "REV-" (s.review_seq + 1))
            × (get_review r.review_id out.1 ≡ some r))
unfolding after_checks next_review_id review_in
after_checks-review v action org_id output_hash (err e) now s r h = absurd (cc h)
after_checks-review v action org_id output_hash (ok u) now s r h =
    (refl, after_audit-review v _ action org_id output_hash now _ r h)

check_review-ok :
    (v : HumanReviewRecord) (action org_id output_hash id : String) (r : HumanReviewRecord)
    → check_review (some v) action org_id output_hash (some id) ≡ ok r
    → (action ≡ v.action)
      × (org_id ≡ v.org_id)
      × (output_hash ≡ v.output_hash)
      × (id ≡ v.reviewer_id)
unfolding check_review
check_review-ok v action org_id output_hash id r h =
    let a = ok-guard (v.action == action) _ _ r h in
    let b = ok-guard (v.org_id == org_id) _ _ r a.1 in
    let c = ok-guard (v.output_hash == output_hash) _ _ r b.1 in
    let d = ok-guard (v.reviewer_id == id) _ _ r c.1 in
    (
      sym ((eq_iff v.action action).0 a.0),
      sym ((eq_iff v.org_id org_id).0 b.0),
      sym ((eq_iff v.output_hash output_hash).0 c.0),
      sym ((eq_iff v.reviewer_id id).0 d.0),
    )

-- A review that is recorded was given by an eligible reviewer, a person who is authenticated, of
-- the organization, and authorized for the action. In the store that the recording leaves, it
-- verifies for that action, organization, output and reviewer, and for no other action,
-- organization, output or reviewer.
pub record_human_review-verify :
    (v : HumanReviewer) (action org_id output_hash : String) (now : ℕ) (s : GovernanceStore)
    (r : HumanReviewRecord)
    → (record_human_review v action org_id output_hash now s).0 ≡ ok (recorded r)
    → let s' = (record_human_review v action org_id output_hash now s).1 in
      IsEligible v action org_id output_hash
      × (verify_human_review s' r.review_id action org_id output_hash (some v.reviewer_id) ≡ ok r)
      × ((action' org_id' output_hash' id : String) (r' : HumanReviewRecord)
          → verify_human_review s' r.review_id action' org_id' output_hash' (some id) ≡ ok r'
          → (action' ≡ action)
            × (org_id' ≡ org_id)
            × (output_hash' ≡ output_hash)
            × (id ≡ v.reviewer_id))
unfolding record_human_review verify_human_review review_in
record_human_review-verify v action org_id output_hash now s r h =
    let (c, facts) = after_checks-review v action org_id output_hash _ now s r (ap review_in h) in
    let named : is_blank r.review_id ≡ false =
      ap is_blank facts.4 ∙ numbered_not_blank (s.review_seq + 1) in
    (
      check_reviewer-IsEligible v action org_id output_hash c,
      rw (named, facts.5, ← facts.0, ← facts.1, ← facts.2, ← facts.3) (check_review-own r),
      λ action' org_id' output_hash' id r' k.
          let (a, b, x, d) =
            check_review-ok r action' org_id' output_hash' id r' (rw (named, facts.5) at k) in
          (a ∙ facts.2, b ∙ facts.1, x ∙ facts.3, d ∙ facts.0),
    )
