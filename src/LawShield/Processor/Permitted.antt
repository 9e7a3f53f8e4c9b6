-- ===== src/LawShield/Processor/Permitted.antt =====
-- The processor of law-shield/lawshield/durable/processor.js accepts only what it has checked.
use arma_partner_api_sandbox.Prelude.{
  String, Bool, true, false, not, ◌||◌, Option, none, some, List, ◌≡◌, refl, ◌==◌, Result, ok, err,
  guard, ◌>>◌, eq_iff, arith,
}
use arma_partner_api_sandbox.LawShield.Store.{
  Store, NonceRecord, OrgMapping, CaseMapping, Authorizer,
}
use arma_partner_api_sandbox.LawShield.Store.Directory.{get_org_mapping, get_authorizer}
use arma_partner_api_sandbox.LawShield.Store.Writes.{
  get_nonce_record, Resolution, first_use, duplicate, conflicting,
}
use arma_partner_api_sandbox.LawShield.Envelope.{Platform, Envelope, truthy, is_text}
use arma_partner_api_sandbox.LawShield.Disclosure.{Verdict, refuse, admit}
use arma_partner_api_sandbox.LawShield.Processor.{
  Request, accepted_kind, kind_in, business_verdict, after_checks, check_processor_authorizer,
  check_processor_mappings, authorizer_found, org_found, case_checked, case_found,
}
use arma_partner_api_sandbox.LawShield.Processor.Decide.{
  collapse_duplicate, by_verdict, by_resolution, by_nonce,
}
use arma_partner_api_sandbox.LawShield.Processor.Permission.{
  IsPermitted, quarantine-IsNoAcceptance, reject_transfer-IsNoAcceptance,
  duplicate_by-IsNoAcceptance, refuse_replay-IsNoAcceptance,
}

pub ok-guard : (b : Bool) (m : String) → guard b m ≡ ok tt → b ≡ true
ok-guard true m h = refl
ok-guard false m h = absurd (cc h)

ok-then : (m n : Result (Unit {0})) → (m >> n) ≡ ok tt → (m ≡ ok tt) × (n ≡ ok tt)
ok-then (ok u) n h = (refl, h)
ok-then (err e) n h = absurd (cc h)

authorizer_found-ok :
    (e : Envelope) (o : Option Authorizer)
    → authorizer_found e o ≡ ok tt
    → (a : Authorizer) × (o ≡ some a) × (a.is_active ≡ true) × (a.arma_org_id ≡ e.arma_org_id)
unfolding authorizer_found
authorizer_found-ok e none h = absurd (cc h)
authorizer_found-ok e (some a) h =
    let c = ok-then (guard a.is_active _) _ h in
    (
      a,
      refl,
      ok-guard a.is_active _ c.0,
      (eq_iff a.arma_org_id e.arma_org_id).0 (ok-guard (a.arma_org_id == e.arma_org_id) _ c.1),
    )

org_found-ok :
    (e : Envelope) (o : Option OrgMapping)
    → org_found e o ≡ ok tt
    → (m : OrgMapping) × (o ≡ some m)
      × (m.is_active ≡ true)
      × (m.law_shield_org_id ≡ e.law_shield_org_id)
unfolding org_found
org_found-ok e none h = absurd (cc h)
org_found-ok e (some m) h =
    let c = ok-then (guard m.is_active _) _ h in
    (
      m,
      refl,
      ok-guard m.is_active _ c.0,
      (eq_iff m.law_shield_org_id e.law_shield_org_id).0
          (ok-guard (m.law_shield_org_id == e.law_shield_org_id) _ c.1),
    )

implied : (a b : Bool) → (not a || b) ≡ true → a ≡ true → b ≡ true
implied a b h t = ground arith

case_checked-ok :
    (b : Bool) (e : Envelope) (o : Option CaseMapping)
    → case_checked b e o ≡ ok tt
    → b ≡ true
    → (m : CaseMapping) × (o ≡ some m)
      × (m.is_active ≡ true)
      × (m.law_shield_org_id ≡ e.law_shield_org_id)
      × (truthy e.law_shield_case_id ≡ true
          → is_text e.law_shield_case_id m.law_shield_case_id ≡ true)
unfolding case_checked case_found
case_checked-ok false e o h t = absurd (cc t)
case_checked-ok true e none h t = absurd (cc h)
case_checked-ok true e (some m) h t =
    let c = ok-then (guard m.is_active _) _ h in
    let d = ok-then (guard (m.law_shield_org_id == e.law_shield_org_id) _) _ c.1 in
    (
      m,
      refl,
      ok-guard m.is_active _ c.0,
      (eq_iff m.law_shield_org_id e.law_shield_org_id).0 (ok-guard _ _ d.0),
      implied _ _ (ok-guard _ _ d.1),
    )

after_checks-admit :
    (r : Result (Unit {0})) (v : Verdict) (fields : List String)
    → after_checks r v ≡ admit fields
    → (r ≡ ok tt) × (v ≡ admit fields)
unfolding after_checks
after_checks-admit (ok u) v fields h = (refl, h)
after_checks-admit (err code) v fields h = absurd (cc h)

business_verdict-IsPermitted :
    (p : Platform) (s : Store) (e : Envelope) (fields : List String)
    → business_verdict p s e ≡ admit fields
    → IsPermitted p s e
unfolding business_verdict check_processor_authorizer check_processor_mappings
business_verdict-IsPermitted p s e fields h =
    let c = after_checks-admit _ _ fields h in
    let d = ok-then (authorizer_found e (get_authorizer s e.authorized_by)) _ c.0 in
    let a = authorizer_found-ok e _ d.0 in
    let g = ok-then (org_found e (get_org_mapping s e.arma_org_id)) _ d.1 in
    let m = org_found-ok e _ g.0 in
    record {
      authorizer = a.0;
      authorizer_known = a.1;
      authorizer_active = a.2;
      authorizer_org = a.3;
      mapping = m.0;
      mapping_known = m.1;
      mapping_active = m.2;
      mapping_org = m.3;
      incident = case_checked-ok (truthy e.incident_id) e _ g.1;
      fields = fields;
      disclosure = c.1;
    }

-- The nonce is not known, and the transfer is permitted.
pub record IsFresh (p : Platform) (q : Request) (s : Store) (e : Envelope) : Type 0 where
  pub fresh : get_nonce_record s e.schema_version q.forwarded.nonce ≡ none
  pub permitted : IsPermitted p s e

by_verdict-IsPermitted :
    (p : Platform) (q : Request) (e : Envelope) (v : Verdict) (s : Store)
    → business_verdict p s e ≡ v
    → kind_in (by_verdict q e v s).0 ≡ some accepted_kind
    → IsPermitted p s e
unfolding by_verdict
by_verdict-IsPermitted p q e (refuse code paths) s h k =
    absurd (reject_transfer-IsNoAcceptance q e code paths s k)
by_verdict-IsPermitted p q e (admit fields) s h k = business_verdict-IsPermitted p s e fields h

by_resolution-IsPermitted :
    (p : Platform) (q : Request) (e : Envelope) (r : Resolution) (s : Store)
    → kind_in (by_resolution p q e r s).0 ≡ some accepted_kind
    → IsPermitted p s e
unfolding by_resolution collapse_duplicate
by_resolution-IsPermitted p q e first_use s k = by_verdict-IsPermitted p q e _ s refl k
by_resolution-IsPermitted p q e (duplicate b) s k =
    absurd (duplicate_by-IsNoAcceptance q e b b.outcome s k)
by_resolution-IsPermitted p q e (conflicting b) s k = absurd (quarantine-IsNoAcceptance q e _ _ s k)

pub by_nonce-IsFresh :
    (p : Platform) (q : Request) (e : Envelope) (o : Option NonceRecord) (s : Store)
    → get_nonce_record s e.schema_version q.forwarded.nonce ≡ o
    → kind_in (by_nonce p q e o s).0 ≡ some accepted_kind
    → IsFresh p q s e
unfolding by_nonce
by_nonce-IsFresh p q e (some r) s g k = absurd (refuse_replay-IsNoAcceptance q e r s k)
by_nonce-IsFresh p q e none s g k = record {
  fresh = g;
  permitted = by_resolution-IsPermitted p q e _ s k;
}
