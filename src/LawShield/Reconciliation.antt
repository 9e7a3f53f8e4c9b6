-- ===== src/LawShield/Reconciliation.antt =====
-- law-shield/arma/reconciliation.js, over the directory of ARMA's users and the store of
-- law-shield/arma/persistence.js, and the checks on the acting user that it shares with
-- law-shield/arma/authorizationGuard.js. The clock's reading is an argument.
pub mod Authorizer
pub mod Resolved
mod Tests
use arma_partner_api_sandbox.Prelude.{
  ℕ, String, Bool, true, false, not, Option, none, some, List, [], ◌∷◌, ◌==◌, ltb, contains, Result,
  ok, err, guard, ◌>>=◌, ◌>>◌, is_space, if◌then◌else◌,
}
use arma_partner_api_sandbox.Prelude.Map.{Map, get, set}
use arma_partner_api_sandbox.Prelude.Json.{utf16_length}
use arma_partner_api_sandbox.LawShield.Store.{OrgMapping, CaseMapping}
use Prim.Native.Char.{code}
use arma_partner_api_sandbox.Prelude.Exec.{Exec}

pub record User : Type 0 where
  pub user_id : String
  pub org_id : String
  pub roles : List String
  pub actor_type : String

abbrev pub Directory : Type 0
Directory = Map User

abbrev pub authorizer_role : String
authorizer_role = "LAW_SHIELD_DISCLOSURE_AUTHORIZER"

-- `addUser`; the roles are a set, of which only membership is read
unfoldable pub add_user : String → String → List String → String → Directory → Directory
add_user user_id org_id roles actor_type d =
    set user_id
      (record { user_id = user_id; org_id = org_id; roles = roles; actor_type = actor_type }) d

-- `seedSyntheticIdentities`
unfoldable pub seed_synthetic_identities : Directory → Directory
unfolding add_user
seed_synthetic_identities d =
    let commander = "ORG_COMMANDER" ∷ authorizer_role ∷ [] in
    let d1 = add_user "user-commander-1" "org-arma-1" commander "HUMAN" d in
    let d2 = add_user "user-officer-1" "org-arma-1" ("OFFICER" ∷ []) "HUMAN" d1 in
    let d3 = add_user "user-commander-2" "org-arma-2" commander "HUMAN" d2 in
    let d4 = add_user "ai-engine-joy" "org-arma-1" [] "AI" d3 in
    add_user "ai-engine-rose" "org-arma-1" [] "AI" d4

unfoldable pub role_of : Option User → String → Bool
role_of none role = false
role_of (some u) role = contains u.roles role

unfoldable pub has_role : Directory → String → String → Bool
unfolding role_of
has_role d user_id role = role_of (get user_id d) role

unfoldable pub org_of : Option User → String → Bool
org_of none org_id = false
org_of (some u) org_id = u.org_id == org_id

unfoldable pub belongs_to_org : Directory → String → String → Bool
unfolding org_of
belongs_to_org d user_id org_id = org_of (get user_id d) org_id

-- `record.trim()`: the white space of both ends.
trim_start : String → String
trim_start String.[] = ""
trim_start (String.◌∷◌ c s) =
    let rest = trim_start s in if is_space (code c) then rest else String.◌∷◌ c s

trim_end : String → String
trim_end String.[] = ""
trim_end (String.◌∷◌ c s) =
    let rest = trim_end s in
    if is_space (code c) then (if rest == "" then "" else String.◌∷◌ c rest) else String.◌∷◌ c rest

unfoldable pub trim : String → String
unfolding trim_start trim_end
trim s = trim_start (trim_end s)

-- The record of `openReconciliation` in the store; the retry count stays 0 and the receipt null.
pub record Reconciliation : Type 0 where
  pub transfer_id : String
  pub expected_payload_hash : Option String
  pub expected_destination : String
  pub current_arma_state : String
  pub reported_law_shield_state : Option String
  pub discrepancy_code : Option String
  pub last_checked_at : ℕ
  pub resolution_status : String
  pub authorized_resolver_user_id : Option String
  pub resolution_note : Option String
  pub updated_at : ℕ

-- Of `SyntheticLawShieldStore`: the mappings, the organization of each transfer, and the
-- reconciliations. Nothing here reads or writes its other maps.
pub record Store : Type 0 where
  pub org_mappings : Map OrgMapping
  pub case_mappings : Map CaseMapping
  pub transfer_orgs : Map String
  pub reconciliations : Map Reconciliation

unfoldable pub get_reconciliation : Store → String → Option Reconciliation
get_reconciliation s transfer_id = get transfer_id s.reconciliations

unfoldable pub put : String → Reconciliation → Store → Store
put transfer_id r s = record s { reconciliations = set transfer_id r s.reconciliations }

-- What the caller reports of a discrepancy.
pub record Discrepancy : Type 0 where
  pub transfer_id : String
  pub expected_payload_hash : Option String
  pub expected_destination : String
  pub current_arma_state : String
  pub discrepancy_code : Option String
  pub reported_law_shield_state : Option String

-- A discrepancy as the store writes it.
unfoldable pub opened : Discrepancy → ℕ → Reconciliation
opened x now = record {
  transfer_id = x.transfer_id;
  expected_payload_hash = x.expected_payload_hash;
  expected_destination = x.expected_destination;
  current_arma_state = x.current_arma_state;
  reported_law_shield_state = x.reported_law_shield_state;
  discrepancy_code = x.discrepancy_code;
  last_checked_at = now;
  resolution_status = "OPEN";
  authorized_resolver_user_id = none;
  resolution_note = none;
  updated_at = now;
}

unfoldable pub is_opened : Option Reconciliation → Bool
is_opened none = false
is_opened (some r) = r.resolution_status == "OPEN"

-- `openReconciliation`: an open record stays, any other is written anew.
unfoldable pub open_reconciliation : Discrepancy → ℕ → Store → Store
unfolding is_opened put opened get_reconciliation
open_reconciliation x now s =
    if is_opened (get_reconciliation s x.transfer_id) then s else put x.transfer_id (opened x now) s

-- The store's `resolveReconciliation`
unfoldable pub store_resolve :
    String → String → String → String → ℕ → Option Reconciliation → Exec Store Reconciliation
unfolding put
store_resolve transfer_id user_id note status now none s = (err "RECONCILIATION_NOT_FOUND", s)
store_resolve transfer_id user_id note status now (some r) s =
    let r' = record r {
      authorized_resolver_user_id = some user_id;
      resolution_note = some note;
      resolution_status = status;
      updated_at = now;
    } in
    if r.resolution_status == "RESOLVED"
    then (err "RECONCILIATION_ALREADY_RESOLVED", s)
    else (ok r', put transfer_id r' s)

pub record Resolution : Type 0 where
  pub transfer_id : String
  pub note : Option String
  pub status : Option String

unfoldable pub text_or : String → Option String → String
text_or default none = default
text_or default (some s) = s

unfoldable pub present : {A : Type 0} → String → Option A → Result A
present e none = err e
present e (some a) = ok a

-- `if (!userId || typeof userId !== 'string')`: none for what is no text
unfoldable pub user_id_of : Option String → Result String
unfolding present
user_id_of actor = present "ACTOR_NOT_AUTHENTICATED" actor >>= λ user_id.
    guard (not (user_id == "")) "ACTOR_NOT_AUTHENTICATED" >> ok user_id

-- The checks both guards begin with; `ai_code` is the error for a user that is not human.
unfoldable pub check_human : Directory → Option String → String → Result String
unfolding user_id_of present has_role
check_human d actor ai_code = user_id_of actor >>= λ user_id.
    present "ACTOR_NOT_AUTHENTICATED" (get user_id d) >>= λ user.
    guard (user.actor_type == "HUMAN") ai_code
    >> guard (has_role d user_id authorizer_role) "ACTOR_MISSING_AUTHORIZER_ROLE"
    >> ok user_id

-- The checks of `resolveReconciliation`, with the resolver, the trimmed note and the new status.
unfoldable pub check_resolution :
    Store → Directory → Option String → Resolution → Result (String × String × String)
unfolding check_human present belongs_to_org text_or trim
check_resolution s d actor x =
    let status = text_or "RESOLVED" x.status in
    let note = trim (text_or "" x.note) in
    check_human d actor "AI_CANNOT_RESOLVE_RECONCILIATION" >>= λ user_id.
    present "TRANSFER_NOT_FOUND" (get x.transfer_id s.transfer_orgs) >>= λ org_id.
    guard (belongs_to_org d user_id org_id) "ACTOR_NOT_IN_TRANSFER_ORG"
    >> guard (contains ("RESOLVED" ∷ "QUARANTINED" ∷ []) status) "INVALID_RESOLUTION_STATUS"
    >> guard (not (ltb (utf16_length note) 10)) "RESOLUTION_NOTE_TOO_SHORT"
    >> ok (user_id, note, status)

unfoldable pub resolve_checked :
    String → ℕ → Result (String × String × String) → Exec Store Reconciliation
unfolding store_resolve get_reconciliation
resolve_checked transfer_id now (err e) s = (err e, s)
resolve_checked transfer_id now (ok (user_id, note, status)) s =
    store_resolve transfer_id user_id note status now (get_reconciliation s transfer_id) s

unfoldable pub resolve_reconciliation :
    Directory → Option String → Resolution → ℕ → Exec Store Reconciliation
unfolding resolve_checked check_resolution
resolve_reconciliation d actor x now s =
    resolve_checked x.transfer_id now (check_resolution s d actor x) s

unfoldable pub approval_of : Option Reconciliation → Bool × String
approval_of none = (false, "RECONCILIATION_NOT_FOUND")
approval_of (some r) =
    if r.resolution_status == "RESOLVED"
    then (true, "HUMAN_CONFIRMED_UPSTREAM_NOT_ACCEPTED")
    else (false, "RECONCILIATION_STILL_OPEN")

-- `{ mayResend, reason }`
unfoldable pub reconciliation_reopen_approval : Store → String → Bool × String
unfolding approval_of get_reconciliation
reconciliation_reopen_approval s transfer_id = approval_of (get_reconciliation s transfer_id)
