-- ===== src/LawShield/Processor/Handler/Guards.antt =====
-- Whom `createDurableProcessorServer` of law-shield/lawshield/durable/processor.js serves.
use arma_partner_api_sandbox.Prelude.{
  ℕ, String, Bool, true, false, not, ◌&&◌, Option, none, some, ◌==◌, ◌<+>◌, ◌≡◌, ◌≢◌, ◌⊎◌, inl, inr,
  refl, sym, ap, ◌∙◌, Bool-cases, arith, codes, map, eq_iff, List, [], ◌∷◌,
}
use arma_partner_api_sandbox.Governance.Classification.{same_codes}
use arma_partner_api_sandbox.LawShield.Store.{Store}
use arma_partner_api_sandbox.LawShield.Envelope.{Platform}
use arma_partner_api_sandbox.LawShield.Processor.Handler.{
  Settings, HttpRequest, Reply, failed, outcome, status, lower, processor_disabled, expected_token,
  is_bearer, authorized, is_process_url, is_status_url, handle,
}

-- The two answers that carry what the store holds.
unfoldable pub IsOpen : Reply → Type 0
IsOpen (failed code message) = ⊥
IsOpen (outcome o) = Unit {0}
IsOpen (status r) = Unit {0}

-- The request is answered so, or changes the store.
unfoldable pub Acts : Store → Reply × Store → Type 0
Acts s (reply, s') = IsOpen reply ⊎ (s' ≢ s)

-- The switch is not the word true in any letters, a token is configured, of the server or else of the
-- environment, and the request bears it.
pub record IsServed (c : Settings) (r : HttpRequest) : Type 0 where
  pub enabled :
      (switch : String) → c.disabled ≡ some switch → map lower (codes switch) ≢ codes "true"
  pub token : String
  pub configured : (c.token ≡ some token) ⊎ ((c.token ≡ none) × (c.processor_token ≡ some token))
  pub is_given : token ≢ ""
  pub borne : r.headers "authorization" ≡ some ("Bearer " <+> token)
  pub routed :
      ((r.method ≡ "POST") × ((r.url ≡ "/process") ⊎ (r.url ≡ "/")))
      ⊎ ((r.method ≡ "GET") × (is_status_url r.url ≡ true))

same_codes_refl : (xs : List ℕ) → same_codes xs xs ≡ true
unfolding same_codes
same_codes_refl [] = refl
same_codes_refl (x ∷ xs) = ground (arith, same_codes_refl xs)

processor_disabled-false :
    (o : Option String) (switch : String)
    → processor_disabled o ≡ false
    → o ≡ some switch
    → map lower (codes switch) ≢ codes "true"
unfolding processor_disabled
processor_disabled-false none switch h e t = absurd (cc e)
processor_disabled-false (some x) switch h e t =
    let off : same_codes (map lower (codes switch)) (codes "true") ≡ false =
      ap processor_disabled (sym e) ∙ h in
    absurd (cc (off, ap (λ xs. same_codes xs (codes "true")) t, same_codes_refl (codes "true")))

expected_token-some :
    (c : Settings) (t : String)
    → expected_token c ≡ some t
    → (c.token ≡ some t) ⊎ ((c.token ≡ none) × (c.processor_token ≡ some t))
unfolding expected_token
expected_token-some c t h = token_cases c.token c.processor_token t h
  where
    token_cases :
        (o p : Option String) (t : String)
        → (elim o [ none ↦ p | some u ↦ some u ]) ≡ some t
        → (o ≡ some t) ⊎ ((o ≡ none) × (p ≡ some t))
    token_cases none p t h = inr (refl, h)
    token_cases (some u) p t h = inl h

both : (a b : Bool) → a && b ≡ true → (a ≡ true) × (b ≡ true)
both true b h = (refl, h)
both false b h = absurd (cc h)

is_bearer-true :
    (o provided : Option String)
    → is_bearer o provided ≡ true
    → (t : String) × (o ≡ some t) × (t ≢ "") × (provided ≡ some ("Bearer " <+> t))
unfolding is_bearer
is_bearer-true none provided h = absurd (cc h)
is_bearer-true (some t) none h = absurd (cc h)
is_bearer-true (some t) (some p) h =
    let (given, borne) = both (not (t == "")) (p == "Bearer " <+> t) h in
    (
      t,
      refl,
      λ e. absurd (cc (given, ap not ((eq_iff t "").1 e))),
      ap some ((eq_iff p ("Bearer " <+> t)).0 borne),
    )

closed : (code : ℕ) (message : String) (s : Store) → Acts s (failed code message, s) → ⊥
unfolding Acts IsOpen
closed code message s (inl o) = o
closed code message s (inr n) = n refl

url_cases : (url : String) → is_process_url url ≡ true → (url ≡ "/process") ⊎ (url ≡ "/")
unfolding is_process_url
url_cases url h = elim (Bool-cases (url == "/process")) [
  | inl p ↦ inl ((eq_iff url "/process").0 p)
  | inr n ↦ inr ((eq_iff url "/").0 (rw n at h))
]

served :
    (c : Settings) (r : HttpRequest)
    → processor_disabled c.disabled ≡ false
    → authorized c r ≡ true
    → ((r.method ≡ "POST") × ((r.url ≡ "/process") ⊎ (r.url ≡ "/")))
      ⊎ ((r.method ≡ "GET") × (is_status_url r.url ≡ true))
    → IsServed c r
unfolding authorized
served c r off granted route =
    let (t, configured, given, borne) =
      is_bearer-true (expected_token c) (r.headers "authorization") granted in
    record {
      enabled = λ switch. processor_disabled-false c.disabled switch off;
      token = t;
      configured = expected_token-some c t configured;
      is_given = given;
      borne = borne;
      routed = route;
    }

-- A request that changes the store, or is answered with an outcome or a status, comes while the kill
-- switch is not the word true in any letters, bears the configured token, which is not empty, and is a
-- POST to /process or /, or a GET of a status address.
pub handle-IsServed :
    (p : Platform) (c : Settings) (r : HttpRequest) (now clock : ℕ) (s : Store)
    → Acts s (handle p c r now clock s)
    → IsServed c r
unfolding handle
handle-IsServed p c r now clock s h = elim (Bool-cases (processor_disabled c.disabled)) [
  | inl d ↦ absurd (closed _ _ s (rw d at h))
  | inr d ↦ elim (Bool-cases (authorized c r)) [
    | inl a ↦ elim (Bool-cases (r.method == "POST" && is_process_url r.url)) [
      | inl m ↦
          let (method, url) = both (r.method == "POST") (is_process_url r.url) m in
          served c r d a (inl ((eq_iff r.method "POST").0 method, url_cases r.url url))
      | inr m ↦ elim (Bool-cases (r.method == "GET" && is_status_url r.url)) [
        | inl g ↦
            let (method, url) = both (r.method == "GET") (is_status_url r.url) g in
            served c r d a (inr ((eq_iff r.method "GET").0 method, url))
        | inr g ↦ absurd (closed _ _ s (rw (d, m, g) at h))
      ]
    ]
    | inr a ↦ elim (Bool-cases (r.method == "POST" && is_process_url r.url)) [
      | inl m ↦ absurd (closed _ _ s (rw (d, m, a) at h))
      | inr m ↦ elim (Bool-cases (r.method == "GET" && is_status_url r.url)) [
        | inl g ↦ absurd (closed _ _ s (rw (d, m, g, a) at h))
        | inr g ↦ absurd (closed _ _ s (rw (d, m, g) at h))
      ]
    ]
  ]
]
