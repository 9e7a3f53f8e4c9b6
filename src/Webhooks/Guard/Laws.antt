-- ===== src/Webhooks/Guard/Laws.antt =====
-- What the guard of shared/webhooks/events.ts lets pass.
use arma_partner_api_sandbox.Prelude.{
  ℕ, ◌+◌, String, Bool, true, false, ◌||◌, Option, none, some, is_some, List, [], ◌∷◌, ◌==◌, ◌≡◌,
  ◌≢◌, ◌⊎◌, inl, inr, refl, arith, contains, Bool-cases, eq_refl, matches_class, is_token_char,
}
use arma_partner_api_sandbox.Prelude.Map.{get, get-set_self}
use arma_partner_api_sandbox.Webhooks.Guard.{
  WebhookEventGuard, WebhookGuardCheckInput, passed, prune, is_gap, consume, check_pruned, check,
  run,
}

-- Either an event passes: its id is new, it is next in its stream, and it is recorded; or the guard
-- keeps its ids and its sequences.
check_pruned-cases :
    (i : WebhookGuardCheckInput) (now : ℕ) (g : WebhookEventGuard)
    → ((check_pruned i now g ≡ (passed, consume i now g))
        × (contains g.seen_event_ids i.event_id ≡ false)
        × (is_gap (get i.stream g.stream_sequence) i.sequence ≡ false))
      ⊎ (((check_pruned i now g).0 ≢ passed) × ((check_pruned i now g).1 ≡ g))
unfolding check_pruned
check_pruned-cases i now g = elim (Bool-cases (is_some (get i.nonce g.seen_nonces))) [
  | inl a ↦ inr (rw a ((λ h. absurd (cc h)), refl))
  | inr a ↦ elim (Bool-cases (contains g.seen_event_ids i.event_id)) [
    | inl b ↦ inr (rw (a, b) ((λ h. absurd (cc h)), refl))
    | inr b ↦ elim (Bool-cases (is_gap (get i.stream g.stream_sequence) i.sequence)) [
      | inl c ↦ inr (rw (a, b, c) ((λ h. absurd (cc h)), refl))
      | inr c ↦ inl (rw (a, b, c) refl, b, c)
    ]
  ]
]

-- An event that passes has an id that never passed before and is the next of its stream, if the
-- stream has had any; afterwards its id is seen and the stream is at its sequence.
check-passed :
    (i : WebhookGuardCheckInput) (now : ℕ) (g : WebhookEventGuard)
    → (check i now g).0 ≡ passed
    → (contains g.seen_event_ids i.event_id ≡ false)
      × (is_gap (get i.stream g.stream_sequence) i.sequence ≡ false)
      × ((check i now g).1.seen_event_ids ≡ i.event_id ∷ g.seen_event_ids)
      × (get i.stream (check i now g).1.stream_sequence ≡ some i.sequence)
unfolding check prune consume
check-passed i now g h = elim (Bool-cases (matches_class is_token_char 20 128 i.nonce)) [
  | inr m ↦ absurd (cc (rw m at h))
  | inl m ↦ elim (check_pruned-cases i now (prune now g)) [
    | inr f ↦ absurd (f.0 (rw m at h))
    | inl p ↦ (
      p.1,
      p.2,
      rw (m, p.0) refl,
      rw (m, p.0) (get-set_self i.stream i.sequence g.stream_sequence),
    )
  ]
]

or_true : (b : Bool) → b || true ≡ true
or_true true = refl
or_true false = refl

not-gap :
    (o : Option ℕ) (n : ℕ)
    → is_gap o n ≡ false
    → (o ≡ none) ⊎ ((last : ℕ) × (o ≡ some last) × (n ≡ last + 1))
unfolding is_gap
not-gap none n h = inl refl
not-gap (some last) n h = inr (last, refl, ground arith)

check-keeps :
    (i : WebhookGuardCheckInput) (now : ℕ) (g : WebhookEventGuard) (id : String)
    → contains g.seen_event_ids id ≡ true
    → contains (check i now g).1.seen_event_ids id ≡ true
unfolding check prune consume contains
check-keeps i now g id h = elim (Bool-cases (matches_class is_token_char 20 128 i.nonce)) [
  | inr m ↦ rw m h
  | inl m ↦ elim (check_pruned-cases i now (prune now g)) [
    | inr f ↦ rw (m, f.1) h
    | inl p ↦ rw (m, p.0, h) (or_true (i.event_id == id))
  ]
]

run-keeps :
    (cs : List (WebhookGuardCheckInput × ℕ)) (g : WebhookEventGuard) (id : String)
    → contains g.seen_event_ids id ≡ true
    → contains (run cs g).seen_event_ids id ≡ true
unfolding run
run-keeps [] g id h = h
run-keeps ((i, now) ∷ cs) g id h = run-keeps cs (check i now g).1 id (check-keeps i now g id h)

-- Once an event has passed, no event with its id passes again, whatever checks come between and
-- however much later it is presented.
pub check_once :
    (i : WebhookGuardCheckInput) (now : ℕ) (g : WebhookEventGuard)
    (cs : List (WebhookGuardCheckInput × ℕ)) (j : WebhookGuardCheckInput) (later : ℕ)
    → (check i now g).0 ≡ passed
    → j.event_id ≡ i.event_id
    → (check j later (run cs (check i now g).1)).0 ≢ passed
unfolding contains
check_once i now g cs j later h same again =
    let (_, _, seen, _) = check-passed i now g h in
    let known : contains (check i now g).1.seen_event_ids j.event_id ≡ true =
      rw (seen, same, eq_refl) refl in
    let (fresh, _, _, _) = check-passed j later (run cs (check i now g).1) again in
    cc (fresh, run-keeps cs (check i now g).1 j.event_id known)

-- An event that passes is the first of its stream or has the number after the stream's last, and
-- afterwards the stream's last number is its own.
pub check_consecutive :
    (i : WebhookGuardCheckInput) (now : ℕ) (g : WebhookEventGuard)
    → (check i now g).0 ≡ passed
    → ((get i.stream g.stream_sequence ≡ none)
        ⊎ ((last : ℕ) × (get i.stream g.stream_sequence ≡ some last) × (i.sequence ≡ last + 1)))
      × (get i.stream (check i now g).1.stream_sequence ≡ some i.sequence)
check_consecutive i now g h =
    let (_, next, _, stored) = check-passed i now g h in
    (not-gap (get i.stream g.stream_sequence) i.sequence next, stored)
