-- ===== src/Webhooks/Delivery/Laws.antt =====
-- How a delivery of shared/webhooks/delivery.ts ends.
use arma_partner_api_sandbox.Prelude.{
  is_blank, ℕ, zero, suc, ◌+◌, ◌≤◌, String, Bool, true, false, not, ◌||◌, ◌==◌, Option, none, some,
  List, [], ◌∷◌, ◌++◌, ◌≡◌, ◌≢◌, ◌⊎◌, inl, inr, refl, arith, leb, Bool-cases, ok,
}
use arma_partner_api_sandbox.Prelude.Map.{get, get-set_self}
use arma_partner_api_sandbox.Sdk.Retries.{classify}
use arma_partner_api_sandbox.Webhooks.Delivery.{
  TransportResult, DeliveryAttemptRecord, AttemptOutcome, DeliveryOutcomeCode, delivered,
  DeliveryResult, Delivered, WebhookEnvelope, WebhookDeliveryService, Ending, arrived, lost,
  ran_out, Step, arrive, lose, again, retry_allowed, by_code, decide, attempts_from, result_of,
  letter_of, settled, by_prior, deliver,
}

last_step :
    (m n now : ℕ) (b : Bool) (code c : String) → leb m n ≡ true → by_code m n now b code ≢ again c
unfolding by_code retry_allowed
last_step m n now b code c high h = elim (Bool-cases (b || (classify code).ambiguous)) [
  | inl x ↦ absurd (cc (rw x at h))
  | inr x ↦ elim (Bool-cases (not (classify code).clean_retryable)) [
    | inl y ↦ absurd (cc (rw (x, y) at h))
    | inr y ↦ absurd (cc (rw (x, y, high) at h))
  ]
]

-- Another attempt is made only if one is left.
by_code-again :
    (m n now : ℕ) (b : Bool) (code c : String) → by_code m n now b code ≡ again c → n + 1 ≤ m
by_code-again m n now b code c h = elim (Bool-cases (leb m n)) [
  | inr low ↦ ground arith
  | inl high ↦ absurd (last_step m n now b code c high h)
]

decide-again :
    (m n now : ℕ) (r : Option TransportResult) (c : String) → decide m n now r ≡ again c → n + 1 ≤ m
unfolding decide
decide-again m n now none c h = by_code-again m n now false _ c h
decide-again m n now (some r) c h = elim (Bool-cases r.is_ok) [
  | inl good ↦ absurd (cc (rw good at h))
  | inr bad ↦ by_code-again m n now r.is_ambiguous _ c (rw bad at h)
]

pub Step-cases :
    (s : Step)
    → (s ≡ arrive)
      ⊎ (((o : DeliveryOutcomeCode) × (how : _) × (c : String) × (s ≡ lose o how c))
          ⊎ ((c : String) × (s ≡ again c)))
Step-cases arrive = inl refl
Step-cases (lose o how c) = inr (inl (o, how, c, refl))
Step-cases (again c) = inr (inr (c, refl))

-- It ended by a success or a dead letter, within so many attempts.
unfoldable pub IsSettled : ℕ → Ending → Type 0
IsSettled m (arrived n history) = n ≤ m
IsSettled m (lost outcome n history) = n ≤ m
IsSettled m (ran_out n history) = 1 ≤ 0

module _ (transport : ℕ → Option TransportResult) (clock : ℕ → ℕ) where
  pub attempts_from-IsSettled :
      (m left n : ℕ) (h : List DeliveryAttemptRecord)
      → n + left ≡ m
      → 1 ≤ left
      → IsSettled m (attempts_from transport clock m left n h)
  unfolding attempts_from IsSettled
  attempts_from-IsSettled m zero n h total some_left = omega arith
  attempts_from-IsSettled m (suc left) n h total some_left =
      elim (Step-cases (decide m (n + 1) (clock (n + 1)) (transport (n + 1)))) [
        | inl e ↦ rw (e, IsSettled) (omega arith)
        | inr (inl e) ↦ rw (e.3, IsSettled) (omega arith)
        | inr (inr e) ↦
            let more = decide-again m (n + 1) _ _ e.0 e.1 in
            rw (e.1, IsSettled)
              (attempts_from-IsSettled m left (n + 1) _ (omega arith) (omega arith))
      ]

  -- Either the event counts as delivered, and there is no new dead letter; or there is just one new
  -- dead letter, for this event, and what counts as delivered is the same.
  pub HasEnded :
      String
      → WebhookEnvelope
      → WebhookDeliveryService
      → DeliveryResult
      → WebhookDeliveryService
      → Type 0
  HasEnded delivery_id envelope s r s' =
      ((r.outcome ≡ delivered)
        × (r.dead_lettered ≡ false)
        × (s'.dead_letters ≡ s.dead_letters)
        × ((d : Delivered) × (get envelope.event_id s'.delivered_events ≡ some d)
            × (d.attempts ≤ s.max_attempts)))
      ⊎ ((r.dead_lettered ≡ true)
          × (s'.delivered_events ≡ s.delivered_events)
          × ((o : DeliveryOutcomeCode) × (n : ℕ) × (n ≤ s.max_attempts)
              × (s'.dead_letters
                  ≡ s.dead_letters ++ letter_of transport clock delivery_id envelope o n ∷ [])))

  settled-HasEnded :
      (delivery_id : String) (envelope : WebhookEnvelope) (e : Ending) (s : WebhookDeliveryService)
      → IsSettled s.max_attempts e
      → let (r, s') = settled transport clock delivery_id envelope e s in
        HasEnded delivery_id envelope s r s'
  unfolding settled result_of IsSettled HasEnded
  settled-HasEnded delivery_id envelope (arrived n h) s b =
      inl (refl, refl, refl, (_, get-set_self envelope.event_id _ s.delivered_events, b))
  settled-HasEnded delivery_id envelope (lost o n h) s b = inr (refl, refl, (o, n, b, refl))
  settled-HasEnded delivery_id envelope (ran_out n h) s b = absurd (omega arith)

  -- A delivery with a secret and a target, of an event not delivered before, by a service that may
  -- attempt at all, ends whatever the transport answers: the event is delivered within the attempts
  -- allowed and no dead letter is added, or one dead letter for it is added and nothing else changes.
  pub deliver-HasEnded :
      (delivery_id secret target_id : String) (envelope : WebhookEnvelope)
      (s : WebhookDeliveryService)
      → 1 ≤ s.max_attempts
      → secret == "" ≡ false
      → is_blank target_id ≡ false
      → get envelope.event_id s.delivered_events ≡ none
      → (r : DeliveryResult) × (s' : WebhookDeliveryService) × (deliver transport clock delivery_id
            secret target_id envelope s
          ≡ ok (r, s'))
        × HasEnded delivery_id envelope s r s'
  unfolding deliver by_prior
  deliver-HasEnded delivery_id secret target_id envelope s some_left keyed aimed new = (
    _,
    _,
    rw (keyed, aimed, new) refl,
    settled-HasEnded delivery_id envelope
        (attempts_from transport clock s.max_attempts s.max_attempts 0 []) s
        (attempts_from-IsSettled s.max_attempts s.max_attempts 0 [] (omega arith) some_left),
  )

-- An attempt that ends the delivery with a dead letter does not say delivered.
by_code-lose :
    (m n now : ℕ) (b : Bool) (code : String) (o : DeliveryOutcomeCode) (how : AttemptOutcome)
    (c : String)
    → by_code m n now b code ≡ lose o how c
    → o ≢ delivered
unfolding by_code
by_code-lose m n now b code o how c h e = elim (Bool-cases (b || (classify code).ambiguous)) [
  | inl x ↦ absurd (cc (rw x at h, e))
  | inr x ↦ elim (Bool-cases (not (classify code).clean_retryable)) [
    | inl y ↦ absurd (cc (rw (x, y) at h, e))
    | inr y ↦ elim (Bool-cases (retry_allowed m n now)) [
      | inl z ↦ absurd (cc (rw (x, y, z) at h))
      | inr z ↦ absurd (cc (rw (x, y, z) at h, e))
    ]
  ]
]

pub decide-lose :
    (m n now : ℕ) (r : Option TransportResult) (o : DeliveryOutcomeCode) (how : AttemptOutcome)
    (c : String)
    → decide m n now r ≡ lose o how c
    → o ≢ delivered
unfolding decide
decide-lose m n now none o how c h = by_code-lose m n now false _ o how c h
decide-lose m n now (some r) o how c h = elim (Bool-cases r.is_ok) [
  | inl good ↦ absurd (cc (rw good at h))
  | inr bad ↦ by_code-lose m n now r.is_ambiguous _ o how c (rw bad at h)
]
