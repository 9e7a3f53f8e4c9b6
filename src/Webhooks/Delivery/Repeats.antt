-- ===== src/Webhooks/Delivery/Repeats.antt =====
-- An event is delivered once by shared/webhooks/delivery.ts.
use mathlib.Core.Path.{subst}
use arma_partner_api_sandbox.Prelude.{
  is_blank, ℕ, zero, suc, ◌+◌, ◌≤◌, String, false, ◌==◌, Option, none, some, List, [], ◌∷◌, ◌≡◌,
  ◌≢◌, inl, inr, refl, arith, Bool-cases, Result, ok, err,
}
use arma_partner_api_sandbox.Prelude.Map.{get, get-set, get-set_self}
use arma_partner_api_sandbox.Webhooks.Delivery.{
  TransportResult, DeliveryAttemptRecord, delivered, delivered_duplicate, DeliveryResult, Delivered,
  WebhookEnvelope, WebhookDeliveryService, Ending, arrived, lost, ran_out, decide, attempts_from,
  result_of, settled, by_prior, deliver,
}
use arma_partner_api_sandbox.Webhooks.Delivery.Laws.{
  Step-cases, decide-lose, IsSettled, attempts_from-IsSettled,
}

-- A call of `deliver`: what it is given, with what the transport answers and the clock shows.
pub record Delivery : Type 0 where
  pub transport : ℕ → Option TransportResult
  pub clock : ℕ → ℕ
  pub delivery_id : String
  pub secret : String
  pub target_id : String
  pub envelope : WebhookEnvelope

abbrev pub made :
    Delivery → WebhookDeliveryService → Result (DeliveryResult × WebhookDeliveryService)
made x s = deliver x.transport x.clock x.delivery_id x.secret x.target_id x.envelope s

-- A call that throws changes nothing.
after_call :
    Result (DeliveryResult × WebhookDeliveryService)
    → WebhookDeliveryService
    → WebhookDeliveryService
after_call (err e) s = s
after_call (ok (r, s')) s = s'

unfoldable pub run : List Delivery → WebhookDeliveryService → WebhookDeliveryService
unfolding after_call
run [] s = s
run (x ∷ xs) s = run xs (after_call (made x s) s)

-- the event counts as delivered
abbrev IsMarked : String → WebhookDeliveryService → Type 0
IsMarked id s = (d : Delivered) × (get id s.delivered_events ≡ some d)

IsHonest : Ending → Type 0
IsHonest (lost outcome n history) = outcome ≢ delivered
IsHonest (arrived n history) = Unit {0}
IsHonest (ran_out n history) = Unit {0}

attempts_from-IsHonest :
    (transport : ℕ → Option TransportResult) (clock : ℕ → ℕ) (m left n : ℕ)
    (h : List DeliveryAttemptRecord)
    → IsHonest (attempts_from transport clock m left n h)
unfolding attempts_from IsHonest
attempts_from-IsHonest transport clock m zero n h = tt
attempts_from-IsHonest transport clock m (suc left) n h =
    elim (Step-cases (decide m (n + 1) (clock (n + 1)) (transport (n + 1)))) [
      | inl e ↦ rw (e, IsHonest) tt
      | inr (inl e) ↦ rw (e.3, IsHonest) (decide-lose m (n + 1) _ _ e.0 e.1 e.2 e.3)
      | inr (inr e) ↦ rw (e.1, IsHonest) (attempts_from-IsHonest transport clock m left (n + 1) _)
    ]

-- If the result says delivered, the event is marked.
Marks : String → Result (DeliveryResult × WebhookDeliveryService) → Type 0
Marks id (err e) = Unit {0}
Marks id (ok (r, s')) = r.outcome ≡ delivered → IsMarked id s'

settled-Marks :
    (transport : ℕ → Option TransportResult) (clock : ℕ → ℕ) (delivery_id : String)
    (envelope : WebhookEnvelope) (e : Ending) (s : WebhookDeliveryService)
    → IsSettled s.max_attempts e
    → IsHonest e
    → Marks envelope.event_id (ok (settled transport clock delivery_id envelope e s))
unfolding settled result_of IsSettled IsHonest Marks
settled-Marks transport clock i envelope (arrived n h) s b t says =
    (_, get-set_self envelope.event_id _ s.delivered_events)
settled-Marks transport clock i envelope (lost o n h) s b t says = absurd (t says)
settled-Marks transport clock i envelope (ran_out n h) s b t says = absurd (omega arith)

by_prior-Marks :
    (transport : ℕ → Option TransportResult) (clock : ℕ → ℕ) (delivery_id : String)
    (envelope : WebhookEnvelope) (o : Option Delivered) (s : WebhookDeliveryService)
    → 1 ≤ s.max_attempts
    → Marks envelope.event_id (ok (by_prior transport clock delivery_id envelope o s))
unfolding by_prior result_of Marks
by_prior-Marks transport clock i envelope (some d) s b says = absurd (cc says)
by_prior-Marks transport clock i envelope none s b says =
    settled-Marks transport clock i envelope _ s
      (attempts_from-IsSettled transport clock s.max_attempts s.max_attempts 0 [] (omega arith) b)
      (attempts_from-IsHonest transport clock s.max_attempts s.max_attempts 0 []) says

made-Marks :
    (x : Delivery) (s : WebhookDeliveryService)
    → 1 ≤ s.max_attempts
    → Marks x.envelope.event_id (made x s)
unfolding deliver result_of Marks
made-Marks x s b = elim (Bool-cases (x.secret == "")) [
  | inl n ↦ rw n tt
  | inr k ↦ elim (Bool-cases (is_blank x.target_id)) [
    | inl n ↦ rw (k, n) (λ says. absurd (cc says))
    | inr t ↦ rw (k, t) (by_prior-Marks x.transport x.clock x.delivery_id x.envelope _ s b)
  ]
]

-- No call takes the mark of an event away.
Keeps : String → WebhookDeliveryService → Result (DeliveryResult × WebhookDeliveryService) → Type 0
unfolding after_call
Keeps id s r = IsMarked id s → IsMarked id (after_call r s)

settled-Keeps :
    (transport : ℕ → Option TransportResult) (clock : ℕ → ℕ) (delivery_id : String)
    (envelope : WebhookEnvelope) (e : Ending) (s : WebhookDeliveryService) (id : String)
    → Keeps id s (ok (settled transport clock delivery_id envelope e s))
unfolding settled Keeps
settled-Keeps transport clock i envelope (arrived n h) s id (d, g) =
    let new : Delivered = record { at = clock n; attempts = n } in
    elim (Bool-cases (envelope.event_id == id)) [
      | inl same ↦ (new, rw (get-set envelope.event_id id new s.delivered_events, same) refl)
      | inr other ↦ (d, rw (get-set envelope.event_id id new s.delivered_events, other) g)
    ]
settled-Keeps transport clock i envelope (lost o n h) s id m = m
settled-Keeps transport clock i envelope (ran_out n h) s id m = m

by_prior-Keeps :
    (transport : ℕ → Option TransportResult) (clock : ℕ → ℕ) (delivery_id : String)
    (envelope : WebhookEnvelope) (o : Option Delivered) (s : WebhookDeliveryService) (id : String)
    → Keeps id s (ok (by_prior transport clock delivery_id envelope o s))
unfolding by_prior Keeps
by_prior-Keeps transport clock i envelope (some d) s id m = m
by_prior-Keeps transport clock i envelope none s id m =
    settled-Keeps transport clock i envelope _ s id m

made-Keeps : (x : Delivery) (s : WebhookDeliveryService) (id : String) → Keeps id s (made x s)
unfolding deliver Keeps
made-Keeps x s id m = elim (Bool-cases (x.secret == "")) [
  | inl n ↦ rw n m
  | inr k ↦ elim (Bool-cases (is_blank x.target_id)) [
    | inl n ↦ rw (k, n) m
    | inr t ↦ rw (k, t) (by_prior-Keeps x.transport x.clock x.delivery_id x.envelope _ s id m)
  ]
]

run-IsMarked :
    (xs : List Delivery) (s : WebhookDeliveryService) (id : String)
    → IsMarked id s
    → IsMarked id (run xs s)
unfolding run Keeps
run-IsMarked [] s id m = m
run-IsMarked (x ∷ xs) s id m = run-IsMarked xs _ id (made-Keeps x s id m)

-- Once a delivery, by a service that may attempt at all, has said delivered, a later one of an event with that
-- id, with a secret and a target, whatever deliveries come between, answers DELIVERED_DUPLICATE
-- under that id, with no attempt and no dead letter, and changes nothing.
pub delivered_once :
    (x y : Delivery) (between : List Delivery) (s s' : WebhookDeliveryService) (r : DeliveryResult)
    → 1 ≤ s.max_attempts
    → made x s ≡ ok (r, s')
    → r.outcome ≡ delivered
    → y.envelope.event_id ≡ x.envelope.event_id
    → y.secret == "" ≡ false
    → is_blank y.target_id ≡ false
    → (r' : DeliveryResult) × (made y (run between s') ≡ ok (r', run between s'))
      × (r'.outcome ≡ delivered_duplicate)
      × (r'.attempts ≡ [])
      × (r'.dead_lettered ≡ false)
      × (r'.event_id ≡ x.envelope.event_id)
unfolding deliver by_prior result_of Marks
delivered_once x y between s s' r b first says same keyed aimed =
    let marked : IsMarked x.envelope.event_id s' =
      subst (Marks x.envelope.event_id) first (made-Marks x s b) says in
    let (d, found) = run-IsMarked between s' x.envelope.event_id marked in
    (
      result_of y.transport y.clock y.delivery_id y.envelope delivered_duplicate [] false,
      rw (keyed, aimed, same, found) refl,
      refl,
      refl,
      refl,
      same,
    )
