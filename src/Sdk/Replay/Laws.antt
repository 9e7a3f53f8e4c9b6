-- ===== src/Sdk/Replay/Laws.antt =====
-- A nonce that the guard of shared/sdk/idempotency.ts has let through is burnt for the window.
use arma_partner_api_sandbox.Prelude.{
  ℕ, ◌+◌, ◌≡◌, ◌≢◌, ◌≤◌, String, Option, some, List, [], ◌∷◌, ltb, not, arith, ok, ◌==◌, eq_iff,
  eq_refl, joined, All, Bool-cases, inl, inr,
}
use arma_partner_api_sandbox.Prelude.Map.{get, delete, get-set, get-delete, get-retain_keeps}
use arma_partner_api_sandbox.Sdk.Idempotency.{composite_key}
use arma_partner_api_sandbox.Sdk.Replay.{
  NonceRecord, ReplayGuard, accepted, replayed, check_found, check, Use, check_at, prune_at, step,
  run,
}

abbrev pub time_of : Use → ℕ
time_of (check_at now _ _ _) = now
time_of (prune_at now) = now

-- The guard holds `n` under `key`, with the window `w`.
pub record Holds (g : ReplayGuard) (w : ℕ) (key : String) (n : NonceRecord) : Type 0 where
  pub window : g.window_ms ≡ w
  pub held : get key g.nonces ≡ some n

check_found-Holds :
    (g : ReplayGuard) (w : ℕ) (key : String) (n : NonceRecord) (now : ℕ) (k : String)
    (id : Option String)
    → Holds g w key n
    → now ≤ n.first_seen_at + w
    → Holds (check_found g now k id (get k g.nonces)).0 w key n
unfolding check_found
check_found-Holds g w key n now k id h t =
    let v : NonceRecord = record { first_seen_at = now; first_seen_request_id = id } in
    record {
      window = ground (arith, h.window);
      held = ground (
        arith,
        eq_iff k key,
        get-set k key v g.nonces,
        get-set k key v (delete k g.nonces),
        get-delete k key g.nonces,
      );
    }

step-Holds :
    (g : ReplayGuard) (w : ℕ) (key : String) (n : NonceRecord) (u : Use)
    → Holds g w key n
    → time_of u ≤ n.first_seen_at + w
    → Holds (step g u) w key n
unfolding step composite_key
step-Holds g w key n (check_at now scope nonce id) h t = elim (Bool-cases (scope == "")) [
  | inl bad ↦ rw bad h
  | inr fine ↦ rw fine (check_found-Holds g w key n now (joined scope nonce) id h t)
]
step-Holds g w key n (prune_at now) h t = record {
  window = h.window;
  held =
      get-retain_keeps (λ n. not (ltb (n.first_seen_at + g.window_ms) now)) key g.nonces n h.held
        (ground (arith, h.window));
}

run-Holds :
    (g : ReplayGuard) (w : ℕ) (key : String) (n : NonceRecord) (us : List Use)
    → Holds g w key n
    → All (λ u. time_of u ≤ n.first_seen_at + w) us
    → Holds (run g us) w key n
unfolding run
run-Holds g w key n [] h ts = h
run-Holds g w key n (u ∷ us) h (t, ts) =
    run-Holds (step g u) w key n us (step-Holds g w key n u h t) ts

pub check-Holds :
    (g : ReplayGuard) (now : ℕ) (scope nonce : String) (id : Option String) (g' : ReplayGuard)
    → check g now scope nonce id ≡ ok (g', accepted)
    → Holds g' g.window_ms
        (joined scope nonce)
        (record { first_seen_at = now; first_seen_request_id = id })
unfolding check composite_key
check-Holds g now scope nonce id g' h =
    let v : NonceRecord = record { first_seen_at = now; first_seen_request_id = id } in
    let k = joined scope nonce in
    record {
      window = ground arith;
      held = ground (arith, get-set k k v g.nonces, get-set k k v (delete k g.nonces), eq_refl k);
    }

pub check_held :
    (g : ReplayGuard) (now : ℕ) (scope nonce : String) (id : Option String) (w : ℕ)
    (n : NonceRecord)
    → scope ≢ ""
    → Holds g w (joined scope nonce) n
    → now ≤ n.first_seen_at + w
    → check g now scope nonce id ≡ ok (g, replayed n)
unfolding check composite_key
check_held g now scope nonce id w n s h t = ground (arith, eq_iff scope "", h.held, h.window)

scope-ne-empty :
    (g : ReplayGuard) (now : ℕ) (scope nonce : String) (id : Option String) (g' : ReplayGuard)
    → check g now scope nonce id ≡ ok (g', accepted)
    → scope ≢ ""
unfolding check composite_key
scope-ne-empty g now scope nonce id g' h = λ e. ground (arith, eq_iff scope "")

-- Once a nonce has been let through at a time, then, whatever checks and prunings follow at times
-- not past the end of its window and in any order, presenting it again within the window is refused
-- with the first use's time and request, and changes nothing.
pub check-replayed :
    (g : ReplayGuard) (at : ℕ) (scope nonce : String) (id : Option String) (g' : ReplayGuard)
    (us : List Use) (now : ℕ) (id' : Option String)
    → check g at scope nonce id ≡ ok (g', accepted)
    → All (λ u. time_of u ≤ at + g.window_ms) us
    → now ≤ at + g.window_ms
    → check (run g' us) now scope nonce id'
      ≡ ok (run g' us, replayed (record { first_seen_at = at; first_seen_request_id = id }))
check-replayed g at scope nonce id g' us now id' h ts t =
    check_held (run g' us) now scope nonce id' g.window_ms
      (record { first_seen_at = at; first_seen_request_id = id })
      (scope-ne-empty g at scope nonce id g' h)
      (run-Holds g' g.window_ms (joined scope nonce)
        (record { first_seen_at = at; first_seen_request_id = id }) us
        (check-Holds g at scope nonce id g' h) ts)
      t
