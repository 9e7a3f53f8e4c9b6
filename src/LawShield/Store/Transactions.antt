-- ===== src/LawShield/Store/Transactions.antt =====
-- `runTransaction`, `snapshotState` and `restoreState` of law-shield/lawshield/durable/store.js. A
-- record's copy is the record, so the snapshot is the store itself.
pub mod Effects
pub mod Neutral
use arma_partner_api_sandbox.Prelude.{
  ◌+◌, ◌-◌, ◌≡◌, refl, ap, String, Bool, ltb, Result, ok, err, arith, ◌⊎◌, inl, inr,
}
use arma_partner_api_sandbox.LawShield.Store.{Store}
use arma_partner_api_sandbox.LawShield.Store.Exec.{Exec}

-- The collections and the audit counter come back; fail points and depth are not in the snapshot.
restore_state : Store → Store → Store
restore_state s snapshot = record snapshot { fail_points = s.fail_points; tx_depth = s.tx_depth }

finish : {A : Type 0} → Store → Result A → Store → Result A × Store
unfolding restore_state
finish snapshot (ok a) s = (ok a, record s { tx_depth = s.tx_depth - 1 })
finish snapshot (err e) s = (err e, restore_state (record s { tx_depth = s.tx_depth - 1 }) snapshot)

unfoldable pub run_transaction : {A : Type 0} → Exec A → Exec A
unfolding finish
run_transaction fn s = let (r, s') = fn (record s { tx_depth = s.tx_depth + 1 }) in finish s r s'

unfoldable pub is_in_transaction : Store → Bool
is_in_transaction s = ltb 0 s.tx_depth

-- Code that leaves the fail points and the depth of the transactions as it found them.
unfoldable pub IsNeutral : {A : Type 0} → Exec A → Type 0
IsNeutral fn =
    (s : Store) → ((fn s).1.fail_points ≡ s.fail_points) × ((fn s).1.tx_depth ≡ s.tx_depth)

finish-cases :
    {A : Type 0} (snapshot : Store) (r : Result A) (s : Store)
    → s.fail_points ≡ snapshot.fail_points
    → s.tx_depth ≡ snapshot.tx_depth + 1
    → ((e : String) × (r ≡ err e) × (finish snapshot r s ≡ (err e, snapshot)))
      ⊎ ((a : A) × (r ≡ ok a)
          × (finish snapshot r s ≡ (ok a, record s { tx_depth = snapshot.tx_depth })))
unfolding finish restore_state
finish-cases snapshot (ok a) s f d =
    inr (a, refl, ap (λ n. (ok a, record s { tx_depth = n })) (omega (arith, d)))
finish-cases snapshot (err e) s f d =
    let k : s.tx_depth - 1 ≡ snapshot.tx_depth = omega (arith, d) in
    inl (e, refl, λ i. (err e, record snapshot { fail_points = f i; tx_depth = k i }))

-- A transaction of such code throws and leaves the whole store as it was, or returns what the code
-- returns and leaves the store as the code does, with the depth it had before.
pub run_transaction-cases :
    {A : Type 0} (fn : Exec A) (s : Store)
    → IsNeutral fn
    → let inside = record s { tx_depth = s.tx_depth + 1 } in
      ((e : String) × ((fn inside).0 ≡ err e) × (run_transaction fn s ≡ (err e, s)))
      ⊎ ((a : A) × ((fn inside).0 ≡ ok a)
          × (run_transaction fn s ≡ (ok a, record ((fn inside).1) { tx_depth = s.tx_depth })))
unfolding run_transaction IsNeutral
run_transaction-cases fn s h =
    let inside = record s { tx_depth = s.tx_depth + 1 } in
    finish-cases s (fn inside).0 (fn inside).1 (h inside).0 (h inside).1
