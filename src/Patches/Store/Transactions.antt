-- ===== src/Patches/Store/Transactions.antt =====
-- `runTransaction`, `serializeStore` and `restoreStore` of patches/lib/store.ts. A record's copy is
-- the record, so the snapshot is the store itself; it has no `txDepth`.
use arma_partner_api_sandbox.Prelude.{
  String, ◌≡◌, Result, ok, err, arith, ltb, if◌then◌else◌, ap, sym, Bool-cases, inl, inr,
}
use arma_partner_api_sandbox.Patches.Store.{Store}
use arma_partner_api_sandbox.Patches.Store.Exec.{Exec}

-- Every collection, the fail points and the audit counter come back; `txDepth` does not.
restore_store : Store → Store → Store
restore_store target snapshot = record snapshot { tx_depth = target.tx_depth }

finish : {A : Type 0} → Store → Result A → Store → Result A × Store
unfolding restore_store
finish snapshot (ok a) s = (ok a, record s { tx_depth = 0 })
finish snapshot (err e) s = (err e, record (restore_store s snapshot) { tx_depth = 0 })

-- `txDepth > 0`: a nested call joins the outer transaction.
unfoldable pub run_transaction : {A : Type 0} → Exec A → Exec A
unfolding finish
run_transaction fn s =
    if ltb 0 s.tx_depth then fn s else let (r, s') = fn (record s { tx_depth = 1 }) in finish s r s'

finish-err :
    {A : Type 0} (snapshot : Store) (r : Result A) (s : Store) (e : String)
    → snapshot.tx_depth ≡ 0
    → (finish snapshot r s).0 ≡ err e
    → (finish snapshot r s).1 ≡ snapshot
unfolding finish
finish-err snapshot (ok a) s e d h = absurd (cc h)
finish-err snapshot (err x) s e d h = ap (λ n. record snapshot { tx_depth = n }) (sym d)

finish_throws :
    {A : Type 0} (snapshot : Store) (r : Result A) (s : Store) (e : String)
    → r ≡ err e
    → (finish snapshot r s).0 ≡ err e
unfolding finish
finish_throws snapshot (ok a) s e h = absurd (cc h)
finish_throws snapshot (err x) s e h = h

-- Outside a transaction, code that throws leaves the whole store as it was, whatever it had written.
pub run_transaction_rollback :
    {A : Type 0} (fn : Exec A) (s : Store) (e : String)
    → s.tx_depth ≡ 0
    → (run_transaction fn s).0 ≡ err e
    → (run_transaction fn s).1 ≡ s
unfolding run_transaction
run_transaction_rollback fn s e d = elim (Bool-cases (ltb 0 s.tx_depth)) [
  | inl nested ↦ absurd (ground arith)
  | inr outer ↦
      rw outer
        (finish-err s (fn (record s { tx_depth = 1 })).0 (fn (record s { tx_depth = 1 })).1 e d)
]

pub run_transaction-err :
    {A : Type 0} (fn : Exec A) (s : Store) (e : String)
    → s.tx_depth ≡ 0
    → (fn (record s { tx_depth = 1 })).0 ≡ err e
    → (run_transaction fn s).0 ≡ err e
unfolding run_transaction
run_transaction-err fn s e d h = elim (Bool-cases (ltb 0 s.tx_depth)) [
  | inl nested ↦ absurd (ground arith)
  | inr outer ↦ rw outer (finish_throws s (fn (record s { tx_depth = 1 })).0 _ e h)
]

finish_returns :
    {A : Type 0} (snapshot : Store) (r : Result A) (s : Store) (a : A)
    → r ≡ ok a
    → finish snapshot r s ≡ (ok a, record s { tx_depth = 0 })
unfolding finish
finish_returns snapshot (ok b) s a h = λ i. (h i, record s { tx_depth = 0 })
finish_returns snapshot (err x) s a h = absurd (cc h)

pub run_transaction-ok :
    {A : Type 0} (fn : Exec A) (s : Store) (a : A)
    → s.tx_depth ≡ 0
    → (fn (record s { tx_depth = 1 })).0 ≡ ok a
    → run_transaction fn s ≡ (ok a, record ((fn (record s { tx_depth = 1 })).1) { tx_depth = 0 })
unfolding run_transaction
run_transaction-ok fn s a d h = elim (Bool-cases (ltb 0 s.tx_depth)) [
  | inl nested ↦ absurd (ground arith)
  | inr outer ↦ rw outer (finish_returns s (fn (record s { tx_depth = 1 })).0 _ a h)
]
