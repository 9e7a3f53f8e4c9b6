-- ===== src/LawShield/Ledger/Invariant.antt =====
-- How the bindings, transfers and receipts of the store of law-shield/lawshield/durable/store.js
-- belong together, and the writes that keep it so.
use mathlib.Core.Path.{subst}
use text.Mathlib.TextLemmas.{append_cancel_left}
use arma_partner_api_sandbox.Prelude.{
  String, none, some, ◌≡◌, ◌≢◌, sym, ap, ◌∙◌, ◌<+>◌, ◌==◌, eq_iff, Bool-cases, inl, inr,
}
use arma_partner_api_sandbox.Prelude.Map.{Map, get, set, get-set_self, get-set_ne, empty, get-empty}
use arma_partner_api_sandbox.LawShield.Store.{Store, accepted, Binding, Transfer, Receipt}

-- the receipt that a binding names
pub record HasReceipt (b : Binding) (rs : Map Receipt) : Type 0 where
  pub receipt_id : String
  pub receipt : Receipt
  pub named : b.receipt_id ≡ some receipt_id
  pub stored : get receipt_id rs ≡ some receipt
  pub transfer : receipt.transfer_id ≡ b.transfer_id
  pub payload : receipt.payload_hash ≡ b.payload_hash

-- the accepted transfer of a receipt
pub record HasTransfer (id : String) (r : Receipt) (ts : Map Transfer) : Type 0 where
  pub transfer : Transfer
  pub named : id ≡ "RCP-" <+> r.transfer_id
  pub stored : get r.transfer_id ts ≡ some transfer
  pub status : transfer.status ≡ accepted
  pub payload : transfer.payload_hash ≡ r.payload_hash

pub record IsConsistent (bs : Map Binding) (ts : Map Transfer) (rs : Map Receipt) : Type 0 where
  pub bound :
      (k : String) (b : Binding) → get k bs ≡ some b → b.outcome ≡ accepted → HasReceipt b rs
  pub receipts : (id : String) (r : Receipt) → get id rs ≡ some r → HasTransfer id r ts

abbrev pub IsValid : Store → Type 0
IsValid s = IsConsistent s.idempotency s.transfers s.receipts

pub empty-IsConsistent : IsConsistent empty empty empty
empty-IsConsistent = record {
  bound = λ k b h _. absurd (cc (h, get-empty {V = Binding} k));
  receipts = λ id r h. absurd (cc (h, get-empty {V = Receipt} id));
}

pub receipt_id_injective : (a b : String) → "RCP-" <+> a ≡ "RCP-" <+> b → a ≡ b
receipt_id_injective a b h = append_cancel_left "RCP-" a b h

unused-ne :
    {V : Type 0} (id j : String) (v : V) (m : Map V) → get id m ≡ none → get j m ≡ some v → id ≢ j
unused-ne id j v m n h = λ e. absurd (cc (n, h, e))

-- A transfer under an unused id.
pub set_transfer-IsConsistent :
    (bs : Map Binding) (ts : Map Transfer) (rs : Map Receipt) (id : String) (t : Transfer)
    → IsConsistent bs ts rs
    → get id ts ≡ none
    → IsConsistent bs (set id t ts) rs
set_transfer-IsConsistent bs ts rs id t c n = record {
  bound = c.bound;
  receipts = λ j r h.
      let own = c.receipts j r h in
      record {
        transfer = own.transfer;
        named = own.named;
        stored =
            get-set_ne id r.transfer_id t ts
              (unused-ne id r.transfer_id own.transfer ts n own.stored)
            ∙ own.stored;
        status = own.status;
        payload = own.payload;
      };
}

keep_receipt :
    (b : Binding) (rs : Map Receipt) (id : String) (r : Receipt)
    → get id rs ≡ none
    → HasReceipt b rs
    → HasReceipt b (set id r rs)
keep_receipt b rs id r n h = record {
  receipt_id = h.receipt_id;
  receipt = h.receipt;
  named = h.named;
  stored =
      get-set_ne id h.receipt_id r rs (unused-ne id h.receipt_id h.receipt rs n h.stored)
      ∙ h.stored;
  transfer = h.transfer;
  payload = h.payload;
}

set_receipt-owned :
    (ts : Map Transfer) (rs : Map Receipt) (id j : String) (r x : Receipt)
    → ((i : String) (y : Receipt) → get i rs ≡ some y → HasTransfer i y ts)
    → HasTransfer id r ts
    → get j (set id r rs) ≡ some x
    → HasTransfer j x ts
set_receipt-owned ts rs id j r x all own h = elim (Bool-cases (id == j)) [
  | inl same ↦
      let e = (eq_iff id j).0 same in
      let x-eq-r : r ≡ x = cc (get-set_self id r rs, h, e) in
      subst (λ z. HasTransfer j z ts) x-eq-r (subst (λ z. HasTransfer z r ts) e own)
  | inr other ↦
      all j x (sym (get-set_ne id j r rs (λ e. absurd (cc (((eq_iff id j).1 e), other)))) ∙ h)
]

-- A receipt of an accepted transfer, under an unused id.
pub set_receipt-IsConsistent :
    (bs : Map Binding) (ts : Map Transfer) (rs : Map Receipt) (id : String) (r : Receipt)
    → IsConsistent bs ts rs
    → get id rs ≡ none
    → HasTransfer id r ts
    → IsConsistent bs ts (set id r rs)
set_receipt-IsConsistent bs ts rs id r c n own = record {
  bound = λ k b h a. keep_receipt b rs id r n (c.bound k b h a);
  receipts = λ j x h. set_receipt-owned ts rs id j r x c.receipts own h;
}

-- A binding, with its receipt if it is accepted.
pub set_binding-IsConsistent :
    (bs : Map Binding) (ts : Map Transfer) (rs : Map Receipt) (k : String) (b : Binding)
    → IsConsistent bs ts rs
    → (b.outcome ≡ accepted → HasReceipt b rs)
    → IsConsistent (set k b bs) ts rs
set_binding-IsConsistent bs ts rs k b c own = record {
  receipts = c.receipts;
  bound = λ j x h a. elim (Bool-cases (k == j)) [
    | inl same ↦
        let b-eq-x : b ≡ x = cc (get-set_self k b bs, h, (eq_iff k j).0 same) in
        subst (λ z. HasReceipt z rs) b-eq-x (own (ap (λ z. z.outcome) b-eq-x ∙ a))
    | inr other ↦
        c.bound j x (sym (get-set_ne k j b bs (λ e. absurd (cc (((eq_iff k j).1 e), other)))) ∙ h) a
  ];
}
