-- ===== src/LawShield/Ledger/Inquiry.antt =====
-- The status that law-shield/lawshield/durable/processor.js reports of what it gave a receipt for.
use arma_partner_api_sandbox.Prelude.{String, Option, some, ◌≡◌, ◌≢◌}
use arma_partner_api_sandbox.Prelude.Map.{get}
use arma_partner_api_sandbox.LawShield.Store.{Store, accepted, Receipt}
use arma_partner_api_sandbox.LawShield.Store.Writes.{get_durable_transfer}
use arma_partner_api_sandbox.LawShield.Processor.Status.{
  StatusBody, transfer_found, status_of, build_status_response, build_status_response-stored,
}
use arma_partner_api_sandbox.LawShield.Ledger.Invariant.{IsValid}

-- In a valid store, the status of the transfer that a stored receipt is for is ACCEPTED, with the
-- payload hash of the receipt, if its id is not empty.
pub receipt-status :
    (s : Store) (id : String) (r : Receipt) (key : Option String) (schema_version : String)
    → IsValid s
    → get id s.receipts ≡ some r
    → r.transfer_id ≢ ""
    → (b : StatusBody) × (build_status_response s (some r.transfer_id) key schema_version
        ≡ transfer_found b)
      × (b.status ≡ accepted)
      × (b.payload_hash ≡ r.payload_hash)
unfolding status_of get_durable_transfer
receipt-status s id r key schema_version v h n =
    let own = v.receipts id r h in
    (
      status_of s own.transfer,
      build_status_response-stored s r.transfer_id key schema_version own.transfer n own.stored,
      own.status,
      own.payload,
    )
