-- ===== src/Lib.antt =====
-- The sandbox of a partner API: the reference server of the PATCHES partner API (patches/lib), the
-- SDK that partners share (shared/sdk), its webhooks (shared/webhooks), and the governance of AI output and protected actions
-- (ai-governance), and the transfers to Law Shield (law-shield).
--
-- A request of a partner is authenticated (patches/lib/security.ts, Patches/Security), counted by the
-- rate limiter (patches/lib/rateLimit.ts, Patches/RateLimit), checked against the policies
-- (patches/lib/policy.ts, Patches/Policy) and carried out by a pipeline of patches/lib/server.ts on
-- the store of patches/lib/store.ts (Patches/Store). `processActivation` is Patches/Activation: the
-- code before its `await` is `prepare`, the code after it `settle`, since other requests run in
-- between. `processActivationStateChange` is Patches/StateChange. Bodies of answers are in
-- Patches/Bodies.
--
-- The store is a record of association lists (Prelude/Map), one for each `Map` of the class. Code
-- that changes it and may throw has the type `Exec`: what it wrote before a throw stays written,
-- and only `run_transaction` takes it back. The fail points of the class are fields of the store.
--
-- Sdk/Retries and Sdk/Circuit are shared/sdk/retries.ts; Sdk/Idempotency and Sdk/Replay are
-- shared/sdk/idempotency.ts. A method that changes its object returns the new one.
--
-- Governance/Classification, Audit, Store, HumanReview, Provenance, Deterministic and Protected are the
-- files of ai-governance with those words in their names (deterministicRules.ts,
-- protectedActions.ts). A protected action is judged without a change of the store (`judge`), then
-- the decision is recorded (`decide`). An envelope is the object that is presented, field by field,
-- since the verifiers trust no type.
--
-- Webhooks/Guard is `WebhookEventGuard` of shared/webhooks/events.ts, Webhooks/Delivery is
-- shared/webhooks/delivery.ts; the attempts of a delivery are counted down from the most allowed.
--
-- LawShield/Store is law-shield/lawshield/durable/store.js, LawShield/Processor processor.js beside it:
-- Writes are the bodies of its transactions, Decide is `processTransferRequest`, Status the inquiry of
-- reconciliation, Handler the HTTP handler. LawShield/Disclosure is `enforceDisclosurePolicy`,
-- LawShield/Envelope the `validateEnvelope` of law-shield/lawshield/_integrationSecurity.js with its
-- regular expressions (Screening), LawShield/Redaction is law-shield/arma/redaction.js, which the sender
-- runs before the processor's policy. `validate_envelope` returns the fields it has checked; the readings of
-- `Date.now()` during one request are one, `clock`. What the processor promises is the abstract
-- LawShield/Ledger: the first decision on each idempotency key, forgetting times, ids of receipts and
-- the order of the store; its modules show that the processor takes the ledger's steps.
--
-- LawShield/Authorization is law-shield/arma/authorizationGuard.js and LawShield/Reconciliation
-- law-shield/arma/reconciliation.js, each over the part of law-shield/arma/persistence.js it uses: users,
-- mappings, reconciliations, and of a transfer its organization.
--
-- Each file of definitions has its theorems in the modules below it, named for what they are about.
-- Tests holds runs and the theorems at concrete inputs.
--
-- Numbers are natural: times, counts and the numbers of JSON are never negative or fractional
-- here, so a confidence is 0 or 1, and a timestamp header of sixteen digits is not rounded. The clock's reading
-- is an argument. The token bucket counts thousandths of tokens exactly,
-- where the program adds doubles and rounds, so nothing is claimed of a call exactly at retryAfterMs. Text is compared as code points.
-- The one loop on fuel is the writing of a
-- decimal number, with more fuel than digits.
--
-- Parameters stand for what is not in the repository: HMAC and SHA-256 of node:crypto, the secret
-- store, the downstream protection service, the transport of webhooks, the hash of a body's JSON text, and
-- for Law Shield the record `Platform`: SHA-256, JSON both ways and the text of a value in a template.
--
-- Not modelled: the HTTP handler of patches/lib/server.ts with its routes and read-only answers, the making of envelopes, the
-- building, signing and verifying of webhooks, the partner registry, the SDK's client, errors and canonical form, observability, the guards on
-- AI output and external data, the gateway's own
-- checks and the transfer service of law-shield/arma with its retries and receipts, the PATCHES client (patches/arma), the
-- simulators, which drive the other parts for tests, and the certification script, which is input and output.
pub mod Prelude
pub mod Sdk
pub mod Patches
pub mod Governance
pub mod Webhooks
pub mod LawShield
