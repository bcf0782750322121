-- ===== src/Lib.antt =====
-- Verification of sonotxt, a text-to-speech service: an HTTP API (sonotxt-api), GPU workers
-- (sonotxt-worker) and the code they share (sonotxt-core).
--
-- The API takes requests, charges the user's TXT balance or payment channel, routes the synthesis
-- to a worker of its pool, and talks to workers over QUIC in length-prefixed messages whose
-- payloads are encrypted in Noise sessions.
--
--   Base      shared: Boolean tests, lists, integers, bytes, errors (sonotxt-core/src/error.rs),
--             maps as association lists, and actions: handlers over a shared state, with a
--             schedule that says what other tasks do between statements and which statements fail
--   Wire      sonotxt-core/src/protocol.rs, `Message::encode` and `Message::decode`, and
--             `read_message` and `write_message` of sonotxt-core/src/quic.rs
--   Noise     sonotxt-core/src/noise.rs: the chunked transport, `NoiseClient`, `NoiseServer`
--   Link      both sides of a connection: the worker's streams (sonotxt-worker/src/quic.rs and
--             processor.rs) and the API's calls (sonotxt-api/src/services/quic_pool.rs), on Wire
--             and Noise
--   Billing   sonotxt-api/src/services/billing.rs, the charges of the channels of services/sono.rs
--             (Billing/Channel), and `withdraw_txt` of routes/billing.rs, which sends by
--             `drip_testnet` of Sono
--   Sono      sonotxt-api/src/services/sono.rs, the service's side of the payment channels: the
--             listener that follows the events of the contract (Sono/Listener, with what the
--             events mean in Sono/Chain), signed states, settlements, the reserves behind the price
--             of DOT (Sono/Prices), and the handlers of routes/sono.rs (Sono/Routes)
--   Login     sonotxt-api/src/services/user_auth.rs: registration, the challenges and logins by
--             nickname, public key and wallet, sessions, the rate limit of attempts, addresses in
--             SS58 (also `ss58_to_h160` of routes/sono.rs), and the handlers of routes/user_auth.rs
--   Access    the extractors of users, `AuthenticatedUser` of sonotxt-api/src/auth/api_key.rs and
--             `TtsUser` of auth/free_tier.rs, over redis and the tables
--   Api       the endpoint of synthesis, `tts` of sonotxt-api/src/routes/api.rs, and the allowances
--             of auth/free_tier.rs that it grants
--   Jobs      sonotxt-api/src/job_worker.rs: the queue of jobs and the worker that empties it
--   Payments  the credit of deposits in sonotxt-api/src/services/payments/mod.rs, the deposits on the
--             asset hub and penumbra (`on_deposit` and `record_deposit` of payments/assethub.rs and
--             payments/penumbra.rs), the addresses of `AssetHubService`, and the webhook of Stripe
--             in routes/payments.rs, which credits TXT by Billing, and the scanner of
--             payments/zcash.rs
--   Vault     sonotxt-api/src/routes/vault.rs, the encrypted store of users, with `upload` of
--             sonotxt-core/src/storage.rs
--   Contacts  sonotxt-api/src/routes/contacts.rs, invitations between users
--   P2p       sonotxt-api/src/routes/p2p.rs, the sessions in which two peers find each other
--   Crawler   sonotxt-api/src/services/crawler.rs, the text of a page
--   Sites     sonotxt-api/src/routes/sites.rs, sites, their content, which Crawler reads, and its
--             versions
--   Pool      sonotxt-api/src/services/worker_pool.rs: the choice of a worker, calls with timeouts
--             and retries, health checks
--
-- Access yields the user that `tts` of Api serves, which calls `check_and_charge` of Billing and
-- queues jobs, and Jobs takes them to the pool, whose answer it has as a parameter.
--
-- Parameters stand for code that is not part of the repository: serde_json (`to_vec`, `from_slice`,
-- the record `Json` of Link), the snow crate (the record `Snow`, with what it documents in `InStep`
-- and `Handshakes`), hashes, signatures, hex and base58 with the tables of Unicode (the record
-- `Env` of Login), what the network answers, the node of the chain and the contract (the record
-- `Provider` of Sono), what hwpay verifies and parses of a webhook, what derives an address,
-- whether sqlx decodes a sum (`reads_numeric` of Vault), the parser of UUIDs, base64, LOWER and
-- LIKE of the database, the HTML parser and its selectors, and the local services of a worker.
-- `ss58_to_h160` is a parameter of Billing and Api, which hold addresses as numbers, and so are the
-- price of a text, the rates of TXT and zcash, and the cost of publishing, which the code computes
-- in floating point.
--
-- Two definitions run on fuel, the length of what they take apart: `chunks` of Noise/Chunks and
-- `trim_prefix` of Payments/Zcash. Each round takes at least one element away, so it is enough.
-- The other loops are structural recursion over chunks, workers, payments, or the number of
-- attempts left.
--
-- Not modelled: amounts in floating point, overflow of the database's bigint columns, the
-- transactions on the chain, TLS and QUIC set-up, the HTTP routes other than those named, magic
-- links, services/payments/stripe.rs, which nothing calls, the addresses of penumbra, and the
-- former single crate under src/.
pub mod Base
pub mod Wire
pub mod Noise
pub mod Billing
pub mod Pool
pub mod Link
pub mod Sono
pub mod Api
pub mod Access
pub mod Jobs
pub mod Login
pub mod Payments
pub mod Vault
pub mod Sites
pub mod Crawler
pub mod Contacts
pub mod P2p
