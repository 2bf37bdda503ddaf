-- ===== src/Lib.antt =====
-- Verification of the order platform: an e-commerce back end of several services that keep an
-- order, its stock and its payment consistent through a saga. Each service writes to its own
-- PostgreSQL schema; what it has to tell the others it stores as a row of its `outbox` table in the
-- same transaction, and a timer publishes those rows to Kafka.
--
-- The parts and their files:
-- - packages/shared/src/index.ts: Shared (topics, routing keys, payloads, headers), Shared/Objects
--   (the members of a payload as JSON) and Shared/Schema (`orderCreateSchema` and `reportQuerySchema`).
-- - packages/database/src/index.ts: Database/Action (calls that may throw), Database/Columns (how a
--   JavaScript number reaches an INTEGER or NUMERIC column) and Database/Transaction
--   (`withTransaction`, with its try, catch and finally).
-- - packages/messaging/src/index.ts: Messaging (`publishEvent` and the `eachMessage` callback).
-- - what the three services repeat, `markEventProcessed`, the outbox statements and
--   services/outbox.service.ts: Service/Tables, Service/Once and Service/Outbox, instantiated in
--   Inventory/Repository and Payments/Repository.
-- - apps/order-service: Orders/Tables and Orders/Create (order.repository.ts and `createOrder`),
--   Orders/Saga (`handleSagaEvent` and consumers/order-saga.consumer.ts), Orders/Controller
--   (`createOrderController`), Orders/Listing (`listOrdersController`), Orders/Steps (how the schema
--   changes).
-- - apps/inventory-service: Inventory/Tables and Inventory/Handler (`handleInventoryCommand`).
-- - apps/payment-service: Payments/Handler (`handlePaymentCommand`).
-- - the schema `identity` and packages/auth/src/index.ts: Identity/Tables, Identity/Authorizations
--   (`getUserAuthorizations`), Identity/Secrets with Identity/Hex (`encryptSecret`, `decryptSecret`),
--   Identity/Tokens (`verifyIdToken`, the URLs and the calls of Auth0).
-- - apps/api-gateway: Gateway/Authz (services/authz.service.ts), with the token's check as a
--   parameter, and Gateway/Forward (controllers/order.controller.ts and order-forward.service.ts).
-- - apps/bff: Bff/Repository (repositories/session.repository.ts), Bff/Sessions
--   (services/session.service.ts), Bff/Auth (auth.controller.ts and admin.controller.ts), Bff/Orders
--   (order.controller.ts and gateway.service.ts), Bff/Http (requests, replies, cookie.service.ts) and
--   Bff/Routes (routes/index.ts); the other files of Bff prove things of these.
-- - scripts/seed.ts: Bff/Seed.
-- - Platform: the saga as a whole, the three schemas and Kafka's log as one state (System), what
--   messages and rows say of the request of their order (Said, Records), how each consumer keeps that
--   (Ordering, Reservations, Stocking, Paying) and what follows (Invariant, Safety); and Entry, the
--   way of an order request through apps/bff and apps/api-gateway to order-service.
-- - Tests: the theorems at concrete inputs, and runs on sample data.
--
-- How the code is read:
-- - A service's schema is a record of its own tables, its outbox and its processed events; rows
--   stand in the order of `created_at`, and time stamps are not modelled. A call is a function from
--   the schema to a result or an error and the schema; what undoes a call is the rollback.
-- - What can fail outside the code is an argument: for a transaction each of connect, BEGIN, COMMIT
--   (refused, or applied with its acknowledgement lost) and ROLLBACK; for a turn of the outbox loop
--   the send and the mark.
-- - `crypto.randomUUID()` results are arguments. `toUpperCase`, `JSON.stringify` and SHA-256 are
--   fields of a parameter, `Runtime`, and no theorem assumes anything of them.
-- - A JavaScript number is an exact decimal (a sign, digits, places), and is written to a column
--   with the column's range check and rounding. The INTEGER columns take values in [-2^31, 2^31).
-- - A text that comes out of a message and goes to a UUID column (`order_id` of the reservations and of
--   the payment attempts, `id` of the orders) is refused with an error if it is no UUID. A UUID is
--   read in the form that `crypto.randomUUID()` writes; PostgreSQL knows other spellings of the same
--   id, and no code of the repository makes them. Ids that the code draws are not tested.
-- - A pooled connection keeps the state of its transaction. `withTransaction` takes a connection
--   without one, and Database/Atomicity shows that it gives back none with one, whatever fails.
-- - The text of a Kafka message's value is the sequence of its object's members, with the names that
--   the services read (Shared/Objects). `JSON.stringify` writes the members that are not `undefined`,
--   `JSON.parse` sets each in turn, and a later member of a name wins; that what was written of a payload
--   is read as that payload is proved there. The spelling of a member, its quotes and escapes, and
--   the UTF-8 bytes are not modelled, nor is a member whose value has another type than the one that the
--   services write under its name. A text that `JSON.parse` refuses is `malformed`.
-- - All functions are total by structural recursion; no fuel is needed. A batch has 25 rows, as in
--   the code.
-- - Of concurrent requests, the look-up and the insertion are separate steps: Orders/Steps lets an
--   insertion rest on any earlier read.
-- - In Platform, `drawn` names for each order id the one request whose call of `createOrder` drew it:
--   no two calls draw the same id. Kafka delivers to a consumer any message of the log on a topic it
--   subscribes to, any number of times and in any order; nothing else reaches it.
-- - A statement of apps/bff runs on the pool, outside a transaction: each has a failure of its own as
--   an argument, and what the ones before it wrote stays. Times there are numbers of milliseconds,
--   and the one reading of the clock in a request is an argument. No code deletes a user, so the
--   foreign keys to users hold. A token response has an access token and a lifetime in seconds.
-- - AES-256-GCM, SHA-256, the signing of cookies, the JSON text of a login transaction, `jwtVerify` and
--   Auth0 are parameters. Of the cipher it is assumed, as IsCipher, that it gives bytes and decrypts
--   what it encrypted under the same key and IV; and one theorem assumes that a token response lasts
--   longer than the refresh window.
-- - The headers of a request between services are the object that the code hands to `fetch`, with its
--   spreads; the receiver reads them by name. Their names are in lower case. An order body that one
--   service sends as JSON is read by the next with the same texts and numbers (`json_body`), and
--   `genReqId` takes the correlation header for the request's id.
--
-- Not modelled: the resilience and configuration packages, the shared Kafka producer and its SASL
-- settings, rate limits, the circuit breaker's states, logging, health routes and process start, and
-- Kafka's and PostgreSQL's own working.
pub mod Prelude
pub mod Shared
pub mod Database
pub mod Messaging
pub mod Service
pub mod Orders
pub mod Inventory
pub mod Payments
pub mod Identity
pub mod Gateway
pub mod Bff
pub mod Platform
pub mod Tests
