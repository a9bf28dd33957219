-- ===== src/Lib.antt =====
-- Verification of the Blink Lightning gateway, the service that issues Lightning invoices for wallets,
-- pays invoices over LND or inside the ledger, and announces each change in an outbox.
--
-- Parts and files:
-- - Primitives: amounts (src/primitives/milli_satoshi.rs, in Primitives/Amount), byte arrays with hex
--   texts (preimage.rs, payment_hash.rs and pubkey.rs, in Primitives/Hex), and identifiers, texts and
--   instants (Primitives/Types). An amount is a natural number; where the `u64` of the code overflows
--   is said by separate functions. The `hex` crate is a record with the law that decoding inverts
--   encoding; SHA-256 is a function.
-- - Fees: `LnFees::max_for` of src/fees/policy.rs.
-- - Invoice and Payment: the two event-sourced aggregates (src/invoice and src/payment). Entity has the
--   constructors and the commands; a command takes `&mut self`, so it returns its result and the entity
--   that it leaves. Event has the events and errors, Hydration has `try_from_events`. Lifecycle has the
--   life of an entity as a small state machine, which the commands refine. The log of the `es-entity`
--   crate is the record `EventLog`, with the laws of appending and of `idempotency_guard!`.
-- - Outbox: the events that are announced (src/outbox/entity.rs), their names and their wire form
--   (Event); the table with its queries (publisher.rs, in Store); the connection that listens to
--   Postgres, and the task that reads the notified rows (listen_connection.rs and fanout.rs, in Listen).
-- - Symphony and Lnd: the types of the two adapters (src/symphony, src/lnd), and what the gateway reads
--   from their answers. Symphony/Requests has the client of Symphony, Lnd/Client the seven calls of
--   LND, Lnd/Listen the two tasks that follow it (src/lnd/invoice.rs and subscription.rs), and
--   Lnd/Dispatch the set of invoices with a listener (src/app/handle_invoice_update.rs).
-- - Wallet: the ownership check with its cache (src/wallet/ownership.rs).
-- - Server: the keys of the token issuer and the caller of a request (src/server/jwks.rs, graphql.rs).
-- - App: the use cases (src/app). Postgres, LND, Symphony, the ownership check and the clock are the
--   record `World` of App/World, whose answers may depend on everything that was done before, so that
--   other processes may change the database between any two calls. A use case is a function of the past,
--   newest effect first, to its result and the longer past; a row is in the past when it was written,
--   and counts when `committed` follows. Commit, Issue, Receive, Requests, Intraledger, Send and
--   Track have the definitions, Jobs the fee probe and the jobs of src/job over the rows of Invoice/Repo
--   (src/invoice/repo.rs), and the other children of App what is proved of them.
-- - Grpc: the event stream of the gRPC service (src/api/grpc): the backfill of the events that a
--   subscriber missed, and the live loop with its recovery.
-- - Api: the statuses that the GraphQL API reports (src/api/graphql), the stream of one subscriber over
--   live events (Status), that of any subscriber, resumed or not (Subscription), and the three
--   mutations, from the typed input to the payload (Mutation).
-- - Examples: the theorems at concrete inputs.
--
-- How they interact: a use case writes an entity and its outbox event in one transaction; Postgres
-- notifies the listener of the sequence; the gRPC stream and the GraphQL streams read the row by it, and
-- read the missed rows page by page. LND's listeners call the use cases that receive and track.
--
-- Loops are structural recursion over what is read, sent or notified. Two loops read the outbox page by
-- page until a page is empty and run on fuel: the backfills of Grpc/Service and Api/Subscription. A
-- backfill is refused above 100,000 events and a page has 1,000, so 101 rounds are enough while the
-- queries answer (Grpc/Backfill, Api/Resumed); without fuel the outcome is a value of its own. Log
-- lines, tracing spans and sleeps are dropped. Unsigned sums and products of the use cases wrap, as in a
-- release build. Not modelled: the servers and the start of the process (src/server.rs, src/cli.rs), the
-- configuration, the scheduling of the jobs, the code that `es-entity` generates, whose answers are
-- parameters, and the GraphQL schema with the reading of its scalars and its subscription resolvers.
pub mod Base
pub mod Primitives
pub mod Fees
pub mod EventLog
pub mod Invoice
pub mod Payment
pub mod Json
pub mod Outbox
pub mod Symphony
pub mod Lnd
pub mod App
pub mod Api
pub mod Examples
pub mod Grpc
pub mod Wallet
pub mod Server
