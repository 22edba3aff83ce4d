-- ===== src/Lib.antt =====
-- RouterPulse: the off-chain services of the DePIN protocol.
--
-- The indexer (indexer/src) reads the transactions of the on-chain program, decodes the events in
-- their logs and keeps a projection of them in MongoDB; the API (api/src) reads that projection and
-- signs operators in. The web client (web/src) shows it and sends an operator's transactions. A
-- simulator (routerpulse/simulator) plays the devices. The indexer and the API meet in the database;
-- sign-in keeps its challenges in Redis.
--
-- - Common: lists, options, whole numbers and decimal texts. `ℤ` is over the native numbers.
-- - Js: the JavaScript values of events and documents, `===`, property reads and `Number(…)`.
-- - Mongo: the driver's calls with their documented laws, as an interface; a document is a map from
--   field names to values. Mongo/Memory is an implementation for the examples, with a switch that
--   makes batch inserts fail.
-- - Indexer/EventParser: indexer/src/eventParser.ts (serializeEventData, decodeTransactionEvents).
-- - Indexer/Retry: indexer/src/retry.ts (isTransient, withRetry). The loop is recursion on the
--   attempts that are left; the delays slept through are part of the outcome.
-- - Indexer/Projections: indexer/src/projections.ts (applyEventToProjections). A case of the switch
--   is the list of its updates, run in order; a throw of `new PublicKey` is no result.
-- - Indexer/Ingest: indexer/src/ingest.ts (processSignature, claimSignature). A call is a function
--   from the database to the outcome, the new database and the events published.
-- - Indexer/Backfill: indexer/src/backfill.ts (runBackfill). The paging loop runs on fuel; one more
--   than the number of signatures is enough.
-- - Indexer/Reconcile: indexer/src/reconcile.ts (reconcileOnce). The accounts have the
--   fields that it copies.
-- - Api/Pagination, Api/Routers: api/src/common/pagination.ts api/src/routers/routers.service.ts
--   (list, epochs, getOne, recentHeartbeats), and the walk along the cursors of a listing.
-- - Api/Explorer: api/src/explorer/explorer.service.ts (getTransaction, listEvents).
-- - Api/Status: the health report, the relay of the realtime gateway, the limit of the audit log.
-- - Api/Protocol: get and currentEpoch of api/src/protocol/protocol.service.ts, and currentEpochNumber of
--   routerpulse/simulator/src/config.ts.
-- - Api/Auth: api/src/auth/auth.service.ts and the guards of api/src/auth/guards, over a Redis
--   interface in which time goes by explicitly. verify is its read of the challenge and the rest;
--   Api/Auth/Overlap takes the two apart, as turns of calls that overlap.
-- - Simulator: routerpulse/simulator/src/router.ts. Simulator/Acts has the program's client as an
--   interface and async code as functions from a state to a value or a throw and a state, and
--   Simulator/Router has fundDevice, register, ensureStaked, sendHeartbeat,
--   maybeSettlePreviousEpoch and start, over the draws and times of its turns.
-- - Indexer/Process: indexer/src/index.ts, live.ts, publisher.ts, db.ts: the start of the process,
--   the callback of its subscription, the publisher and the indexes. A life of the process is its
--   start and the notifications and reconciliations that follow, in their order.
-- - Simulator/Fleet: routerpulse/simulator/src/index.ts up to the first heartbeat.
-- - Simulator/Parallel: the rest of it, where the simulators run in parallel: staggered starts, turns,
--   pauses and the timer are events, in any order.
-- - Scripts/Seed: routerpulse/scripts/seed-claimable.ts, over the same client as the simulator.
-- - Scripts/Lifecycle, Scripts/OperatorFlow: routerpulse/scripts/full-lifecycle.ts and
--   web/scripts/verify-operator-flow.ts, over the interface of Scripts/Cluster. Scripts/Checks has what
--   they share: the counters, `try` and `catch`, the checks that a transaction is refused.
-- - Web/UseTx: web/src/lib/useTx.ts, the phases of a transaction and the words for its errors.
-- - Web/Fetch, Web/Format, Web/Labels: the requests and texts of web/src/lib/api.ts, and toBaseUnits of
--   web/src/components/RouterActions.tsx. Common/Numerals has the lemmas on texts of digits.
-- - Web/Session: web/src/lib/useSession.ts. A page is a sequence of events; a sign-in is two of
--   them, with what happens between its request and its end in between.
-- - Web/Operator, Web/Page, Web/Feed: the actions of RouterActions.tsx and RegisterRouter.tsx, the
--   effects of web/src/app/operator/page.tsx, and the handler of LiveFeed.tsx with the widgets of
--   ui.tsx.
-- - Tests: the theorems at concrete inputs.
--
-- The libraries are parameters: the driver, the RPC connection, Anchor's log parser, web3.js's
-- addresses, bn.js's printing, nacl, the JWT service, Redis, and base64url. Numbers that the code
-- reads from decimal texts are taken as exact, though JavaScript rounds them above 2 ^ 53; times
-- are whole seconds or milliseconds. The upserts of the projections and of the reconciliation are
-- taken to succeed, while inserts may fail; the fields that are incremented hold numbers. Log lines are left out. A call of processSignature is one step:
-- calls of it do not interleave with each other. JSON, localStorage, the wallet, `new BN`, `URL` and
-- the locale's printing of numbers are parameters of the web client. Not modelled: the connection
-- and configuration code, the shutdown handler, the NestJS controllers and modules,
-- and the markup of the web client; the on-chain program is written in Rust and is not part of these
-- services.
pub mod Common
pub mod Js
pub mod Mongo
pub mod Indexer
pub mod Api
pub mod Scripts
pub mod Simulator
pub mod Web
pub mod Tests
