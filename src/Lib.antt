-- ===== src/Lib.antt =====
-- instructed: verification of the TypeScript SDK over the event store and its work queue.
--
-- The program. Events are kept in Postgres by the procedures of sql/instructed.sql; the SDK
-- (sdks/typescript/src) calls them. A command on an aggregate is run by loading the aggregate's state
-- (snapshot, then pages of its stream), deciding on events, and appending them at the version loaded; a
-- conflict is retried. A routing worker that holds the lease on a subscription routes the events of a
-- stream to partitions, as work items; processing workers claim the items, run handlers on them
-- under an error policy, and complete them, which for a process manager records its state.
-- waitForProjection asks until subscriptions have caught up. The bank-account example is an application
-- of all this.
--
-- Which file models what:
--   Errors            errors/*.ts: the error classes as one type `Thrown`
--   Errors/Version    parseWrongExpectedVersion, as a search for its regular expression
--   Errors/MapPg      mapPgError; Errors/MapPg/Codes its theorems
--   Types, Json       types/*.ts, and the JSON of metadata
--   Result            a settled promise: `ok`, `throw`, or `stuck` where fuel ran out
--   Store             the tables, and read_stream, read_all, read_snapshot, record_snapshot
--   Store/Append      append_to_stream; Store/Valid, Store/Read, Store/Snapshots the theorems
--   Store/Subscriptions  claim_, release_ and delete_subscription; Store/Subscriptions/Leases
--   Store/Queue       the rows of the work queue; Store/Queue/Calls its procedures
--   Store/Queue/Rows, Claims, Order, Settled, Cursor, Lease, Route, Steps, Replay  the theorems
--   Session           Client.run, and what other sessions commit before each call
--   Client            client/client.ts, pack-event.ts, row-mappers.ts
--   Client/Queue      client/client.ts: the calls on subscriptions and work items
--   Consistency       consistency/consistency.ts; Consistency/Keys, Polls, Fuel
--   Aggregate         aggregate/run-command.ts: loadAggregate; snapshot-policy.ts, snapshot-version.ts
--   Aggregate/Run     executeCommand and runCommand
--   Aggregate/Snapshots  runCommandAndApply, and snapshots.ts
--   Aggregate/Replay, Rely, Load, Quiet, Serial, Occ, Retry, Applied, Truthful  the theorems
--   Workers/Routing   routeOneBatch; Workers/Routing/Batch, Workers/Routing/Ascending its theorems
--   Workers/Routing/Turn  the loop of routing-worker.ts
--   Workers/Processing  processOneItem and a turn of the loop of processing-worker.ts
--   Workers/Pm        workers/pm/pm-substrate.ts; Workers/Pm/Staged its theorems
--   Workers/Pm/Dispatch  workers/pm/pm-worker.ts
--   Workers/Policies  error-policies.ts and DEFAULT_ERROR_POLICY; Workers/Policies/Backoff
--   Workers/Handler   runHandlerWithPolicy; Workers/Handler/Attempts
--   Facade            routing-helpers.ts, partition-by.ts, command-router.ts; Facade/Filter
--   Facade/Registry   facade/instructed.ts: the registry, dispatch, the options of a worker; Facade/Waits
--                     what a dispatch that returned did, with the runner's theorems
--   Bank              examples/typescript/bank-account/src: the aggregates Account and Transfer
--   Bank/Saga         the transfer process manager
--   Bank/Balances, Bank/Transfers  the projections; Bank/Router the command router
--   Bank/Money, Bank/Lifecycle  theorems on the aggregates
--   Tests             concrete inputs, and an application of each theorem to them
--
-- State and operations. A stored procedure is a function from the tables to a result with the new
-- tables; one that raises leaves them as they were. A call of the client is a function on a `Session`:
-- the tables, the list of what the other sessions commit before each further call, and the UUIDs
-- drawn. Every interleaving of whole transactions is such a list. What the other sessions do is a
-- parameter; `Rely` says what is asked of it. The work items are also seen by themselves, under a
-- relation of which each step is one procedure call of any worker (Store/Queue/Steps).
--
-- Parameters: the payload and state types, the aggregate's definition (its `execute`, `apply` and
-- `shouldSnapshot` may throw), which texts the type `uuid` accepts, the UUIDs drawn, routing
-- functions, handlers and policies, and when a stop is observed, the readings of the clock, and which rows a transaction still running holds
-- locked. That a state comes back from a snapshot's JSON as it was written is taken
-- for granted, and so is an event's `data`; metadata that is undefined is read back as null, and what `apply` makes
-- of the two is a hypothesis where it matters. Versions, event
-- numbers and delays are naturals of any size, where the source has bigint
-- and number; amounts of money are integers.
--
-- Fuel. The paging loop of a load runs on fuel; one unit more than the stream has rows is enough when
-- no other session writes. The attempts of a command are bounded by the retry budget, those of a
-- handler by fuel, of which `maxAttempts + 1` is enough under retryUpTo. The loop of
-- waitForProjection runs on fuel, of which the timeout and one are enough. The loops of the workers
-- go on until they are stopped: a turn is a function, and the routing loop runs on fuel.
--
-- Not modelled: logging, the text of SQL queries and of JSON parameters, a transaction that sees another
-- commit halfway, NULL arguments that the client never sends, event numbers of 2^53 and more,
-- the canonical form of a UUID (ids are compared as texts), the
-- heartbeat of the processing worker as a process of its own (what it does is among what other
-- sessions commit and in when a stop is observed), the starting
-- and stopping of workers by the facade (`poll`), and instructedctl.
pub mod Prelude
pub mod Errors
pub mod Json
pub mod Types
pub mod Result
pub mod Store
pub mod Session
pub mod Client
pub mod Consistency
pub mod Aggregate
pub mod Workers
pub mod Facade
pub mod Bank
pub mod Tests
