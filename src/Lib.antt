-- ===== src/Lib.antt =====
-- PauseMesh keeps paused work of agents. A continuation is created with a resume token, and is
-- then resumed, cancelled or expired, once; its state is the replay of the events of its stream.
--
-- The parts, and the files that model them:
-- - src/domain: types.ts, events.ts and errors.ts are Domain/Types, Domain/Events and
--   Domain/Errors; reducer.ts is Domain/Reducer (reduceContinuation, replayContinuation), with
--   the laws of one step in Reducer/Steps and of whole streams in Reducer/Replay;
--   canonical-json.ts is Json/Canonical on the JSON values of Json, with the string literals of
--   the language in Json/Quote and its order on strings in Json/Order; Json/Ordered and the
--   readers in Quote/Read and Print/Read serve to compare the texts.
-- - src/ports: event-store.ts is Ports/EventStore (append_events is the contract of append), with
--   the effect of appends in EventStore/Streams; observer.ts and token-issuer.ts are
--   Ports/Observer; the dates of the language and the digest of tokens are Ports/Platform.
-- - src/application/continuation-service.ts is Service. Its asynchronous methods are programs
--   (Service/Program) whose steps are the calls of the ports: Service/Methods (create, inspect,
--   history, resume, cancel) on Service/Lookup (#loadRequired, #loadResumeContext),
--   Service/Outcomes (#resolveCompletedResume, #resolveCompletedCancellation,
--   #requireMatchingToken, #reject), Service/Expiry (#expireIfDue) and Service/Token
--   (tokenHashesEqual). Service/Ensures says what a program ensures while other clients use the
--   store, with one rule for each way to build it; Promises, Reads, Expiring, Resuming,
--   Cancelling, Creating and Calls apply it to the methods; Service/Interleaving runs any number
--   of calls on one store under any schedule, with lost requests and lost replies;
--   Service/Settled and Service/Exclusive have what follows for the calls that returned.
--   Service/Bounded counts the steps that a program has left, Service/Ending bounds those of
--   every method, and Service/Progress has what follows for a schedule.
-- - src/adapters/storage: event-serialization.ts is Storage/Codec (the objects of events) and
--   Storage/Serialization; in-memory-event-store.ts is Storage/Memory; sqlite-event-store.ts is
--   Storage/Sqlite, on the rows of its table; postgres-event-store.ts is Storage/Postgres, on the
--   heads and the rows of its tables. Storage/Contract says what a store owes to its clients.
-- - src/adapters/a2a/task.ts is Adapters/A2a, with the schema of payloads that the adapters share
--   in Adapters/Payloads, and src/adapters/protocol-error.ts is Adapters/Protocol.
-- - src/adapters/agui/interrupt.ts is Adapters/Agui: Preflight (the bounded traversal of
--   untrusted values, with what it decides in Unfolding, Sound and Complete, and in Memory what
--   the values hold), Receipts (schema and digests), Issuing (issueAguiInterrupts), Cohorts
--   (validateReceipt, validateCurrentCohort) and Resuming (fromAguiRunAgentInput). Issued,
--   Commands, Matching, Batches, Replays, Retries and Answering have what follows for receipts
--   and batches.
-- - src/adapters/mcp/elicitation.ts is Adapters/Mcp: Urls (validateUrlBinding), Schemas and
--   Definitions (the schemas of form fields), Requests (schemas, digests and receipts), Issuing
--   (toMcpElicitRequest, issueMcpElicitation) and Results (parseMcpElicitResult,
--   toMcpElicitationCompleteNotification). Trust, Issued, Shown, Bound and Outcomes have what
--   follows. Numbers are compared by their literals in Json/Numbers.
-- - src/adapters/http/app.ts is Adapters/Http: Requests (bodies and headers), Handlers (routes),
--   Errors (onError, errorStatus), Readiness (/healthz, /readyz), Projections (the route that
--   calls the adapters), Answers, Projected and Traffic (what an answer means).
--
-- State and bounds: a store is a function from identifiers to lists of events. Versions are
-- counted exactly; the schema keeps those that are stored within 2^53 - 1. All recursion is on
-- the data, but for the digits of a number, whose bound is the number's successor, and for the
-- traversal of untrusted values, whose fuel is one more than twice the allowed number of nodes:
-- each round but the last counts a node, or leaves an object that was counted. A program is a
-- finite tree of calls, and so is each method: none has a loop.
--
-- Parameters: the text of a date and its parse, with the law that a date's text is read back; the
-- digest of a token; the schema library's test of date texts; the schema of AG-UI run inputs, the
-- host's validators of payloads and of URLs, the platform's parse of URLs, the tests of formats,
-- and the digest of JSON texts; the answers of the clock, of the token issuer and of the
-- generator of identifiers, which every schedule chooses freely.
--
-- Simplifications: strings are sequences of UTF-16 units, and a finite number is its JSON
-- literal. A stored text stands as the JSON value that it prints, or as no JSON. Error messages,
-- and what observers do with an observation, are left out. Untrusted values of AG-UI stand in a
-- memory, in which they may be shared or contain themselves; the schema of run inputs reads them
-- there, and the receipt and the continuations of a call stand beside them as the values that
-- they hold. A read of a property has no other effect. A transaction of SQLite or PostgreSQL is
-- one step, and the versions that PostgreSQL returns as texts are numbers. The size that the body
-- limit of the web framework finds, and the number that a Content-Length header denotes, are
-- fields of a request.
--
-- Not modelled: the migration and the schema checks of the PostgreSQL store, the configuration,
-- the command line, the logger, the random tokens and the system clock.
pub mod Prelude
pub mod Json
pub mod Domain
pub mod Ports
pub mod Service
pub mod Storage
pub mod Adapters
