-- ===== src/Lib.antt =====
-- The helpan_ai rail: a service that lets agents act for customers under delegated authorities.
--
-- Parts and how they interact. A service or the Console asks for a delegated authority
-- (src/modules/authorities/service.ts); the token's claims (claimBuilder.ts) are signed by
-- Identiti, and the authority is a row with the granted scopes, which scopeClassifier.ts holds
-- against the registered ones. An agent dispatches an action under the authority
-- (src/modules/actions/service.ts): the token is validated against the row, the payload is
-- redacted (payloadRedactor.ts), phase A stores the action and spends the period's usage, the
-- call goes to the target rail, phase C stores the outcome. Every transaction appends an entry
-- to a hash-chained audit log (src/lib/auditWriter.ts, checked offline by
-- scripts/verifyAuditChain.ts) and enqueues an event in an outbox (src/lib/kafka/outbox.ts),
-- which a worker drains to Kafka. Two more workers fail actions that were left pending
-- (src/workers/actionReaper/reaper.ts) and revoke the authorities of a suspended or downgraded
-- account (src/workers/cascadeRevocation/cascade.ts).
-- Customers leave briefings of what to look out for (src/modules/briefings); an app's event is
-- matched against them (src/modules/events, src/lib/matching), and each match is stored, put in
-- the outbox and queued for the app's webhook (src/workers/webhookDelivery/worker.ts).
--
-- An action's call goes out through the dispatcher of its rail (src/lib/dispatchers). Operators
-- register and suspend agents, put the safety policies of apps, create scopes and read the audit
-- log (src/modules/operatorAgents, operatorSafetyPolicies, oauthScopes, operatorAudit).
--
-- Which file models which part:
--   Prelude, Json, Time: shared names; JSON values, JSON.stringify and canonicalJson; instants
--     and periodWindowKey of src/lib/periodWindow.ts.
--   Store: the database as a record of tables (Store), the rows of src/db/schema and of the
--     repositories (Store/Rows, Store/Briefings, Store/Policies), a transaction that an error
--     rolls back (Store/Tx), and tables with unique ids (Store/Keyed).
--   World: what the program calls and does not implement: ULIDs, SHA-256, JSONB columns.
--   Audit: appendAuditEntry; Audit/Hash its hash compositions, Audit/Verify the verifier;
--     Audit/Chain and Audit/Drift are proofs.
--   Outbox: Enqueue is enqueueOutboxEntry; Drain is claimPendingBatch, markDelivered, markFailed
--     and drainOutboxOnce; Drain/Budget and Drain/Counts are proofs. Journal is a lemma on the
--     pair of an audit entry and an event, with which transactions end.
--   Scopes: src/modules/authorities/scopeClassifier.ts and getScopeById.
--   Authorities: Types the arguments and results, Repo the tables, Claims the claim set, Issue and
--     Conditions issueAuthority, Validate and Revoke the other functions of service.ts;
--     Claims/Audience, Conditions/Classes, Repo/Keys, Repo/Usage, Issue/Checks,
--     Issue/Persist, Validate/Laws, Revoke/Laws and Lifecycle are proofs.
--   Actions: Redactor is payloadRedactor.ts (Redactor/Texts its regular expressions), Types and
--     Repo as above, Dispatch is dispatchAction with its transactions in Dispatch/Phases;
--     Redactor/Laws, Repo/Laws, Dispatch/PhaseA, PhaseC, Guard, Usage and Outcome are proofs.
--   Workers: Reaper and Cascade; their children are proofs (Reaper/Batch what a tick reads).
--   Paging: lists that are read newest first with a cursor, as listBriefings, listAuthorities and
--     listActions do; Texts and Order are lemmas, Pages the proof on readers. Authorities/Listing
--     and Actions/Listing are listAuthoritiesForQuery and listActionsForQuery.
--   Matching: Types, Equal and Engine are src/lib/matching/engine.ts; Conditions, Matches and
--     Windows what the matchers share; Matchers the matchers of the four apps. Windows/Laws,
--     Engine/Sources, Engine/Inherited, Matchers/Basket and Matchers/RoundUp are proofs.
--   Briefings: Repo and Service are the files of src/modules/briefings; Revocation is a proof.
--   Events: Repo and Service are those of src/modules/events, Webhooks the webhook worker;
--     Service/Matches, Written, Ingest, Candidates and Revoked, Webhooks/Rounds, Attempts and Counts
--     are proofs. A Tick of Webhooks/Attempts is a round of the worker and what others do before it.
--   Health: src/modules/health/service.ts.
--   Clients: Dispatcher and Registry are src/lib/dispatchers, Signer and StepUp are identitiSigner.ts
--     and stepUpVerifier.ts of src/lib, Http what they call and do not implement; Completed is a proof.
--   Operators: Agents, Policies, Catalogue and AuditList are the services and repositories of
--     src/modules/operatorAgents, operatorSafetyPolicies, oauthScopes and operatorAudit; Audited
--     is what they share; Suspension, Uniqueness and Ceilings are proofs.
--   Tests: all of these at concrete inputs.
--
-- State and operations. An operation of the program is a function of the Db; a transaction is a
-- `Tx Db A`, whose error drops the new state. Where the code reads before it opens a transaction,
-- or waits for another rail, the function takes as an argument (`between`, `meanwhile`) what other
-- transactions do to the database in that time; within one transaction nothing intervenes.
-- issue_authority has a `between` for each of its reads, of the agent and of each scope, and after
-- the last one for the waits on the step-up verifier and on Identiti; dispatch_action has
-- `meanwhile` after its validation and `between` for the call. What stays on one database is a run
-- of reads without a write: validateAuthority, which reads the row and the usage, the cascade,
-- which reads the account's authorities and their scopes, and the lists with their cursors. A
-- function that may fail after a commit (dispatch_action) returns the database beside its result;
-- an error of issue_authority leaves it as the others have made it.
-- `now` is the clock of JavaScript, `tx_now` the NOW() of a transaction; both are milliseconds, so
-- the microseconds of NOW() are left out, but in created_at and updated_at of briefings, which
-- count them; the lists of authorities, actions and audit entries take them as an argument.
-- Errors are their code, status and field, without the message. Numbers are integers. Rows that
-- FOR UPDATE SKIP LOCKED leaves out are named by a predicate.
--
-- Parameters: the ulid package, SHA-256 and JSONB (World), jose's jwtVerify and decodeJwt, the
-- signer, the step-up verifier and the dispatchers that are injected, the Kafka broker, the
-- random traceparent; for the matchers Date parsing, Intl.DateTimeFormat, toLowerCase and the
-- distance of two points, for the webhooks fetch and HMAC, and for the clients fetch, URL,
-- encodeURIComponent and the platform library's canonical string and signature. No recursion takes
-- fuel but `decimal`, which has one round for each unit of the number and so for each digit, and
-- the reader of pages in Paging/Pages, whose fuel is the number of its requests: one for each row
-- is enough.
--
-- Not modelled: plugins, configuration and routes; the base64url text of cursors; floating point
-- (haversineKm); the poll loops of the workers; foreign keys and CHECK constraints; failures of
-- the database itself; the vendored platform library, of which ULIDs and signatures are called
-- here.
pub mod Prelude
pub mod Json
pub mod Time
pub mod World
pub mod Store
pub mod Audit
pub mod Scopes
pub mod Outbox
pub mod Journal
pub mod Authorities
pub mod Actions
pub mod Paging
pub mod Briefings
pub mod Matching
pub mod Events
pub mod Health
pub mod Clients
pub mod Operators
pub mod Workers
pub mod Tests
