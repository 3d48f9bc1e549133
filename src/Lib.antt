-- ===== src/Lib.antt =====
-- BestERP is an ERP that AI agents work with through tools. This library models the framework that
-- a tool call passes (packages/mcp-tools/src), with the checks of packages/shared/src that it rests
-- on: the registry looks the tool up, establishes the caller's identity and moves the framework's
-- arguments from the input to the context; the agent policy, the confirmation gate and the
-- idempotency middleware then guard the handler, each wrapping the next, and the error handler wraps
-- them all; and the result passes the agent-facing boundary. Behind the handlers stands the party
-- service (apps/api/src/modules/core/party), which creates, finds and searches parties and gives them
-- roles and contact mechanisms, over the tables of the database.
--
-- The files and the code they model:
--   Registry.antt        registry/tool-registry.ts: Names (the format of names, findSimilarNames),
--                        Envelope (promoteEnvelopeKeys, stripEnvelopeKeys), Identity
--                        (validateContextIdentity), Tools (register, get, names, the caches),
--                        Pipeline (the composition round the handler), Execute (execute)
--   Policy.antt          middleware/agent-policy.ts
--   ErrorHandler.antt    middleware/error-handler.ts
--   Gate.antt            middleware/confirmation-gate.ts
--   Idempotency.antt     middleware/idempotency.ts: Key (validateIdempotencyKey), Errors (the
--                        rejections), Acquire (acquireIdempotencyRecord), Existing
--                        (handleExistingRecord), Execute (executeAndUpdate), Middleware (the whole),
--                        Exclusion (many requests at once)
--   Party.antt           apps/api/src/modules/core/party/party.service.ts: Fields (the validators of
--                        single fields), Subtypes and Draft (what createParty validates and
--                        sanitizes), Create (createParty, getParty), Search (searchParties), Roles
--                        (addPartyRole), Contacts (addContactMechanism), Results (toPartyResult),
--                        Calls (calls in sequence)
--   Backpressure.antt    createBackpressureManager of middleware/audit-log.ts
--   Truncate.antt        middleware/truncate.ts: capString, and in Stored truncateValue
--   Hash.antt            hashInput of packages/shared/src/crypto.ts
--   AgentResult.antt     agent-result.ts
--   Identity.antt        identity.ts
--   Tenant.antt          validateTenantId of packages/shared/src/tenant.ts, isValidOptionalId of
--                        packages/shared/src/validation.ts
--   Dates.antt           the ISO dates of packages/shared/src/validation.ts
--   Errors.antt          packages/shared/src/errors.ts
--   PrismaErrors.antt    packages/shared/src/prisma-error-mapper.ts
--   Directory.antt       the tables of parties, roles and contact mechanisms in schema.prisma
--   Surrogates.antt      normalizeUnpairedSurrogates of packages/shared/src/sanitize.ts
--   Tool.antt            schema/tool-definition.ts
--   Store.antt           the tables of packages/database/prisma/schema.prisma that the guards use
--   Limits.antt          packages/shared/src/constants.ts
--   Value.antt, Text.antt, Utf8.antt, Json.antt
--                        JavaScript values, strings of UTF-16 units, their UTF-8 bytes (TextEncoder,
--                        TextDecoder), JSON.stringify
--   Run.antt, Prelude.antt
--                        runs, and shared helpers
--   Support.antt, Platform.antt
--                        the functions that the model takes as parameters
--   Tests.antt           the theorems at concrete calls
--
-- State and effects. A run takes a world, the tables with a clock and the events to come, and returns
-- or throws with the world after it. Each database operation first meets an event: time that passes,
-- what other requests commit to the tables, and the error that the operation fails with. So a theorem
-- about any world holds for any interference and any failure. In Exclusion the transactions of many
-- requests are the steps of one relation. The registry is a record that each operation returns anew.
--
-- The statements of a transaction of the party service meet what others commit between them, and one
-- of them writes; it fails where a unique index or a foreign key of the schema forbids the row.
--
-- Loops. Acquiring and updating a record take at most three attempts (IDEMPOTENCY_MAX_RETRIES), and
-- adding a role as many (MAX_CONCURRENCY_RETRIES), which is the recursion of the model too. The preview of a
-- truncation marker is halved at most as often as it is long.
--
-- Not modelled: the other sanitizers, the plurals, SHA-256, Zod and the rendering of its issues are
-- parameters (Support, ZodSchemaLike; there hashInput is one too, whose code is Hash), of which
-- nothing is assumed but where a theorem says so, and so are the functions of ECMAScript and of the
-- database that the party service rests on (Platform); the writes to stderr and to the log and the
-- waits between attempts are left out; of the audit log, only the manager of its writes is
-- modelled; the row-level security, the scripts and the rest of the NestJS application (apps/api)
-- are outside.
pub mod Prelude
pub mod Text
pub mod Surrogates
pub mod Utf8
pub mod Value
pub mod Directory
pub mod Store
pub mod Run
pub mod Tool
pub mod Support
pub mod Limits
pub mod Platform
pub mod Errors
pub mod PrismaErrors
pub mod Dates
pub mod Identity
pub mod Idempotency
pub mod Gate
pub mod Policy
pub mod ErrorHandler
pub mod Tenant
pub mod Json
pub mod Hash
pub mod AgentResult
pub mod Truncate
pub mod Registry
pub mod Backpressure
pub mod Party
pub mod Tests
