-- ===== src/Lib.antt =====
-- SHLD reviews code changes for security problems: a source engine (DeepSec) finds them, a policy
-- decides which of them are validated against a running target, a second engine (Strix) attacks
-- that target, and a submitted fix is verified before a finding may be called fixed. Everything it
-- does to a finding or to a run goes through one transition function each, which checks a state
-- machine and appends to an audit log. This library models that core and proves what holds of it.
--
-- The parts, and where their code is:
--   Prelude      JavaScript's list, option and string operations as the code uses them.
--   Action       code that reads and writes the database and may throw. What was written before a
--                throw stays written, except inside `prisma.$transaction`, which is `transaction`.
--                Action/Keeps has one invariant rule for each way to build an action.
--   Store        the tables that the code reads and writes (prisma/schema.prisma): one record `Db`
--                with a list of rows per table, newest first, and the writes of single rows.
--   Domain       src/domain and src/audit: the errors, the generic state machine
--                (domain/state-machine.ts), the tables of findings and runs, the two sanctioned
--                transitions, the audit log. Domain/Moves has what a transition does on every
--                branch; Domain/Trail what the log says about a finding.
--   Remediation  src/remediation: submitFix, startFixVerification, completeFixVerification and
--                determineVerificationOutcome.
--   Correlation  src/correlation: fingerprints, build matching, what a validation says of a
--                finding, and correlateStrixValidation.
--   Policy       src/policy: evaluateRoutingPolicy, applyRoutingPolicy, classifyChange and the
--                sensitive paths.
--   Engines      src/adapters: the severity tables, persistDeepSecRun and persistStrixRun.
--   Queue        src/orchestration: the in-memory job queue, its loop, and every sequence of calls
--                and events on it.
--   RepoPrep     src/repo-prep: the snapshot of a repository, which is made once and then used again,
--                the files that changed in it, and their languages.
--   Access       src/auth and src/authz: permissions, tenant isolation, and who may use a target.
--   Network      src/authz: which addresses and URLs a request to a target may reach, and the loop
--                over its redirects.
--   Accounts     src/auth: the keys of agents, the sessions of users, and who a request comes from.
--   Github       src/github and src/auth/github-webhook.ts: the signature of a delivery, the route
--                that takes it, and the review that a pull request starts. The signature of the
--                outgoing webhooks (src/webhooks/sign-payload.ts) stands with it.
--   Api          src/api: repeated requests (idempotency.ts) and the status of an error
--                (error-handler.ts); and src/orchestration/tenant-concurrency.ts, any interleaving
--                of the calls that take and free the slots of an organization.
--   Services     src/api/services: what an agent asks for. Each request passes through Access and
--                then through the services above; Services/Reads has those that only read.
--   Orchestration  src/orchestration/handlers and src/webhooks: what a job does when the queue runs
--                it, and finalizeRun. What an engine or git answers, or that it throws, is a
--                parameter; the jobs that are handed over go to an outbox in the state.
--   Artifacts    src/artifacts: files named by the hash of what they hold.
--   Receipts     src/receipts: the status of a receipt, what is gathered for it, its JSON, its
--                generation, and the request for it (src/api/services/get-receipt.ts).
--   Audited      the services together, as any sequence of calls, each of which may fail, and the
--                invariant on the audit log.
--   Tests        runs of the model at concrete inputs.
-- A definition has the name of the function, type or constant that it models, in this library's
-- spelling: `transition_finding_status` is transitionFindingStatus.
--
-- How state and values are modelled. A key is a number, drawn from one counter; a time is the
-- clock's reading in the state. Money is a number of millionths of a dollar. A message or a reason
-- that the code renders as an English sentence is data. Metadata of audit events and of artifacts
-- is left out, but for the changed files of a snapshot, which the classifier reads back. Lower
-- case is that of ASCII. The hash of a fingerprint, the artifact store and the text of a key
-- are parameters, of which nothing is assumed but what a theorem names, and so are the URL parser,
-- the lookup of a host, the HTTP client, the keyed hashes, random bytes, and the texts of a receipt
-- in JSON and in Markdown; an address has no zone index. The loops over rows are structural. Only the
-- queue's loop runs on fuel, the number of its turns: a handler of the queue may enqueue
-- further jobs for ever, so that it ends is stated for handlers that do not, with the fuel
-- that is enough. While a handler of the queue runs, other calls may come in: a run of the
-- queue is an explicit list of calls and events.
--
-- Not modelled: the wiring of the HTTP and MCP servers, the dashboard's pages, the Markdown of a
-- receipt, the subprocesses and schema checks of the engines, Redis and BullMQ, git, the update of
-- submodules, the calls of the GitHub API, and SQL itself, which are input and output or code of other packages. Of a receipt
-- and of a run that is read, the columns that the tables of the model leave out: the status, the
-- times and the failure of an engine's execution, the keys of audit events, the creation time of a
-- run and the reason of a routing decision.
pub mod Prelude
pub mod Action
pub mod Store
pub mod Domain
pub mod Remediation
pub mod RepoPrep
pub mod Correlation
pub mod Policy
pub mod Queue
pub mod Access
pub mod Network
pub mod Accounts
pub mod Api
pub mod Artifacts
pub mod Github
pub mod Services
pub mod Receipts
pub mod Orchestration
pub mod Engines
pub mod Audited
mod Tests
