-- ===== src/Lib.antt =====
-- Fixor, a security reviewer for pull requests: a GitHub App receives webhook deliveries, scans the changed
-- files with model-backed detectors under a budget, and reports on the pull request.
--
-- How the parts interact. POST /webhook (Webhook) verifies a delivery and decides whether it carries code to
-- scan; an accepted one gets a row in scan_runs (ScanRun), whose unique delivery id keeps a redelivery from
-- being scanned twice. The handler (Delivery) accepts it, runs the scan against its deadline and closes
-- the row once. The scan waits in a queue (Queue), passes the budget gate (Budget) and calls the model (Client),
-- each priced call being added to the cost ledger that the gate sums. The detectors read a parsed diff (Diff);
-- their findings are merged, filtered and split by changed lines (Findings), and the comment is cut to size
-- (Comment).
-- The audit of one diff (Workflow) runs the detectors, generates the fixes through a pool of workers (Workers) and says
-- whether the result is clean; the scan's row and the scan API (Api) read it from there.
-- After a restart the sweeper (Sweeper) reruns, closes or supersedes the rows that a lost process left open.
-- The scan API is limited by a fixed window per key (Limiter).
--
-- Which file models what; names are the source's in snake case, paths are from the repository's root:
--   Limiter   src/lib/rate-limiter.ts. The class's fields are a record, every method a function of it.
--   Queue     src/lib/scan-queue.ts. A call of `run` is a ticket; the stretches of code between two awaits
--             are the steps of a relation, whose reachable queues the theorems are about.
--   ScanRun   src/services/scan-run-store.ts and the scan_runs table of src/db/schema.ts: statuses, codes and
--             outcomes, and in ScanRun/Store the statements as operations on a finite map of rows.
--   Sweeper   src/services/scan-run-sweeper.ts, over any store, then over that of ScanRun.
--   Budget    src/services/cost-store.ts: Ledger (recordCost, sumSince), Failure (the classification of
--             database errors), Gate (checkBudget, budgetRefusalHttp); the proofs are in Verdicts and Spend.
--   Client    src/analysis-engine/anthropic-client.ts (Call), src/services/cost-tracking.service.ts (Prices),
--             src/lib/anthropic-retry.ts (Retry), src/lib/llm-coverage.ts and llm-call-ledger.ts (Tally), the
--             context of src/lib/cost-context.ts, and src/analysis-engine/verdict-escalation.ts (Escalation);
--             the proofs are in Attempts, Stops, Spend and Backoff.
--   Webhook   src/server/github-webhook-route.ts (Route), in src/integrations/github pr-action-filter.ts (Actions),
--             webhook-signature.ts (Signature) and github-payload-validation.ts (Payload); the proof about
--             the route is in Gate.
--   Delivery  src/integrations/github/pr-webhook-handler.ts: Accept (acceptPullRequestDelivery), Scan, Phases and
--             Handler (scanDelivery, each awaited call an action that may throw), Deadline (runAccepted with
--             src/lib/scan-deadline.ts, as events of the event loop), Rerun (the coordinates of
--             rerunRecordedScanRun). Triples and Untouched carry the proofs of Guard and Outcomes.
--   Comment   src/integrations/github/comment-size-guard.ts: the longest prefix that fits (Search) and the comment that
--             is posted (Limit).
--   Findings  src/cli/finding-merge.ts (Merge), src/lib/org-settings-filter.ts (Settings) and
--             src/workflows/changed-line-partition.ts (Partition), over the types of src/analysis-engine/types.ts
--             and the registry of src/analysis-engine/detectors/registry.ts.
--   Diff      src/analysis-engine/detectors/shared/diff-parser.ts and src/cli/diff-builder.ts.
--   Workflow  src/workflows/auditor-workflow.ts: what it reads of its payload (Input), the detectors' phase (Detection), the
--             fixes (Fixes), the status (Status) and executeWorkflow and runAuditorWorkflow (Run); the other files are
--             proofs. A detector, the settings lookup and the extraction of Semgrep results are arguments.
--   Workers   src/lib/concurrency.ts: the workers' steps in any order, and the loop that they implement.
--   Api       src/services/api-tokens.service.ts (Tokens), src/server/api-scan.ts (Scan), handleApiScan (Handler) and the
--             start and dispatch (Server) of src/server/webhook-server.ts, with src/lib/health.ts.
--   WholeFile  src/integrations/github/whole-file-scan-input.ts: the parts of the diff and their files; Lines compares them
--             with Diff.
--   RouteGuard  src/analysis-engine/detectors/shared/route-guard-resolver.ts (Resolver) and, of whole-file-scan-input.ts,
--             resolveRouteGuardSidecars (Sidecars). The walk takes 64 steps at most, which is the source's own bound.
--   Mail      src/services/first-scan-email.ts: the claim of the first-scan mail, the call, and calls interleaved (First).
--   Prelude   the names and lemmas that these share.
--
-- Numbers and bounds. Times are milliseconds and money is billionths of a dollar, both natural numbers; the ledger
-- rounds each cost to millionths, and the rounding of floating-point sums and the tests for NaN are not modelled.
-- Loops are structural: the budget read makes `max_budget_read_attempts` rounds, the classification of a failure looks at 5 levels, a model
-- call makes `max_retries + 1` rounds, which are the bounds of the source's own loops, so no round is cut off.
-- The binary search of a comment takes the length of the text as fuel, which halving never uses up; the printing
-- of a number takes its size.
--
-- What is an argument: the clock, HMAC-SHA256 and SHA-256, the parsing of JSON and of dates, the random number of the
-- backoff, the replies of the model, of GitHub and of the database, the handlers that a route calls, the glob
-- matcher, and the byte length of a text with its laws. Time enters as what has happened by the end of a step (a
-- step that has not settled in time, a deadline that passed while a request was out) and as the order of events.
--
-- What is not modelled: logging and Sentry; the SQL engine beyond the statements as map operations; how long a timer waits;
-- the detectors' prompts and prefilters; the GitHub client and the report's text; the command line; the
-- dashboard.
pub mod Prelude
pub mod Limiter
pub mod Queue
pub mod ScanRun
pub mod Sweeper
pub mod Budget
pub mod Client
pub mod Webhook
pub mod Delivery
pub mod Comment
pub mod Findings
pub mod Diff
pub mod Workflow
pub mod Workers
pub mod Api
pub mod WholeFile
pub mod RouteGuard
pub mod Mail
