-- ===== src/ScanRun.antt =====
-- The scan_runs rows, src/services/scan-run-store.ts: the types, and what a row's outcome is.
-- Money is in millionths of a dollar (`costUsd.toFixed(6)`), times are milliseconds.
pub mod Verdict
pub mod Store
mod Tests
use fixor.Prelude.{ℕ, Bool, true, false, Option, none, some, List, [], String, Map}

pub data Status : Type 0 where
  pending running retrying completed incomplete skipped failed : Status

pub data Code : Type 0 where
  budget_exceeded budget_unverifiable spend_unrecordable spend_unrecorded : Code
  pr_fetch_refused comment_refused coverage_degraded scan_failed : Code
  interrupted timed_out superseded internal_error : Code

-- SCAN_RUN_MESSAGES
abbrev pub message : Code → String
message budget_exceeded = "Not scanned: this installation reached its usage budget for the period."
message budget_unverifiable =
    "Not scanned: Fixor could not verify this installation's usage budget."
message spend_unrecordable =
    "Not scanned: Fixor could not record usage for this scan, so it did not start it."
message spend_unrecorded =
    "Incomplete: Fixor could not record this scan's usage, so it stopped before finishing. These findings are not a complete result."
message pr_fetch_refused = "Not scanned: GitHub refused Fixor's request for the pull request."
message comment_refused =
    "Scanned, but GitHub refused the report comment, so the pull request has no Fixor report for this commit."
message coverage_degraded =
    "Incomplete: some files or checks could not be analyzed, so these findings are not a complete result."
message scan_failed = "The scan did not complete."
message interrupted =
    "Not completed: the scan was interrupted before it finished, and its retry did not finish either. Push a new commit to scan again."
message timed_out = "Not completed: the scan did not finish within Fixor's time limit."
message superseded =
    "Not completed: the scan was interrupted, and a later delivery for this pull request was scanned instead."
message internal_error = "The scan stopped on an internal error."

pub record Start : Type 0 where
  pub installation_id : String
  pub delivery_id : Option String
  pub repo_full_name : String
  pub pull_number : ℕ
  pub head_sha : String
  pub started_at : ℕ

pub record Outcome : Type 0 where
  pub status : Status
  pub code : Option Code
  pub total_findings : ℕ
  pub findings_by_family : Map ℕ
  pub fixes_generated : ℕ
  pub cost_usd : ℕ

-- A row of the table, without its primary key `id`.
pub record Row : Type 0 where
  pub start : Start
  pub open start use *
  pub status : Status
  pub error_message : Option String
  pub total_findings : ℕ
  pub findings_by_family : Map ℕ
  pub fixes_generated : ℕ
  pub cost_usd : ℕ
  pub finished_at : Option ℕ

abbrev pub is_pending : Status → Bool
is_pending pending = true
is_pending _ = false

-- inArray(status, ["pending", "running"])
abbrev pub is_first_attempt : Status → Bool
is_first_attempt pending = true
is_first_attempt running = true
is_first_attempt _ = false

abbrev pub is_retrying : Status → Bool
is_retrying retrying = true
is_retrying _ = false

-- inArray(status, ["pending", "running", "retrying"])
abbrev pub is_unfinished : Status → Bool
is_unfinished retrying = true
is_unfinished s = is_first_attempt s

abbrev pub is_null {ℓ} : {A : Type ℓ} → Option A → Bool
is_null none = true
is_null (some a) = false

unfoldable pub empty_outcome : Status → Option Code → Outcome
empty_outcome status code = record {
  status = status;
  code = code;
  total_findings = 0;
  findings_by_family = [];
  fixes_generated = 0;
  cost_usd = 0;
}
