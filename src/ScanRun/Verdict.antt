-- ===== src/ScanRun/Verdict.antt =====
-- outcomeFromWorkflow of src/services/scan-run-store.ts: what a finished workflow makes of its row.
-- Of the workflow result only the fields that it reads are modelled.
use fixor.Prelude.{
  ℕ, ◌≡◌, ◌↔◌, Bool, true, false, not, ◌&&◌, ◌||◌, Option, none, some, [], arith, ltb,
  if◌then◌else◌, or_else, Map,
}
use fixor.ScanRun.{
  Status, completed, incomplete, skipped, Code, Outcome, is_unfinished, empty_outcome,
}

pub data WorkflowStatus : Type 0 where
  success partial_success failed no_action : WorkflowStatus
  budget_exceeded budget_unverifiable spend_unrecordable scan_interrupted : WorkflowStatus

pub record WorkflowResult : Type 0 where
  pub status : WorkflowStatus
  pub total_findings : ℕ
  pub findings_by_detector : Option (Map ℕ)
  pub fixes_generated : ℕ
  -- `failed` of the coverage tally, if there is one
  pub coverage_failed : Option ℕ
  -- the length of the list of detectors that threw, if there is one
  pub detector_failures : Option ℕ

counted : WorkflowResult → ℕ → Status → Option Code → Outcome
counted w cost status code = record {
  status = status;
  code = code;
  total_findings = w.total_findings;
  findings_by_family = or_else w.findings_by_detector [];
  fixes_generated = w.fixes_generated;
  cost_usd = cost;
}

not_run : Code → ℕ → Outcome
not_run code cost = record (empty_outcome skipped (some code)) { cost_usd = cost }

pub is_degraded : WorkflowResult → Bool → Bool
is_degraded w scan_input_degraded =
    scan_input_degraded
    || (ltb 0 (or_else w.coverage_failed 0) || ltb 0 (or_else w.detector_failures 0))

-- The workflow threw, timed out or rejected its input: it failed and has no coverage tally.
unfoldable pub never_detected : WorkflowStatus → Option ℕ → Bool
never_detected failed none = true
never_detected _ _ = false

ran : WorkflowResult → ℕ → Bool → Outcome
unfolding counted
ran w cost degraded =
    if never_detected w.status w.coverage_failed
    then counted w cost Status.failed (some Code.scan_failed)
    else if is_degraded w degraded
    then counted w cost incomplete (some Code.coverage_degraded)
    else counted w cost completed none

outcome_by : WorkflowStatus → WorkflowResult → ℕ → Bool → Outcome
unfolding not_run ran
outcome_by budget_exceeded w cost degraded = not_run Code.budget_exceeded cost
outcome_by budget_unverifiable w cost degraded = not_run Code.budget_unverifiable cost
outcome_by spend_unrecordable w cost degraded = not_run Code.spend_unrecordable cost
outcome_by _ w cost degraded = ran w cost degraded

pub outcome_from_workflow : WorkflowResult → ℕ → Bool → Outcome
unfolding outcome_by
outcome_from_workflow w cost scan_input_degraded = outcome_by w.status w cost scan_input_degraded

-- scannedOutcome of src/integrations/github/pr-webhook-handler.ts.
abbrev pub is_skipped : Status → Bool
is_skipped skipped = true
is_skipped _ = false

pub scanned_outcome : (spend_unrecorded : Bool) (spend : ℕ) → WorkflowResult → Bool → Outcome
scanned_outcome unrecorded spend w input_degraded =
    let outcome = outcome_from_workflow w spend input_degraded in
    if unrecorded && not (is_skipped outcome.status)
    then record outcome { status = incomplete; code = some Code.spend_unrecorded }
    else outcome

-- The workflow was refused before it started.
abbrev pub was_refused : WorkflowStatus → Bool
was_refused budget_exceeded = true
was_refused budget_unverifiable = true
was_refused spend_unrecordable = true
was_refused _ = false

-- A row says `completed` exactly if the workflow was not refused and reached detection, no detection
-- call failed, no detector threw, the scan's input was whole and every priced call reached the ledger.
pub completed_iff :
    (unrecorded : Bool) (spend : ℕ) (w : WorkflowResult) (degraded : Bool)
    → ((scanned_outcome unrecorded spend w degraded).status ≡ completed) ↔ (
        (was_refused w.status ≡ false)
        × (never_detected w.status w.coverage_failed ≡ false)
        × (degraded ≡ false)
        × (or_else w.coverage_failed 0 ≡ 0)
        × (or_else w.detector_failures 0 ≡ 0)
        × (unrecorded ≡ false))
unfolding scanned_outcome outcome_from_workflow is_degraded empty_outcome never_detected
completed_iff unrecorded spend w degraded = ground arith

-- Whatever the workflow's result, the row's cost is what the scan has spent, its final status is one of
-- completed, incomplete, skipped and failed, and it has no code exactly if it is completed.
pub outcome_is_final :
    (unrecorded : Bool) (spend : ℕ) (w : WorkflowResult) (degraded : Bool)
    → ((scanned_outcome unrecorded spend w degraded).cost_usd ≡ spend)
      × (is_unfinished (scanned_outcome unrecorded spend w degraded).status ≡ false)
      × (((scanned_outcome unrecorded spend w degraded).code ≡ none)
          ↔ ((scanned_outcome unrecorded spend w degraded).status ≡ completed))
unfolding scanned_outcome outcome_from_workflow empty_outcome
outcome_is_final unrecorded spend w degraded = ground arith
