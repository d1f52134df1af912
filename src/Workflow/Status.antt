-- ===== src/Workflow/Status.antt =====
-- The end of executeWorkflow: the errors of a degraded scan, the status, automationReady and
-- computeAutomationDecisionReason.
use fixor.Prelude.{
  ℕ, Bool, true, false, not, ◌&&◌, ◌||◌, some, List, [], ◌∷◌, ◌++◌, map, ltb, ◌==◌, if◌then◌else◌,
  length, any, is_empty,
}
use fixor.ScanRun.Verdict.{WorkflowStatus}
use fixor.Client.Tally.{Delta}
use fixor.Workflow.{
  Fix, WorkflowError, InputError, GuardError, DetectorFailure, AuditResult, DecisionReason,
  input_degraded, guard_unresolved, calls_failed, detectors_threw, coverage_degraded,
  workflow_failed, partial_errors, nothing_classified, low_quality_patches, warnings_present,
  all_patches_good, not_ready,
}

unfoldable pub push_errors : List WorkflowError → AuditResult → AuditResult
push_errors es r = record r { errors = r.errors ++ es }

unfoldable pub push_coverage : Delta → AuditResult → AuditResult
push_coverage delta r =
    let noted = record r { llm_coverage = some delta } in
    if ltb 0 delta.failed
    then record noted { errors = noted.errors ++ calls_failed delta ∷ [] }
    else noted

unfoldable pub push_detectors : List DetectorFailure → AuditResult → AuditResult
push_detectors [] r = r
push_detectors (f ∷ fs) r = record r {
  detector_failures = some (f ∷ fs);
  errors = r.errors ++ detectors_threw (f ∷ fs) ∷ [];
}

-- The four loops and blocks before the status, in their order.
unfoldable pub push_degradation :
    List InputError → List GuardError → Delta → List DetectorFailure → AuditResult → AuditResult
unfolding push_errors push_coverage push_detectors
push_degradation inputs guards delta failures r = push_detectors failures (
    push_coverage delta
      (push_errors (map guard_unresolved guards) (push_errors (map input_degraded inputs) r)))

unfoldable pub final_status : (classified fixes_generated errors : ℕ) → WorkflowStatus
final_status classified fixes_generated errors =
    if (classified == 0) && (errors == 0)
    then WorkflowStatus.no_action
    else if ltb 0 classified && (fixes_generated == 0)
    then WorkflowStatus.failed
    else if ltb 0 fixes_generated && ltb 0 errors
    then WorkflowStatus.partial_success
    else if ltb 0 fixes_generated && (errors == 0)
    then WorkflowStatus.success
    else WorkflowStatus.failed

abbrev pub is_success : WorkflowStatus → Bool
is_success WorkflowStatus.success = true
is_success _ = false

abbrev pub has_warnings : Fix → Bool
has_warnings f = not (is_empty f.patch_warnings)

abbrev reason_by_status :
    WorkflowStatus → (low_quality : ℕ) → (any_warnings ready : Bool) → DecisionReason
reason_by_status WorkflowStatus.failed low any' ready = workflow_failed
reason_by_status WorkflowStatus.partial_success low any' ready = partial_errors
reason_by_status WorkflowStatus.no_action low any' ready = nothing_classified
reason_by_status WorkflowStatus.success low any' ready =
    if ltb 0 low
    then low_quality_patches
    else if any'
    then warnings_present
    else if ready
    then all_patches_good
    else not_ready
reason_by_status _ low any' ready = if ready then all_patches_good else not_ready

unfoldable pub compute_automation_decision_reason :
    WorkflowStatus
    → (low_quality : ℕ) → (any_warnings ready : Bool) → (llm_calls_failed detectors_failed : ℕ)
    → DecisionReason
compute_automation_decision_reason status low any' ready llm detectors =
    if ltb 0 llm || ltb 0 detectors
    then coverage_degraded llm detectors
    else reason_by_status status low any' ready

-- From `let finalStatus` to the end.
unfoldable pub finalize : (llm_calls_failed detectors_failed : ℕ) → AuditResult → AuditResult
unfolding final_status compute_automation_decision_reason
finalize llm detectors r =
    let status = final_status r.classified_findings r.fixes_generated (length r.errors) in
    let warned = any has_warnings r.fixes in
    let ready = is_success status && ((r.low_quality_patches == 0) && not warned) in
    record r {
      status = status;
      automation_ready = ready;
      automation_decision_reason =
          compute_automation_decision_reason status r.low_quality_patches warned ready llm
            detectors;
    }
