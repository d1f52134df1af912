-- ===== src/Workflow/Rows.antt =====
-- What the scan's row says of an audit: runAuditorWorkflow composed with scannedOutcome of
-- src/integrations/github/pr-webhook-handler.ts.
use fixor.Prelude.{
  ℕ, ◌+◌, ◌≡◌, ◌≢◌, ◌∙◌, refl, ap, ◌↔◌, inl, inr, Bool, true, false, none, some, List, [], ◌∷◌, map,
  String, arith, ltb, Bool-cases, or_else, length, is_empty,
}
use fixor.Findings.{Finding}
use fixor.Client.{Coverage}
use fixor.Client.Tally.{Delta, failures_of, coverage_since_lem}
use fixor.ScanRun.Verdict.{WorkflowStatus}
use fixor.Workflow.{
  Settled, fulfilled, rejected, InputError, GuardError, DetectorFailure, AuditResult,
  input_degraded, guard_unresolved, Fix, PatchQuality,
}
use fixor.Workflow.Input.{Payload, scan_input_errors, route_guard_errors}
use fixor.Workflow.Detection.{phase5_detectors}
use fixor.Workflow.Fixes.{
  routed, unsupported_total, FixResult, fix_result, record_fix, record_fixes, generate_fixes,
  count_quality,
}
use fixor.Workflow.Status.{
  push_errors, push_coverage, push_detectors, push_degradation, final_status, finalize,
}
use fixor.Workflow.Run.{
  AuditEnv, detect_diff, finish_audit, execute_diff, org_settings_of, coverage_delta, count_routed,
}
use fixor.Workflow.Clean.{nil_iff, none_thrown, gather-failures}
use fixor.ScanRun.{completed}
use fixor.ScanRun.Verdict.{scanned_outcome, completed_iff, never_detected, was_refused}
use fixor.Workflow.Input.{extract_diff_string}
use fixor.Workflow.Run.{
  run_auditor_workflow, execute_workflow, execute_by, or_failed, failed_result, row_view,
  failed_calls, threw_count, timed_out_message,
}

threw_count-length :
    (fs : List DetectorFailure) (r : AuditResult)
    → r.detector_failures ≡ none
    → or_else (threw_count (push_detectors fs r).detector_failures) 0 ≡ length fs
unfolding push_detectors
threw_count-length [] r h = ap (λ x. or_else (threw_count x) 0) h
threw_count-length (f ∷ fs) r h = refl

push_detectors-coverage :
    (fs : List DetectorFailure) (r : AuditResult)
    → (push_detectors fs r).llm_coverage ≡ r.llm_coverage
unfolding push_detectors
push_detectors-coverage [] r = refl
push_detectors-coverage (f ∷ fs) r = refl

push_coverage-fields :
    (delta : Delta) (r : AuditResult)
    → ((push_coverage delta r).llm_coverage ≡ some delta)
      × ((push_coverage delta r).detector_failures ≡ r.detector_failures)
unfolding push_coverage
push_coverage-fields delta r = elim (Bool-cases (ltb 0 delta.failed)) [
  | inl yes' ↦ rw yes' (refl, refl)
  | inr no' ↦ rw no' (refl, refl)
]

count_quality-detector_failures :
    (q : PatchQuality) (r : AuditResult)
    → (count_quality q r).detector_failures ≡ r.detector_failures
unfolding count_quality
count_quality-detector_failures PatchQuality.high r = refl
count_quality-detector_failures PatchQuality.medium r = refl
count_quality-detector_failures PatchQuality.low r = refl

record_fix-detector_failures :
    (f : Finding) (x : Settled Fix) (r : AuditResult)
    → (record_fix f x r).detector_failures ≡ r.detector_failures
unfolding record_fix
record_fix-detector_failures f (fulfilled x) r = count_quality-detector_failures x.patch_quality _
record_fix-detector_failures f (rejected message) r = refl

push_degradation-fields :
    (inputs : List InputError) (guards : List GuardError) (delta : Delta)
    (fs : List DetectorFailure) (r : AuditResult)
    → r.detector_failures ≡ none
    → ((push_degradation inputs guards delta fs r).llm_coverage ≡ some delta)
      × (or_else (threw_count (push_degradation inputs guards delta fs r).detector_failures) 0
          ≡ length fs)
unfolding push_degradation push_errors
push_degradation-fields inputs guards delta fs r h =
    let r' =
      push_errors (map guard_unresolved guards) (push_errors (map input_degraded inputs) r) in
    let (coverage, failures) = push_coverage-fields delta r' in
    (
      push_detectors-coverage fs (push_coverage delta r') ∙ coverage,
      threw_count-length fs (push_coverage delta r') (failures ∙ h),
    )

is_empty-length {ℓ} : {A : Type ℓ} (xs : List A) → (is_empty xs ≡ true) ↔ (length xs ≡ 0)
is_empty-length [] = ground arith
is_empty-length (x ∷ xs) = ground arith

record_fixes-detector_failures :
    (xs : List FixResult) (r : AuditResult)
    → (record_fixes xs r).detector_failures ≡ r.detector_failures
unfolding record_fixes
record_fixes-detector_failures [] r = refl
record_fixes-detector_failures (x ∷ xs) r =
    record_fixes-detector_failures xs (record_fix x.finding x.result r)
    ∙ record_fix-detector_failures x.finding x.result r

final_status-refused :
    (classified fixes errors : ℕ) → was_refused (final_status classified fixes errors) ≡ false
unfolding final_status
final_status-refused classified fixes errors = ground arith

not_never : (s : WorkflowStatus) (n : ℕ) → never_detected s (some n) ≡ false
unfolding never_detected
not_never WorkflowStatus.success n = refl
not_never WorkflowStatus.partial_success n = refl
not_never WorkflowStatus.failed n = refl
not_never WorkflowStatus.no_action n = refl
not_never WorkflowStatus.budget_exceeded n = refl
not_never WorkflowStatus.budget_unverifiable n = refl
not_never WorkflowStatus.spend_unrecordable n = refl
not_never WorkflowStatus.scan_interrupted n = refl

-- scanInputDegraded of the payload
abbrev pub is_input_degraded : Payload → Bool
is_input_degraded payload =
    ltb 0 (length (scan_input_errors payload) + length (route_guard_errors payload))

module _ (env : AuditEnv) (payload : Payload) (before : Coverage) (diff : String) where
  audited : AuditResult
  audited = execute_diff env payload before diff

  audited-fields :
      (audited.llm_coverage ≡ some (coverage_delta env before))
      × (or_else (threw_count audited.detector_failures) 0
          ≡ length (detect_diff env payload diff).failures)
  unfolding audited execute_diff finish_audit finalize generate_fixes count_routed detect_diff
  audited-fields =
      let found = detect_diff env payload diff in
      let r0 = count_routed env (λ r. unsupported_total found.findings) found in
      let xs = map (fix_result env.fix) (routed found.findings) in
      push_degradation-fields (scan_input_errors payload) (route_guard_errors payload)
        (coverage_delta env before) found.failures (record_fixes xs r0)
        (record_fixes-detector_failures xs r0)

  audited-row :
      (was_refused audited.status ≡ false)
      × (never_detected audited.status (failed_calls audited.llm_coverage) ≡ false)
      × (or_else (failed_calls audited.llm_coverage) 0 ≡ length (failures_of env.detection_calls))
      × (is_empty (detect_diff env payload diff).failures
          ≡ none_thrown (λ id. env.detect id diff) phase5_detectors)
  unfolding audited execute_diff finish_audit finalize detect_diff
  audited-row =
      let found = detect_diff env payload diff in
      let covered = ap failed_calls audited-fields.0 in
      (
        final_status-refused audited.classified_findings audited.fixes_generated
            (length audited.errors),
        ap (never_detected audited.status) covered ∙ not_never audited.status _,
        ap (λ n. or_else n 0) covered ∙ (coverage_since_lem env.detection_calls before).1,
        gather-failures env.minimatch (org_settings_of env.org_settings) (λ id. env.detect id diff)
            phase5_detectors,
      )

  audited-completed :
      (unrecorded : Bool) (spend : ℕ)
      → ((scanned_outcome unrecorded spend (row_view audited) (is_input_degraded payload)).status
          ≡ completed)
        ↔ ((none_thrown (λ id. env.detect id diff) phase5_detectors ≡ true)
            × (failures_of env.detection_calls ≡ [])
            × (scan_input_errors payload ≡ [])
            × (route_guard_errors payload ≡ [])
            × (unrecorded ≡ false))
  unfolding row_view
  audited-completed unrecorded spend = ground (
    arith,
    completed_iff unrecorded spend (row_view audited) (is_input_degraded payload),
    audited-row,
    audited-fields.1,
    nil_iff (failures_of env.detection_calls),
    nil_iff (scan_input_errors payload),
    nil_iff (route_guard_errors payload),
    is_empty-length (detect_diff env payload diff).failures,
  )

failed_row :
    (unrecorded : Bool) (spend : ℕ) (message : String) (degraded : Bool)
    → (scanned_outcome unrecorded spend (row_view (failed_result message)) degraded).status
      ≢ completed
unfolding failed_result row_view never_detected
failed_row unrecorded spend message degraded h =
    ground (arith, (completed_iff unrecorded spend (row_view (failed_result message)) degraded).0 h)

module _ (env : AuditEnv) (payload : Payload) (before : Coverage) (diff : String) (timeout_ms : ℕ)
    (is_late unrecorded : Bool) (spend : ℕ) where
  -- The outcome that scannedOutcome gives for a scan of a diff (the row gets another one if the comment is refused, the
  -- handler throws or the scan's deadline closes it) says `completed` exactly if the workflow did not time out, no
  -- detector threw, no detection call that the process tallied meanwhile failed, neither a whole file nor a layout was
  -- missing and every priced call reached the ledger. Fixes that fail do not matter.
  pub outcome_completed_iff :
      extract_diff_string payload ≡ some diff
      → let r = run_auditor_workflow env payload before timeout_ms is_late in
        ((scanned_outcome unrecorded spend (row_view r) (is_input_degraded payload)).status
          ≡ completed)
        ↔ ((is_late ≡ false)
            × (none_thrown (λ id. env.detect id diff) phase5_detectors ≡ true)
            × (failures_of env.detection_calls ≡ [])
            × (scan_input_errors payload ≡ [])
            × (route_guard_errors payload ≡ [])
            × (unrecorded ≡ false))
  unfolding run_auditor_workflow execute_workflow execute_by or_failed audited
  outcome_completed_iff is_diff = elim (Bool-cases is_late) [
    | inl late ↦ rw late (
        ground (
          arith,
          failed_row unrecorded spend (timed_out_message timeout_ms) (is_input_degraded payload),
        ))
    | inr in_time ↦
        rw (in_time, is_diff)
          (ground (arith, audited-completed env payload before diff unrecorded spend))
  ]
