-- ===== src/Workflow/Clean.antt =====
-- When the audit of a diff says that a scan is clean.
use fixor.Prelude.{
  ℕ, ◌+◌, ◌≤◌, ◌≡◌, ◌∙◌, refl, ap, ◌↔◌, inl, inr, Bool, true, false, not, ◌&&◌, Option, List, [],
  ◌∷◌, ◌++◌, map, String, arith, ltb, if◌then◌else◌, Bool-cases, length, all, length-append,
  length-map, is_empty,
}
use fixor.Findings.{Finding}
use fixor.Client.{Coverage}
use fixor.Client.Tally.{Delta, failures_of, coverage_since_lem}
use fixor.ScanRun.Verdict.{WorkflowStatus}
use fixor.Workflow.{
  Settled, fulfilled, rejected, WorkflowError, InputError, GuardError, DetectorFailure, AuditResult,
  input_degraded, guard_unresolved, Fix, PatchQuality,
}
use fixor.Workflow.Input.{Payload, scan_input_errors, route_guard_errors}
use fixor.Workflow.Detection.{phase5_detectors, gather, Gathered, gather_result}
use fixor.Findings.Settings.{OrgSettingsView}
use fixor.Workflow.Fixes.{
  routed, unsupported_total, FixResult, fix_result, record_fix, record_fixes, generate_fixes,
  count_quality,
}
use fixor.Workflow.Status.{
  push_errors, push_coverage, push_detectors, push_degradation, final_status, finalize,
}
use fixor.Workflow.Run.{
  AuditEnv, Detected, detect_diff, finish_audit, execute_diff, org_settings_of, coverage_delta,
  count_routed,
}
use fixor.Workflow.Tallied.{fix_failures}
use fixor.Workflow.Counts.{finish_audit-IsTallied, finish_audit-routed_fields}

abbrev pub is_fulfilled {ℓ} : {A : Type ℓ} → Settled A → Bool
is_fulfilled (fulfilled a) = true
is_fulfilled (rejected reason) = false

-- The statuses that read as a scan with nothing amiss.
abbrev pub is_clean : WorkflowStatus → Bool
is_clean WorkflowStatus.success = true
is_clean WorkflowStatus.no_action = true
is_clean _ = false

abbrev pub none_thrown : (String → Settled (List Finding)) → List String → Bool
none_thrown detect ids = all (λ id. is_fulfilled (detect id)) ids

abbrev pub all_fixed : List FixResult → Bool
all_fixed xs = all (λ x. is_fulfilled x.result) xs

abbrev pub one_if : Bool → ℕ
one_if b = if b then 1 else 0

push_detectors-length :
    (fs : List DetectorFailure) (r : AuditResult)
    → length (push_detectors fs r).errors ≡ length r.errors + one_if (not (is_empty fs))
unfolding push_detectors
push_detectors-length [] r = omega arith
push_detectors-length (f ∷ fs) r = omega (arith, length-append r.errors (_ ∷ []))

push_coverage-length :
    (delta : Delta) (r : AuditResult)
    → length (push_coverage delta r).errors ≡ length r.errors + one_if (ltb 0 delta.failed)
unfolding push_coverage
push_coverage-length delta r = elim (Bool-cases (ltb 0 delta.failed)) [
  | inl yes' ↦ rw yes' (omega (arith, length-append r.errors (_ ∷ [])))
  | inr no' ↦ rw no' (omega arith)
]

push_degradation-length :
    (inputs : List InputError) (guards : List GuardError) (delta : Delta)
    (fs : List DetectorFailure) (r : AuditResult)
    → length (push_degradation inputs guards delta fs r).errors
      ≡ length r.errors
        + length inputs
        + length guards
        + one_if (ltb 0 delta.failed)
        + one_if (not (is_empty fs))
unfolding push_degradation push_errors
push_degradation-length inputs guards delta fs r =
    let inputs' = map input_degraded inputs in
    let guards' = map guard_unresolved guards in
    let r' = push_errors guards' (push_errors inputs' r) in
    omega (
      arith,
      push_detectors-length fs (push_coverage delta r'),
      push_coverage-length delta r',
      length-append r.errors inputs',
      length-append (r.errors ++ inputs') guards',
      length-map input_degraded inputs,
      length-map guard_unresolved guards,
    )

count_quality-errors : (q : PatchQuality) (r : AuditResult) → (count_quality q r).errors ≡ r.errors
unfolding count_quality
count_quality-errors PatchQuality.high r = refl
count_quality-errors PatchQuality.medium r = refl
count_quality-errors PatchQuality.low r = refl

record_fix-errors :
    (f : Finding) (x : Settled Fix) (r : AuditResult)
    → length (record_fix f x r).errors ≡ length r.errors + one_if (not (is_fulfilled x))
unfolding record_fix
record_fix-errors f (fulfilled x) r =
    omega (arith, ap length (count_quality-errors x.patch_quality _))
record_fix-errors f (rejected message) r = omega (arith, length-append r.errors (_ ∷ []))

-- No error, exactly if each finding that is classified has its fix.
record_fixes-errors :
    (xs : List FixResult) (r : AuditResult)
    → ((length (record_fixes xs r).errors ≡ 0) ↔ ((length r.errors ≡ 0) × (all_fixed xs ≡ true)))
unfolding record_fixes record_fix count_quality
record_fixes-errors [] r = ground arith
record_fixes-errors (x ∷ xs) r = ground (
  arith,
  record_fix-errors x.finding x.result r,
  record_fixes-errors xs (record_fix x.finding x.result r),
)

gather_result-failures :
    (minimatch : String → String → Bool) (settings : Option OrgSettingsView) (id : String)
    (x : Settled (List Finding)) (rest : Gathered)
    → is_empty (gather_result minimatch settings id x rest).failures
      ≡ (is_fulfilled x && is_empty rest.failures)
unfolding gather_result
gather_result-failures minimatch settings id (fulfilled fs) rest = refl
gather_result-failures minimatch settings id (rejected reason) rest = refl

pub gather-failures :
    (minimatch : String → String → Bool) (settings : Option OrgSettingsView)
    (detect : String → Settled (List Finding)) (ids : List String)
    → is_empty (gather minimatch settings detect ids).failures ≡ none_thrown detect ids
unfolding gather
gather-failures minimatch settings detect [] = refl
gather-failures minimatch settings detect (id ∷ ids) =
    gather_result-failures minimatch settings id (detect id) (gather minimatch settings detect ids)
    ∙ ap (λ b. is_fulfilled (detect id) && b) (gather-failures minimatch settings detect ids)

final_status-clean :
    (classified fixes errors failed : ℕ)
    → classified ≡ fixes + failed
    → failed ≤ errors
    → (is_clean (final_status classified fixes errors) ≡ true) ↔ (errors ≡ 0)
unfolding final_status
final_status-clean classified fixes errors failed sum most = ground arith

fix_failures-bounds : (es : List WorkflowError) → fix_failures es ≤ length es
fix_failures-bounds [] = omega arith
fix_failures-bounds (e ∷ es) = ground (arith, fix_failures-bounds es)

pub nil_iff {ℓ} : {A : Type ℓ} (xs : List A) → (xs ≡ []) ↔ (length xs ≡ 0)
nil_iff [] = ((λ h. refl), (λ h. refl))
nil_iff (x ∷ xs) = ((λ h. ap length h), (λ h. absurd (omega (arith, h))))

module _ (env : AuditEnv) (payload : Payload) (before : Coverage) (diff : String) where
  -- What the workflow runs on.
  abbrev pub fixes_of : List FixResult
  fixes_of = map (fix_result env.fix) (routed (detect_diff env payload diff).findings)

  found : Detected
  found = detect_diff env payload diff

  audited-errors :
      length (execute_diff env payload before diff).errors
      ≡ length
          (record_fixes fixes_of
            (count_routed env (λ r. unsupported_total found.findings) found)).errors
        + length (scan_input_errors payload)
        + length (route_guard_errors payload)
        + one_if (ltb 0 (length (failures_of env.detection_calls)))
        + one_if (not (none_thrown (λ id. env.detect id diff) phase5_detectors))
  unfolding execute_diff finish_audit generate_fixes finalize found detect_diff
  audited-errors =
      let calls = (coverage_since_lem env.detection_calls before).1 in
      let threw =
        gather-failures env.minimatch (org_settings_of env.org_settings) (λ id. env.detect id diff)
          phase5_detectors in
      omega (
        arith,
        push_degradation-length (scan_input_errors payload) (route_guard_errors payload)
            (coverage_delta env before) found.failures
            (record_fixes fixes_of
              (count_routed env (λ r. unsupported_total found.findings) found)),
        ap (λ n. one_if (ltb 0 n)) calls,
        ap (λ b. one_if (not b)) threw,
      )

  -- Generating the fixes starts without an error.
  starts_without_errors :
      (count_routed env (λ r. unsupported_total found.findings) found).errors ≡ []
  unfolding found detect_diff count_routed
  starts_without_errors = refl

  pub audited-status :
      (is_clean (execute_diff env payload before diff).status ≡ true)
      ↔ (length (execute_diff env payload before diff).errors ≡ 0)
  unfolding execute_diff finish_audit finalize detect_diff found count_routed
  audited-status =
      let t =
        finish_audit-IsTallied env payload before (λ r. unsupported_total found.findings) found
          (record { generated = refl; qualities = refl; lows = refl; outcomes = refl }) in
      let same =
        finish_audit-routed_fields env payload before (λ r. unsupported_total found.findings)
          found in
      let r = execute_diff env payload before diff in
      final_status-clean r.classified_findings r.fixes_generated (length r.errors)
        (fix_failures r.errors) (ap (λ f. f.3) same ∙ t.outcomes) (fix_failures-bounds r.errors)

  -- The audit of a diff ends as `success` or `no_action` exactly if every classified finding has its fix, no detector
  -- threw, no detection call that the process tallied meanwhile failed and neither a whole file nor a layout was missing from the scan's input.
  pub clean_iff : (is_clean (execute_diff env payload before diff).status ≡ true) ↔ (
      (all_fixed fixes_of ≡ true)
      × (none_thrown (λ id. env.detect id diff) phase5_detectors ≡ true)
      × (failures_of env.detection_calls ≡ [])
      × (scan_input_errors payload ≡ [])
      × (route_guard_errors payload ≡ []))
  clean_iff = ground (
    arith,
    audited-status,
    audited-errors,
    ap length starts_without_errors,
    record_fixes-errors fixes_of (count_routed env (λ r. unsupported_total found.findings) found),
    nil_iff (failures_of env.detection_calls),
    nil_iff (scan_input_errors payload),
    nil_iff (route_guard_errors payload),
  )
