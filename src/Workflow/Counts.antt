-- ===== src/Workflow/Counts.antt =====
-- The counters of executeWorkflow agree with each other and with the lists.
use fixor.Prelude.{
  ℕ, ◌+◌, ◌≡◌, ◌∙◌, refl, ap, subst, inl, inr, Option, none, some, List, [], ◌∷◌, map, String,
  arith, ltb, Bool-cases, or_else, length, length-map, Map, get, put,
}
use fixor.Findings.{Finding}
use fixor.Findings.Partition.{partition_length}
use fixor.Client.{Coverage}
use fixor.Client.Tally.{Delta, total_count, total_count-put}
use fixor.Workflow.{
  Settled, fulfilled, rejected, Fix, PatchQuality, InputError, GuardError, DetectorFailure,
  AuditResult,
}
use fixor.Workflow.Input.{Payload, changed_lines}
use fixor.Workflow.Detection.{
  count_by_detector, split_by_changes, dedupe_normalized_findings, gather, phase5_detectors,
}
use fixor.Workflow.Fixes.{
  routed, unsupported_total, FixResult, fix_result, count_quality, record_fix, record_fixes,
  generate_fixes,
}
use fixor.Workflow.Status.{push_errors, push_coverage, push_detectors, push_degradation, finalize}
use fixor.Workflow.Run.{
  AuditEnv, Detected, detect_diff, count_routed, finish_audit, execute_diff, org_settings_of,
}
use fixor.Workflow.Tallied.{
  fix_failures, low_fixes, IsTallied, record_fixes-IsTallied, push_degradation-IsTallied,
}

-- The fields that the detectors' phase and the routing have set.
abbrev pub Routed : Type 0
Routed = ℕ × Option (Map ℕ) × ℕ × ℕ × ℕ × List Finding

abbrev pub routed_fields : AuditResult → Routed
routed_fields r = (
  r.total_findings, r.findings_by_detector, r.sql_injection_findings, r.classified_findings,
  r.skipped_findings, r.pre_existing_findings,
)

count_quality-routed_fields :
    (q : PatchQuality) (r : AuditResult) → routed_fields (count_quality q r) ≡ routed_fields r
unfolding count_quality
count_quality-routed_fields PatchQuality.high r = refl
count_quality-routed_fields PatchQuality.medium r = refl
count_quality-routed_fields PatchQuality.low r = refl

record_fix-routed_fields :
    (f : Finding) (x : Settled Fix) (r : AuditResult)
    → routed_fields (record_fix f x r) ≡ routed_fields r
unfolding record_fix
record_fix-routed_fields f (fulfilled x) r = count_quality-routed_fields x.patch_quality _
record_fix-routed_fields f (rejected message) r = refl

record_fixes-routed_fields :
    (xs : List FixResult) (r : AuditResult) → routed_fields (record_fixes xs r) ≡ routed_fields r
unfolding record_fixes record_fix
record_fixes-routed_fields [] r = refl
record_fixes-routed_fields (x ∷ xs) r =
    record_fixes-routed_fields xs (record_fix x.finding x.result r)
    ∙ record_fix-routed_fields x.finding x.result r

push_detectors-routed_fields :
    (fs : List DetectorFailure) (r : AuditResult)
    → routed_fields (push_detectors fs r) ≡ routed_fields r
unfolding push_detectors
push_detectors-routed_fields [] r = refl
push_detectors-routed_fields (f ∷ fs) r = refl

push_degradation-routed_fields :
    (inputs : List InputError) (guards : List GuardError) (delta : Delta)
    (fs : List DetectorFailure) (r : AuditResult)
    → routed_fields (push_degradation inputs guards delta fs r) ≡ routed_fields r
unfolding push_degradation push_coverage push_errors
push_degradation-routed_fields inputs guards delta fs r =
    push_detectors-routed_fields fs _
    ∙ elim (Bool-cases (ltb 0 delta.failed)) [ inl yes' ↦ rw yes' refl | inr no' ↦ rw no' refl ]

routed-unsupported : (fs : List Finding) → length (routed fs) + unsupported_total fs ≡ length fs
unfolding routed unsupported_total
routed-unsupported [] = refl
routed-unsupported (f ∷ fs) = ground (arith, routed-unsupported fs)

total_count-by_detector :
    (counts : Map ℕ) (fs : List Finding)
    → total_count (count_by_detector counts fs) ≡ total_count counts + length fs
unfolding count_by_detector
total_count-by_detector counts [] = omega arith
total_count-by_detector counts (f ∷ fs) =
    let n = or_else (get f.detector_id counts) 0 + 1 in
    omega (
      arith,
      total_count-put f.detector_id n counts,
      total_count-by_detector (put f.detector_id n counts) fs,
    )

split_by_changes-length :
    (changed : Option (Map (List ℕ))) (fs : List Finding)
    → length (split_by_changes changed fs).introduced
        + length (split_by_changes changed fs).pre_existing
      ≡ length fs
unfolding split_by_changes
split_by_changes-length none fs = omega arith
split_by_changes-length (some changed) fs = partition_length fs changed

generate_fixes-IsTallied :
    (fix : String → Finding → Settled Fix) (fs : List Finding) (r : AuditResult)
    → IsTallied 0 r
    → IsTallied (length fs) (generate_fixes fix fs r)
unfolding generate_fixes
generate_fixes-IsTallied fix fs r t =
    subst (λ n. IsTallied n (generate_fixes fix fs r))
      (omega (arith, length-map (fix_result fix) fs))
      (record_fixes-IsTallied (map (fix_result fix) fs) 0 r t)

finalize-IsTallied :
    (llm detectors done : ℕ) (r : AuditResult)
    → IsTallied done r
    → IsTallied done (finalize llm detectors r)
unfolding finalize
finalize-IsTallied llm detectors done r t = record {
  generated = t.generated;
  qualities = t.qualities;
  lows = t.lows;
  outcomes = t.outcomes;
}

module _ (env : AuditEnv) (payload : Payload) (before : Coverage) where
  pub finish_audit-IsTallied :
      (skipped : AuditResult → ℕ) (found : Detected)
      → IsTallied 0 found.result
      → IsTallied (length (routed found.findings)) (finish_audit env payload before skipped found)
  unfolding finish_audit count_routed
  finish_audit-IsTallied skipped found t = finalize-IsTallied _ _ _ _ (
      push_degradation-IsTallied _ _ _ _ _ _ (
        generate_fixes-IsTallied env.fix _ _ (record {
          generated = t.generated;
          qualities = t.qualities;
          lows = t.lows;
          outcomes = t.outcomes;
        })))

  pub finish_audit-routed_fields :
      (skipped : AuditResult → ℕ) (found : Detected)
      → routed_fields (finish_audit env payload before skipped found)
        ≡ routed_fields (count_routed env skipped found)
  unfolding finish_audit finalize generate_fixes
  finish_audit-routed_fields skipped found =
      push_degradation-routed_fields _ _ _ _ _
      ∙ record_fixes-routed_fields (map (fix_result env.fix) (routed found.findings))
          (count_routed env skipped found)

  -- The counters of an audit of a diff agree: every generated fix is in the list and in one of the three qualities, the
  -- low ones are the fixes of low quality, every classified finding has a fix or an error of its own, and every finding
  -- counted is counted under one detector and is classified, skipped or pre-existing.
  pub audit_counts :
      (diff : String)
      → let r = execute_diff env payload before diff in
        (r.fixes_generated ≡ length r.fixes)
        × (r.high_quality_patches + r.medium_quality_patches + r.low_quality_patches
            ≡ r.fixes_generated)
        × (r.low_quality_patches ≡ low_fixes r.fixes)
        × (r.classified_findings ≡ r.fixes_generated + fix_failures r.errors)
        × (total_count (or_else r.findings_by_detector []) ≡ r.total_findings)
        × (r.classified_findings + r.skipped_findings + length r.pre_existing_findings
            ≡ r.total_findings)
  unfolding execute_diff detect_diff count_routed
  audit_counts diff =
      let found = detect_diff env payload diff in
      let skipped = λ (r : AuditResult). unsupported_total found.findings in
      let t =
        finish_audit-IsTallied skipped found
          (record { generated = refl; qualities = refl; lows = refl; outcomes = refl }) in
      let same = finish_audit-routed_fields skipped found in
      let merged =
        dedupe_normalized_findings
          (gather env.minimatch (org_settings_of env.org_settings) (λ id. env.detect id diff)
            phase5_detectors).findings in
      (
        t.generated,
        t.qualities,
        t.lows,
        ap (λ f. f.3) same ∙ t.outcomes,
        omega (
          arith,
          ap (λ f. total_count (or_else f.1 [])) same,
          total_count-by_detector [] merged,
          ap (λ f. f.0) same,
        ),
        omega (
          arith,
          ap (λ f. f.0) same,
          ap (λ f. f.3) same,
          ap (λ f. f.4) same,
          ap (λ f. length f.5) same,
          routed-unsupported found.findings,
          split_by_changes-length (changed_lines payload) merged,
        ),
      )
