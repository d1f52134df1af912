-- ===== src/Workflow/Ready.antt =====
-- When the audit of a diff may be acted on without a reviewer.
use fixor.Prelude.{
  ℕ, ◌+◌, ◌<◌, ◌≡◌, ◌∙◌, refl, ap, ◌↔◌, Bool, true, false, not, ◌&&◌, List, [], ◌∷◌, String, arith,
  length, any, all,
}
use fixor.Client.{Coverage}
use fixor.Workflow.{AuditResult, Fix}
use fixor.Workflow.Input.{Payload}
use fixor.Workflow.Fixes.{unsupported_total}
use fixor.Workflow.Status.{final_status, finalize, has_warnings, is_success}
use fixor.Workflow.Run.{AuditEnv, detect_diff, finish_audit, execute_diff, count_routed}
use fixor.Workflow.Tallied.{fix_failures, low_fixes, is_low}
use fixor.Workflow.Counts.{finish_audit-IsTallied, finish_audit-routed_fields}

-- A fix of high or medium quality with no warning.
abbrev pub is_good : Fix → Bool
is_good x = not (is_low x.patch_quality) && not (has_warnings x)

all-is_good :
    (xs : List Fix) → ((low_fixes xs ≡ 0) × (any has_warnings xs ≡ false)) ↔ (all is_good xs ≡ true)
all-is_good [] = ground arith
all-is_good (x ∷ xs) = ground (arith, all-is_good xs)

final_status-success :
    (classified fixes errors failed : ℕ)
    → classified ≡ fixes + failed
    → (is_success (final_status classified fixes errors) ≡ true) ↔ ((errors ≡ 0) × (0 < fixes))
unfolding final_status
final_status-success classified fixes errors failed sum = ground arith

module _ (env : AuditEnv) (payload : Payload) (before : Coverage) (diff : String) where
  -- The audit of a diff is ready for automation exactly if it has no error, at least one fix, and no fix of low quality
  -- or with a warning.
  pub ready_iff :
      let r = execute_diff env payload before diff in
      (r.automation_ready ≡ true)
      ↔ ((length r.errors ≡ 0) × (0 < length r.fixes) × (all is_good r.fixes ≡ true))
  unfolding execute_diff finish_audit finalize detect_diff count_routed
  ready_iff =
      let found = detect_diff env payload diff in
      let skipped = λ (r : AuditResult). unsupported_total found.findings in
      let t =
        finish_audit-IsTallied env payload before skipped found
          (record { generated = refl; qualities = refl; lows = refl; outcomes = refl }) in
      let same = finish_audit-routed_fields env payload before skipped found in
      let r = execute_diff env payload before diff in
      ground (
        arith,
        final_status-success r.classified_findings r.fixes_generated (length r.errors)
            (fix_failures r.errors) (ap (λ f. f.3) same ∙ t.outcomes),
        all-is_good r.fixes,
        t.lows,
        t.generated,
      )
