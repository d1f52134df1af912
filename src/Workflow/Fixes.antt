-- ===== src/Workflow/Fixes.antt =====
-- Routing and fix generation of executeWorkflow. `runWithConcurrency` returns the results in the order of the items
-- (Workers), so the results are those of the findings one after the other.
use fixor.Prelude.{
  ℕ, ◌+◌, Bool, true, false, Option, none, some, List, [], ◌∷◌, ◌++◌, map, String, if◌then◌else◌,
  filterb, str_eq,
}
use fixor.Findings.{Finding, FindingType, sql_injection_risk, get_detector_for}
use fixor.Workflow.{Settled, fulfilled, rejected, Fix, PatchQuality, fix_failed, AuditResult}

abbrev pub is_supported : Option String → Bool
is_supported none = false
is_supported (some id) = true

-- `routed`, without the detector's id, which is looked up again.
unfoldable pub routed : List Finding → List Finding
routed fs = filterb (λ f. is_supported (get_detector_for f.type)) fs

-- `unsupportedTotal`
unfoldable pub unsupported_total : List Finding → ℕ
unsupported_total [] = 0
unsupported_total (f ∷ fs) =
    let rest = unsupported_total fs in
    if is_supported (get_detector_for f.type) then rest else rest + 1

abbrev pub is_sql_injection : FindingType → Bool
is_sql_injection sql_injection_risk = true
is_sql_injection _ = false

pub record FixResult : Type 0 where
  pub finding : Finding
  pub result : Settled Fix

-- The worker of runWithConcurrency.
abbrev pub fix_with : (String → Finding → Settled Fix) → Finding → Option String → Settled Fix
fix_with fix f none = rejected "No detector registered for the type"
fix_with fix f (some id) = fix id f

unfoldable pub fix_result : (String → Finding → Settled Fix) → Finding → FixResult
fix_result fix f = record { finding = f; result = fix_with fix f (get_detector_for f.type) }

-- One of the three counters.
unfoldable pub count_quality : PatchQuality → AuditResult → AuditResult
count_quality PatchQuality.high r = record r { high_quality_patches = r.high_quality_patches + 1 }
count_quality PatchQuality.medium r = record r {
  medium_quality_patches = r.medium_quality_patches + 1;
}
count_quality PatchQuality.low r = record r { low_quality_patches = r.low_quality_patches + 1 }

-- `r.finding.ruleId || "unknown"`
abbrev pub id_or_unknown : String → String
id_or_unknown rule_id = if str_eq rule_id "" then "unknown" else rule_id

unfoldable pub record_fix : Finding → Settled Fix → AuditResult → AuditResult
unfolding count_quality
record_fix f (fulfilled x) r =
    count_quality x.patch_quality
      (record r { fixes = r.fixes ++ x ∷ []; fixes_generated = r.fixes_generated + 1 })
record_fix f (rejected message) r = record r {
  errors = r.errors ++ fix_failed (id_or_unknown f.rule_id) message ∷ [];
}

-- `for (const r of fixResults)`
unfoldable pub record_fixes : List FixResult → AuditResult → AuditResult
unfolding record_fix
record_fixes [] r = r
record_fixes (x ∷ xs) r = record_fixes xs (record_fix x.finding x.result r)

unfoldable pub generate_fixes :
    (String → Finding → Settled Fix) → List Finding → AuditResult → AuditResult
unfolding fix_result record_fixes
generate_fixes fix fs r = record_fixes (map (fix_result fix) fs) r
