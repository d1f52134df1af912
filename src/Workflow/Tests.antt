-- ===== src/Workflow/Tests.antt =====
-- The workflow's theorems at concrete payloads.
use fixor.Prelude.{
  ◌+◌, ◌<◌, ◌≡◌, refl, ◌↔◌, true, false, none, some, [], ◌∷◌, String, if◌then◌else◌, or_else,
  length, all, str_eq,
}
use fixor.Findings.{Finding, idor_risk}
use fixor.ScanRun.{completed}
use fixor.ScanRun.Verdict.{scanned_outcome}
use fixor.Client.{Coverage}
use fixor.Client.Tally.{total_count, failures_of}
use fixor.Workflow.{fulfilled, rejected, PatchQuality}
use fixor.Workflow.Input.{
  Payload, text, null_value, SemgrepRoot, extract_diff_string, is_diff_text, scan_input_errors,
  route_guard_errors, parse_semgrep_payload, type_error, validate_root,
}
use fixor.Workflow.Detection.{phase5_detectors}
use fixor.Workflow.Run.{AuditEnv, execute_diff, run_auditor_workflow, row_view}
use fixor.Workflow.Tallied.{fix_failures, low_fixes}
use fixor.Workflow.Counts.{audit_counts}
use fixor.Workflow.Clean.{clean_iff, is_clean, none_thrown, all_fixed, fixes_of}
use fixor.Workflow.Ready.{ready_iff, is_good}
use fixor.Workflow.Rows.{outcome_completed_iff, is_input_degraded}

abbrev idor : Finding
idor = record {
  detector_id = "idor-multi";
  rule_id = "idor";
  file = "a.ts";
  type = idor_risk;
  severity = fixor.Findings.high;
  start_line = 3;
  end_line = 4;
}

-- The detector of IDOR finds one; its fix is good; one of the others throws.
abbrev env : AuditEnv
env = record {
  org_settings = none;
  minimatch = λ file glob. false;
  detect = λ id diff.
      if str_eq id "idor-multi"
      then fulfilled (idor ∷ idor ∷ [])
      else if str_eq id "admin-check-multi"
      then rejected "no model"
      else fulfilled [];
  fix = λ id f. fulfilled (record { patch_quality = PatchQuality.high; patch_warnings = [] });
  detection_calls = none ∷ [];
  json_parse = λ s. if str_eq s "null" then some null_value else none;
  extract_sql_injection =
      λ results. record { file = "q.ts"; rule_id = "sqli"; start_line = 1; end_line = 1 } ∷ [];
}

abbrev tally : Coverage
tally = record { attempted = 0; failures = [] }

abbrev diff_text : String
diff_text = "diff --git a/a.ts b/a.ts"

abbrev payload : Payload
payload = text diff_text

null_throws : parse_semgrep_payload env.json_parse (text "null") ≡ type_error
unfolding parse_semgrep_payload validate_root
null_throws = refl

payload_is_diff : extract_diff_string payload ≡ some diff_text
unfolding extract_diff_string is_diff_text
payload_is_diff = refl

audit_counts_example :
    let r = execute_diff env payload tally diff_text in
    (r.fixes_generated ≡ length r.fixes)
    × (r.high_quality_patches + r.medium_quality_patches + r.low_quality_patches
        ≡ r.fixes_generated)
    × (r.low_quality_patches ≡ low_fixes r.fixes)
    × (r.classified_findings ≡ r.fixes_generated + fix_failures r.errors)
    × (total_count (or_else r.findings_by_detector []) ≡ r.total_findings)
    × (r.classified_findings + r.skipped_findings + length r.pre_existing_findings
        ≡ r.total_findings)
audit_counts_example = audit_counts env payload tally diff_text

clean_iff_example : (is_clean (execute_diff env payload tally diff_text).status ≡ true) ↔ (
    (all_fixed (fixes_of env payload tally diff_text) ≡ true)
    × (none_thrown (λ id. env.detect id diff_text) phase5_detectors ≡ true)
    × (failures_of env.detection_calls ≡ [])
    × (scan_input_errors payload ≡ [])
    × (route_guard_errors payload ≡ []))
clean_iff_example = clean_iff env payload tally diff_text

ready_iff_example :
    let r = execute_diff env payload tally diff_text in
    (r.automation_ready ≡ true)
    ↔ ((length r.errors ≡ 0) × (0 < length r.fixes) × (all is_good r.fixes ≡ true))
ready_iff_example = ready_iff env payload tally diff_text

abbrev semgrep_root : SemgrepRoot
semgrep_root = record { results = "r1" ∷ "r2" ∷ []; findings = none }

outcome_completed_iff_example :
    let r = run_auditor_workflow env payload tally 120000 false in
    ((scanned_outcome false 7 (row_view r) (is_input_degraded payload)).status ≡ completed) ↔ (
      (false ≡ false)
      × (none_thrown (λ id. env.detect id diff_text) phase5_detectors ≡ true)
      × (failures_of env.detection_calls ≡ [])
      × (scan_input_errors payload ≡ [])
      × (route_guard_errors payload ≡ [])
      × (false ≡ false))
outcome_completed_iff_example =
    outcome_completed_iff env payload tally diff_text 120000 false false 7 payload_is_diff
