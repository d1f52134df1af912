-- ===== src/Workflow/Run.antt =====
-- executeWorkflow and runAuditorWorkflow.
use fixor.Prelude.{
  ℕ, ◌-◌, Bool, not, ◌||◌, Option, none, some, List, [], ◌∷◌, ◌++◌, map, String, if◌then◌else◌,
  or_else, length, filterb, str_eq, codes, contains, join, decimal,
}
use fixor.Findings.{Finding, sql_injection_risk, high, is_suppressed_finding_type}
use fixor.Findings.Settings.{OrgSettingsView}
use fixor.Client.{Coverage, LlmCallFailure}
use fixor.Client.Tally.{Delta, llm_coverage_since, snapshot_llm_coverage, record_outcomes}
use fixor.ScanRun.Verdict.{WorkflowResult}
use fixor.Workflow.{
  Settled, fulfilled, rejected, Fix, DetectorFailure, invalid_payload, workflow_threw, AuditResult,
  empty_result, workflow_failed, workflow_timed_out,
}
use fixor.Workflow.Input.{
  Payload, SqlFinding, SemgrepRoot, ParsedPayload, valid, malformed, type_error,
  extract_diff_string, parse_semgrep_payload, changed_lines, scan_input_errors, route_guard_errors,
}
use fixor.Workflow.Detection.{
  phase5_detectors, gather, apply_settings, dedupe_normalized_findings, count_by_detector,
  split_by_changes,
}
use fixor.Workflow.Fixes.{routed, unsupported_total, is_sql_injection, generate_fixes}
use fixor.Workflow.Status.{push_degradation, finalize}

-- What the workflow calls: the settings of the installation, if there is one; `detect` by the detector's id and the
-- diff; `fix` by the detector's id; the calls of the model that the process tallies while the
-- run goes on, those of other scans among them; and the extraction of SQL findings.
pub record AuditEnv : Type 0 where
  pub org_settings : Option (Settled (Option OrgSettingsView))
  pub minimatch : String → String → Bool
  pub detect : String → String → Settled (List Finding)
  pub fix : String → Finding → Settled Fix
  pub detection_calls : List (Option LlmCallFailure)
  pub json_parse : String → Option Payload
  pub extract_sql_injection : List String → List SqlFinding

-- A lookup that fails leaves the run without a filter.
unfoldable pub org_settings_of : Option (Settled (Option OrgSettingsView)) → Option OrgSettingsView
org_settings_of (some (fulfilled settings)) = settings
org_settings_of _ = none

-- sqlFindingToNormalized
unfoldable pub sql_finding_to_normalized : SqlFinding → Finding
sql_finding_to_normalized f = record {
  detector_id = "semgrep-legacy";
  rule_id = f.rule_id;
  file = f.file;
  type = sql_injection_risk;
  severity = high;
  start_line = f.start_line;
  end_line = f.end_line;
}

-- What the two paths leave to the common part: the findings to fix, the failures and the result so far.
pub record Detected : Type 0 where
  pub findings : List Finding
  pub failures : List DetectorFailure
  pub result : AuditResult

module _ (env : AuditEnv) where
  unfoldable pub detect_diff : Payload → String → Detected
  unfolding org_settings_of
  detect_diff payload diff =
      let got =
        gather env.minimatch (org_settings_of env.org_settings) (λ id. env.detect id diff)
          phase5_detectors in
      let merged = dedupe_normalized_findings got.findings in
      let parts = split_by_changes (changed_lines payload) merged in
      record {
        findings = parts.introduced;
        failures = got.failures;
        result = record empty_result {
          total_findings = length merged;
          findings_by_detector = some (count_by_detector [] merged);
          pre_existing_findings = parts.pre_existing;
        };
      }

  -- The legacy path of a validated Semgrep payload.
  unfoldable pub detect_legacy : SemgrepRoot → Detected
  unfolding org_settings_of sql_finding_to_normalized
  detect_legacy root =
      let sql = env.extract_sql_injection root.results ++ or_else root.findings [] in
      let passed =
        apply_settings env.minimatch (org_settings_of env.org_settings)
          (map sql_finding_to_normalized sql) in
      record {
        findings = filterb (λ f. not (is_suppressed_finding_type f.type)) passed;
        failures = [];
        result = record empty_result { total_findings = length root.results };
      }

  -- The counters that the routing sets. `skipped` is the path's rule for skippedFindings.
  unfoldable pub count_routed : (AuditResult → ℕ) → Detected → AuditResult
  count_routed skipped found =
      let r = record found.result {
        sql_injection_findings = length (filterb (λ f. is_sql_injection f.type) found.findings);
        classified_findings = length (routed found.findings);
      } in
      record r { skipped_findings = skipped r }

  abbrev pub coverage_delta : Coverage → Delta
  coverage_delta before =
      llm_coverage_since (snapshot_llm_coverage before) (record_outcomes env.detection_calls before)

  -- From the routing to the end.
  unfoldable pub finish_audit : Payload → Coverage → (AuditResult → ℕ) → Detected → AuditResult
  unfolding count_routed
  finish_audit payload before skipped found =
      let fixed = generate_fixes env.fix (routed found.findings) (count_routed skipped found) in
      let delta = coverage_delta before in
      finalize delta.failed (length found.failures) (
        push_degradation (scan_input_errors payload) (route_guard_errors payload) delta
          found.failures fixed)

  unfoldable pub execute_diff : Payload → Coverage → String → AuditResult
  unfolding finish_audit detect_diff
  execute_diff payload before diff =
      let found = detect_diff payload diff in
      finish_audit payload before (λ r. unsupported_total found.findings) found

  -- A throw is its text.
  unfoldable pub execute_legacy : Payload → Coverage → ParsedPayload → Settled AuditResult
  unfolding finish_audit detect_legacy
  execute_legacy payload before (valid root) = fulfilled (
      finish_audit payload before (λ r. r.total_findings - r.sql_injection_findings)
        (detect_legacy root))
  execute_legacy payload before (malformed message) =
      fulfilled (record empty_result { errors = invalid_payload message ∷ [] })
  execute_legacy payload before type_error = rejected "Cannot read properties of null"

  unfoldable pub execute_by : Payload → Coverage → Option String → Settled AuditResult
  unfolding execute_diff execute_legacy
  execute_by payload before (some diff) = fulfilled (execute_diff payload before diff)
  execute_by payload before none =
      execute_legacy payload before (parse_semgrep_payload env.json_parse payload)

  unfoldable pub execute_workflow : Payload → Coverage → Settled AuditResult
  execute_workflow payload before = execute_by payload before (extract_diff_string payload)

-- The result of the `catch`.
unfoldable pub failed_result : String → AuditResult
failed_result message =
    let t = codes message in
    record empty_result {
      automation_decision_reason =
          if contains (codes "timed out") t || contains (codes "timeout") t
          then workflow_timed_out
          else workflow_failed;
      errors =
          workflow_threw (if str_eq message "" then "Unknown workflow error" else message) ∷ [];
    }

unfoldable pub or_failed : Settled AuditResult → AuditResult
unfolding failed_result
or_failed (fulfilled r) = r
or_failed (rejected message) = failed_result message

abbrev pub timed_out_message : ℕ → String
timed_out_message timeout_ms = join "Workflow timed out after " (join (decimal timeout_ms) "ms")

-- The race: `is_late` says that the timer fires first.
unfoldable pub run_auditor_workflow :
    AuditEnv → Payload → Coverage → (timeout_ms : ℕ) → (is_late : Bool) → AuditResult
unfolding execute_workflow failed_result
run_auditor_workflow env payload before timeout_ms is_late =
    if is_late
    then failed_result (timed_out_message timeout_ms)
    else or_failed (execute_workflow env payload before)

abbrev pub failed_calls : Option Delta → Option ℕ
failed_calls none = none
failed_calls (some delta) = some delta.failed

abbrev pub threw_count : Option (List DetectorFailure) → Option ℕ
threw_count none = none
threw_count (some fs) = some (length fs)

-- The fields that the scan's row is made from.
unfoldable pub row_view : AuditResult → WorkflowResult
row_view r = record {
  status = r.status;
  total_findings = r.total_findings;
  findings_by_detector = r.findings_by_detector;
  fixes_generated = r.fixes_generated;
  coverage_failed = failed_calls r.llm_coverage;
  detector_failures = threw_count r.detector_failures;
}
