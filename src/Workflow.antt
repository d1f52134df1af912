-- ===== src/Workflow.antt =====
-- The audit of one diff, src/workflows/auditor-workflow.ts. A detector's `detect` and `fix`, the settings lookup and
-- the extraction of Semgrep results are arguments. This file holds what the children share. An error's message is a
-- constructor with what the text is made from.
pub mod Input
pub mod Detection
pub mod Fixes
pub mod Status
pub mod Run
pub mod Tallied
pub mod Counts
pub mod Clean
pub mod Ready
pub mod Legacy
pub mod Rows
mod Tests
use fixor.Prelude.{
  ℕ, zero, suc, ◌+◌, ◌-◌, ◌*◌, ◌/◌, ◌%◌, ◌≤◌, ◌<◌, min, max, ◌≡◌, ◌≢◌, ◌∙◌, refl, sym, ap, subst,
  ◌↔◌, ◌⊎◌, inl, inr, Bool, true, false, not, ◌&&◌, ◌||◌, Option, none, some, List, [], ◌∷◌, ◌++◌,
  map, String, arith, ◌^◌, ltb, leb, ◌==◌, if◌then◌else◌, ltb→lt, leb→le, ==_iff, Bool-cases,
  Option-cases, or_else, eq_of_some, length, get_elem?, drop, take, any, all, filterb,
  length-append, any-append, All, All-append, str_eq, includes, Map, get, put, remove, retain, kept,
  Distinct, get-put, get-remove, get-empty, put-Distinct, get-retain, retain-Distinct, map_laws,
  codes, codes_eq, starts_with, contains, to_lower, is_space, trim, trim_text, join, decimal,
  digits_from, is_digit, digits_from-decimal, split_from, is_empty, eq_iff, eq_refl,
}
use fixor.Findings.{Finding}
use fixor.Client.Tally.{Delta}
use fixor.ScanRun.Verdict.{WorkflowStatus}

-- What a promise comes to: a value, or the text of what it rejects with.
pub data Settled {ℓ} (A : Type ℓ) : Type ℓ where
  fulfilled : A → Settled A
  rejected : String → Settled A

pub data PatchQuality : Type 0 where
  high medium low : PatchQuality

-- The fields of NormalizedFixSuggestion that the workflow reads.
pub record Fix : Type 0 where
  pub patch_quality : PatchQuality
  pub patch_warnings : List String

pub record DetectorFailure : Type 0 where
  pub detector_id : String
  pub reason : String

pub record InputError : Type 0 where
  pub path : String
  pub reason : String

pub record GuardError : Type 0 where
  pub route : String
  pub layout : String
  pub reason : String

-- WorkflowError, one constructor for each place that pushes one.
pub data WorkflowError : Type 0 where
  invalid_payload : (message : String) → WorkflowError
  fix_failed : (finding_id details : String) → WorkflowError
  input_degraded : InputError → WorkflowError
  guard_unresolved : GuardError → WorkflowError
  calls_failed : Delta → WorkflowError
  detectors_threw : List DetectorFailure → WorkflowError
  workflow_threw : (message : String) → WorkflowError

-- automationDecisionReason
pub data DecisionReason : Type 0 where
  coverage_degraded : (llm_calls_failed detectors_failed : ℕ) → DecisionReason
  workflow_failed workflow_timed_out partial_errors nothing_classified : DecisionReason
  low_quality_patches warnings_present all_patches_good not_ready : DecisionReason

-- WorkflowResult, less its metadata, timing and the fields that the handler adds.
pub record AuditResult : Type 0 where
  pub status : WorkflowStatus
  pub automation_ready : Bool
  pub automation_decision_reason : DecisionReason
  pub total_findings : ℕ
  pub findings_by_detector : Option (Map ℕ)
  pub sql_injection_findings : ℕ
  pub classified_findings : ℕ
  pub skipped_findings : ℕ
  pub fixes_generated : ℕ
  pub high_quality_patches : ℕ
  pub medium_quality_patches : ℕ
  pub low_quality_patches : ℕ
  pub fixes : List Fix
  pub pre_existing_findings : List Finding
  pub errors : List WorkflowError
  pub llm_coverage : Option Delta
  pub detector_failures : Option (List DetectorFailure)

-- The result before any finding is counted.
abbrev pub empty_result : AuditResult
empty_result = record {
  status = WorkflowStatus.failed;
  automation_ready = false;
  automation_decision_reason = workflow_failed;
  total_findings = 0;
  findings_by_detector = none;
  sql_injection_findings = 0;
  classified_findings = 0;
  skipped_findings = 0;
  fixes_generated = 0;
  high_quality_patches = 0;
  medium_quality_patches = 0;
  low_quality_patches = 0;
  fixes = [];
  pre_existing_findings = [];
  errors = [];
  llm_coverage = none;
  detector_failures = none;
}
