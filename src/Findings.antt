-- ===== src/Findings.antt =====
-- Findings on their way to a report: their merge (src/cli/finding-merge.ts), the settings of an organisation
-- (src/lib/org-settings-filter.ts) and the lines that a pull request changed (src/workflows/changed-line-partition.ts).
-- This file holds the findings and the registry of src/analysis-engine/detectors/registry.ts.
pub mod Merge
pub mod Settings
pub mod Partition
mod Tests
use fixor.Prelude.{
  ℕ, zero, suc, ◌+◌, ◌-◌, ◌*◌, ◌/◌, ◌%◌, ◌≤◌, ◌<◌, min, max, ◌≡◌, ◌≢◌, ◌∙◌, refl, sym, ap, subst,
  ◌↔◌, ◌⊎◌, inl, inr, Bool, true, false, not, ◌&&◌, ◌||◌, Option, none, some, List, [], ◌∷◌, ◌++◌,
  map, String, arith, ◌^◌, ltb, leb, ◌==◌, if◌then◌else◌, ltb→lt, leb→le, ==_iff, Bool-cases,
  Option-cases, or_else, eq_of_some, length, get_elem?, drop, take, any, all, filterb,
  length-append, any-append, All, All-append, str_eq, includes, Map, get, put, remove, retain, kept,
  Distinct, get-put, get-remove, get-empty, put-Distinct, get-retain, retain-Distinct, map_laws,
  codes, codes_eq, starts_with, contains, to_lower, is_space, trim, trim_text, join, decimal,
  digits_from, is_digit, digits_from-decimal, split_from, is_empty, eq_iff, eq_refl,
}

pub data FindingType : Type 0 where
  sql_injection_risk xss_risk command_injection_risk path_traversal_risk : FindingType
  auth_bypass_risk secrets_exposure_risk webhook_unverified_risk env_exposure_risk : FindingType
  admin_check_risk idor_risk mass_assignment_risk : FindingType

pub data Severity : Type 0 where
  critical high medium low : Severity

-- The fields of a finding that the merge, the settings, the partition and the workflow read.
pub record Finding : Type 0 where
  pub detector_id : String
  pub rule_id : String
  pub file : String
  pub type : FindingType
  pub severity : Severity
  pub start_line : ℕ
  pub end_line : ℕ

abbrev pub type_name : FindingType → String
type_name sql_injection_risk = "sql_injection_risk"
type_name xss_risk = "xss_risk"
type_name command_injection_risk = "command_injection_risk"
type_name path_traversal_risk = "path_traversal_risk"
type_name auth_bypass_risk = "auth_bypass_risk"
type_name secrets_exposure_risk = "secrets_exposure_risk"
type_name webhook_unverified_risk = "webhook_unverified_risk"
type_name env_exposure_risk = "env_exposure_risk"
type_name admin_check_risk = "admin_check_risk"
type_name idor_risk = "idor_risk"
type_name mass_assignment_risk = "mass_assignment_risk"

-- SHIPPING_DETECTOR_IDS
abbrev pub shipping_detector_ids : List String
shipping_detector_ids =
    "auth-bypass-multi" ∷ "admin-check-multi" ∷ "idor-multi" ∷ "env-exposure-multi"
    ∷ "secrets-exposure-multi" ∷ "webhook-unverified-multi" ∷ []

-- `getDetectorFor`, by the id of the detector: each of DETECTORS supports one type.
abbrev pub get_detector_for : FindingType → Option String
get_detector_for auth_bypass_risk = some "auth-bypass-multi"
get_detector_for secrets_exposure_risk = some "secrets-exposure-multi"
get_detector_for webhook_unverified_risk = some "webhook-unverified-multi"
get_detector_for env_exposure_risk = some "env-exposure-multi"
get_detector_for admin_check_risk = some "admin-check-multi"
get_detector_for idor_risk = some "idor-multi"
get_detector_for _ = none

-- isSuppressedFindingType of src/config/finding-suppressions.ts
abbrev pub is_suppressed_finding_type : FindingType → Bool
is_suppressed_finding_type sql_injection_risk = true
is_suppressed_finding_type xss_risk = true
is_suppressed_finding_type command_injection_risk = true
is_suppressed_finding_type path_traversal_risk = true
is_suppressed_finding_type mass_assignment_risk = true
is_suppressed_finding_type _ = false
