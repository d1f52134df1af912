-- ===== src/Findings/Tests.antt =====
-- The theorems on findings at concrete lists.
use fixor.Prelude.{
  ℕ, ◌+◌, ◌≡◌, refl, ◌↔◌, Bool, none, some, List, [], ◌∷◌, String, All, str_eq, Map, get, decimal,
}
use fixor.Findings.{Finding, idor_risk, admin_check_risk, high, low}
use fixor.Findings.Merge.{finding_key, collapse_findings, dedupe_findings, dedupe_from}
use fixor.Findings.Settings.{OrgSettingsView, passes_org_settings, Passes, passes_org_settings_iff}
use fixor.Findings.Partition.{
  partition_findings_by_changed_lines, count, IsUnchanged, partition_counts,
}

abbrev idor : Finding
idor = record {
  detector_id = "idor-multi";
  rule_id = "r";
  file = "a.ts";
  type = idor_risk;
  severity = high;
  start_line = 100;
  end_line = 110;
}

abbrev admin : Finding
admin = record {
  detector_id = "admin-check-multi";
  rule_id = "r";
  file = "a.ts";
  type = admin_check_risk;
  severity = low;
  start_line = 7;
  end_line = 9;
}

abbrev findings : List Finding
findings = idor ∷ admin ∷ idor ∷ []

collapsed : collapse_findings findings ≡ idor ∷ admin ∷ []
unfolding collapse_findings dedupe_findings dedupe_from finding_key decimal
collapsed = refl

abbrev settings : OrgSettingsView
settings = record {
  severity_threshold = high;
  ignored_globs = "b/**" ∷ [];
  enabled_detectors = some ("idor-multi" ∷ []);
}

-- A matcher for paths without patterns.
abbrev equal_paths : String → String → Bool
equal_paths file glob = str_eq file glob

passes_org_settings_iff_example :
    (passes_org_settings equal_paths idor settings ≡ none) ↔ Passes equal_paths settings idor
passes_org_settings_iff_example = passes_org_settings_iff equal_paths idor settings

abbrev changed : Map (List ℕ)
changed = ("a.ts", 10 ∷ 12 ∷ []) ∷ []

old_finding : (partition_findings_by_changed_lines findings changed).introduced ≡ admin ∷ []
unfolding partition_findings_by_changed_lines get
old_finding = refl

partition_counts_example :
    ((q : Finding → Bool)
      → count q (partition_findings_by_changed_lines findings changed).introduced
          + count q (partition_findings_by_changed_lines findings changed).pre_existing
        ≡ count q findings)
    × All (IsUnchanged changed) (partition_findings_by_changed_lines findings changed).pre_existing
partition_counts_example = partition_counts findings changed
