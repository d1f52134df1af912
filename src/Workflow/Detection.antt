-- ===== src/Workflow/Detection.antt =====
-- The detectors' phase of executeWorkflow: what each detector came to, the organisation's settings, the merge, the
-- counts by detector and the partition by changed lines.
use fixor.Prelude.{
  ℕ, ◌+◌, Bool, Option, none, some, List, [], ◌∷◌, ◌++◌, String, or_else, Map, get, put,
}
use fixor.Findings.{Finding}
use fixor.Findings.Merge.{dedupe_from}
use fixor.Findings.Settings.{OrgSettingsView, filter_findings}
use fixor.Findings.Partition.{PartitionedFindings, partition_findings_by_changed_lines}
use fixor.Workflow.{Settled, fulfilled, rejected, DetectorFailure}

-- DETECTORS in the registry's order, all of which ship.
abbrev pub phase5_detectors : List String
phase5_detectors =
    "auth-bypass-multi" ∷ "secrets-exposure-multi" ∷ "webhook-unverified-multi"
    ∷ "env-exposure-multi" ∷ "admin-check-multi" ∷ "idor-multi" ∷ []

-- `findings` and `detectorFailures` of the loop over the detectors' results.
pub record Gathered : Type 0 where
  pub findings : List Finding
  pub failures : List DetectorFailure

module _ (minimatch : String → String → Bool) where
  unfoldable pub apply_settings : Option OrgSettingsView → List Finding → List Finding
  apply_settings none fs = fs
  apply_settings (some settings) fs = (filter_findings minimatch fs settings).0

  unfoldable pub gather_result :
      Option OrgSettingsView → String → Settled (List Finding) → Gathered → Gathered
  unfolding apply_settings
  gather_result settings id (rejected reason) rest = record rest {
    failures = record { detector_id = id; reason = reason } ∷ rest.failures;
  }
  gather_result settings id (fulfilled fs) rest = record rest {
    findings = apply_settings settings fs ++ rest.findings;
  }

  -- `Promise.allSettled` keeps the order, so the results are those of the detectors one after the other.
  unfoldable pub gather :
      Option OrgSettingsView → (String → Settled (List Finding)) → List String → Gathered
  unfolding gather_result
  gather settings detect [] = record { findings = []; failures = [] }
  gather settings detect (id ∷ ids) =
      gather_result settings id (detect id) (gather settings detect ids)

-- dedupeNormalizedFindings, whose key is that of the merge.
unfoldable pub dedupe_normalized_findings : List Finding → List Finding
dedupe_normalized_findings fs = dedupe_from [] fs

-- `byDetector`
unfoldable pub count_by_detector : Map ℕ → List Finding → Map ℕ
count_by_detector counts [] = counts
count_by_detector counts (f ∷ fs) =
    count_by_detector (put f.detector_id (or_else (get f.detector_id counts) 0 + 1) counts) fs

-- The findings to fix, and those to report only.
unfoldable pub split_by_changes : Option (Map (List ℕ)) → List Finding → PartitionedFindings
split_by_changes none fs = record { introduced = fs; pre_existing = [] }
split_by_changes (some changed) fs = partition_findings_by_changed_lines fs changed
