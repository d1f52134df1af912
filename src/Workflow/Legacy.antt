-- ===== src/Workflow/Legacy.antt =====
-- The legacy path: a payload of Semgrep results instead of a diff.
use fixor.Prelude.{
  ◌-◌, ◌≡◌, refl, ap, Bool, not, Option, none, some, List, [], ◌∷◌, map, String, arith, length,
  filterb, All,
}
use fixor.Findings.{Finding}
use fixor.Client.{Coverage}
use fixor.Workflow.{AuditResult}
use fixor.Workflow.Input.{Payload}
use fixor.Findings.Settings.{OrgSettingsView}
use fixor.Workflow.Fixes.{routed}
use fixor.Workflow.Run.{AuditEnv, finish_audit, org_settings_of, count_routed}
use fixor.Workflow.Clean.{nil_iff}
use fixor.Workflow.Counts.{finish_audit-IsTallied, finish_audit-routed_fields}
use fixor.Findings.{sql_injection_risk, is_suppressed_finding_type}
use fixor.Findings.Settings.{filter_findings, add_to-All, passes_org_settings}
use fixor.Workflow.Input.{SemgrepRoot, SqlFinding}
use fixor.Workflow.Detection.{apply_settings}
use fixor.Workflow.Run.{detect_legacy, sql_finding_to_normalized}
use fixor.Workflow.Fixes.{is_sql_injection}

abbrev IsSql : Finding → Type 0
IsSql f = f.type ≡ sql_injection_risk

normalized-IsSql : (fs : List SqlFinding) → All IsSql (map sql_finding_to_normalized fs)
unfolding sql_finding_to_normalized
normalized-IsSql [] = tt
normalized-IsSql (f ∷ fs) = (refl, normalized-IsSql fs)

module _ (minimatch : String → String → Bool) where
  filter_findings-IsSql :
      (fs : List Finding) (settings : OrgSettingsView)
      → All IsSql fs
      → All IsSql (filter_findings minimatch fs settings).0
  unfolding filter_findings
  filter_findings-IsSql [] settings h = tt
  filter_findings-IsSql (f ∷ fs) settings h =
      add_to-All minimatch IsSql (passes_org_settings minimatch f settings) f
        (filter_findings minimatch fs settings) (λ passes. h.0)
        (filter_findings-IsSql fs settings h.1)

  apply_settings-IsSql :
      (settings : Option OrgSettingsView) (fs : List Finding)
      → All IsSql fs
      → All IsSql (apply_settings minimatch settings fs)
  unfolding apply_settings
  apply_settings-IsSql none fs h = h
  apply_settings-IsSql (some settings) fs h = filter_findings-IsSql fs settings h

suppressed :
    (fs : List Finding)
    → All IsSql fs
    → filterb (λ f. not (is_suppressed_finding_type f.type)) fs ≡ []
suppressed [] h = refl
suppressed (f ∷ fs) h = rw (ap (λ t. not (is_suppressed_finding_type t)) h.0) (suppressed fs h.1)

module _ (env : AuditEnv) (payload : Payload) (before : Coverage) (root : SemgrepRoot) where
  detect_legacy-nil : (detect_legacy env root).findings ≡ []
  unfolding detect_legacy
  detect_legacy-nil =
      suppressed _ (
        apply_settings-IsSql env.minimatch (org_settings_of env.org_settings) _
          (normalized-IsSql _))

  -- A Semgrep payload never leads to a fix, whatever it holds: each of its findings is suppressed, so none is classified
  -- and all its results count as skipped.
  pub legacy_skips_all :
      let r =
        finish_audit env payload before
          (λ r. r.total_findings - r.sql_injection_findings)
          (detect_legacy env root) in
      (r.fixes_generated ≡ 0)
      × (r.fixes ≡ [])
      × (r.classified_findings ≡ 0)
      × (r.skipped_findings ≡ length root.results)
  unfolding detect_legacy count_routed routed
  legacy_skips_all =
      let found = detect_legacy env root in
      let skipped = λ (r : AuditResult). r.total_findings - r.sql_injection_findings in
      let t =
        finish_audit-IsTallied env payload before skipped found
          (record { generated = refl; qualities = refl; lows = refl; outcomes = refl }) in
      let same = finish_audit-routed_fields env payload before skipped found in
      let r = finish_audit env payload before skipped found in
      let nothing : length (routed found.findings) ≡ 0 =
        ap (λ fs. length (routed fs)) detect_legacy-nil in
      let no_sql : length (filterb (λ f. is_sql_injection f.type) found.findings) ≡ 0 =
        ap (λ fs. length (filterb (λ f. is_sql_injection f.type) fs)) detect_legacy-nil in
      (
        omega (arith, t.outcomes, nothing),
        (nil_iff r.fixes).1 (omega (arith, t.outcomes, t.generated, nothing)),
        omega (arith, ap (λ f. f.3) same, nothing),
        omega (arith, ap (λ f. f.4) same, no_sql),
      )
