-- ===== src/Findings/Settings.antt =====
-- passesOrgSettings and filterFindings of src/lib/org-settings-filter.ts. `minimatch` with `dot: true` is an argument.
use fixor.Prelude.{
  ℕ, ◌+◌, ◌≤◌, ◌≡◌, refl, ◌↔◌, ◌⊎◌, inl, inr, Bool, true, false, not, Option, none, some, List, [],
  ◌∷◌, String, arith, ltb, if◌then◌else◌, length, any, filterb, All, includes, kept, is_empty,
}
use fixor.Findings.{
  Finding, FindingType, Severity, critical, high, medium, low, shipping_detector_ids,
  get_detector_for,
}

-- SEVERITY_RANK
abbrev pub severity_rank : Severity → ℕ
severity_rank low = 0
severity_rank medium = 1
severity_rank high = 2
severity_rank critical = 3

pub record OrgSettingsView : Type 0 where
  pub severity_threshold : Severity
  pub ignored_globs : List String
  pub enabled_detectors : Option (List String)

pub data FilterReason : Type 0 where
  by_severity by_glob by_detector : FilterReason

pub record FilterStats : Type 0 where
  pub dropped_by_severity : ℕ
  pub dropped_by_glob : ℕ
  pub dropped_by_detector : ℕ

-- The registered detector of the type is not among the ids; a type without one passes.
abbrev pub is_missing : Option String → List String → Bool
is_missing none ids = false
is_missing (some id) ids = not (includes id ids)

abbrev pub recognized : List String → List String
recognized ids = filterb (λ id. includes id shipping_detector_ids) ids

-- Whether the allowlist drops the finding.
unfoldable pub detector_drops : Option (List String) → FindingType → Bool
detector_drops none t = false
detector_drops (some ids) t =
    if is_empty ids
    then true
    else if ltb 0 (length (recognized ids))
    then is_missing (get_detector_for t) (recognized ids)
    else false

nil_or : (xs : List String) → (xs ≡ []) ⊎ (ltb 0 (length xs) ≡ true)
nil_or [] = inl refl
nil_or (x ∷ xs) = inr (ground arith)

module _ (minimatch : String → String → Bool) where
  -- `none` passes.
  unfoldable pub passes_org_settings : Finding → OrgSettingsView → Option FilterReason
  unfolding detector_drops
  passes_org_settings f settings =
      if ltb (severity_rank f.severity) (severity_rank settings.severity_threshold)
      then some by_severity
      else if any (λ glob. minimatch f.file glob) settings.ignored_globs
      then some by_glob
      else if detector_drops settings.enabled_detectors f.type
      then some by_detector
      else none

  abbrev pub add_to :
      Option FilterReason → Finding → List Finding × FilterStats → List Finding × FilterStats
  add_to none f (kept, stats) = (f ∷ kept, stats)
  add_to (some by_severity) f (kept, stats) =
      (kept, record stats { dropped_by_severity = stats.dropped_by_severity + 1 })
  add_to (some by_glob) f (kept, stats) =
      (kept, record stats { dropped_by_glob = stats.dropped_by_glob + 1 })
  add_to (some by_detector) f (kept, stats) =
      (kept, record stats { dropped_by_detector = stats.dropped_by_detector + 1 })

  unfoldable pub filter_findings : List Finding → OrgSettingsView → List Finding × FilterStats
  unfolding passes_org_settings
  filter_findings [] settings =
      ([], record { dropped_by_severity = 0; dropped_by_glob = 0; dropped_by_detector = 0 })
  filter_findings (f ∷ fs) settings =
      add_to (passes_org_settings f settings) f (filter_findings fs settings)

  -- An allowlist that names no shipping detector is stale; one with an entry that ships lets pass what a listed detector
  -- found and what none is registered for.
  abbrev pub Allows : Option (List String) → FindingType → Type 0
  Allows none t = Unit {0}
  Allows (some ids) t =
      (is_empty ids ≡ false)
      × ((recognized ids ≡ [])
          ⊎ ((get_detector_for t ≡ none)
              ⊎ ((id : String) × (get_detector_for t ≡ some id)
                  × (includes id (recognized ids) ≡ true))))

  abbrev pub Passes : OrgSettingsView → Finding → Type 0
  Passes settings f =
      (severity_rank settings.severity_threshold ≤ severity_rank f.severity)
      × (any (λ glob. minimatch f.file glob) settings.ignored_globs ≡ false)
      × Allows settings.enabled_detectors f.type

  allowed_by :
      (ids : List String) (t : FindingType) (id : Option String)
      → get_detector_for t ≡ id
      → is_missing id (recognized ids) ≡ false
      → (get_detector_for t ≡ none)
        ⊎ ((k : String) × (get_detector_for t ≡ some k) × (includes k (recognized ids) ≡ true))
  allowed_by ids t none e h = inl e
  allowed_by ids t (some k) e h = inr (k, e, ground (arith, h))

  drops_nothing :
      (ids : Option (List String)) (t : FindingType) → detector_drops ids t ≡ false → Allows ids t
  unfolding detector_drops
  drops_nothing none t h = tt
  drops_nothing (some ids) t h = elim (nil_or (recognized ids)) [
    | inl nil ↦ (ground (arith, h), inl nil)
    | inr listed ↦ (
      ground (arith, h),
      inr (allowed_by ids t (get_detector_for t) refl (ground (arith, h, listed))),
    )
  ]

  allows_drops :
      (ids : Option (List String)) (t : FindingType) → Allows ids t → detector_drops ids t ≡ false
  unfolding detector_drops
  allows_drops none t h = refl
  allows_drops (some ids) t (some', inl nil) = rw (some', nil) refl
  allows_drops (some ids) t (some', inr (inl e)) = rw (some', e) (ground arith)
  allows_drops (some ids) t (some', inr (inr (id, e, known))) = rw (some', e, known) (ground arith)

  -- A finding passes exactly if it is at least as severe as the threshold, no ignored glob matches its file and the
  -- allowlist allows its type.
  pub passes_org_settings_iff :
      (f : Finding) (settings : OrgSettingsView)
      → (passes_org_settings f settings ≡ none) ↔ Passes settings f
  unfolding passes_org_settings
  passes_org_settings_iff f settings = (
    (λ h. (
      ground (arith, h),
      ground (arith, h),
      drops_nothing settings.enabled_detectors f.type (ground (arith, h)),
    )),
    (λ p. ground (arith, p.0, p.1, allows_drops settings.enabled_detectors f.type p.2)),
  )

  pub add_to-All :
      (P : Finding → Type 0) (r : Option FilterReason) (f : Finding)
      (rest : List Finding × FilterStats)
      → (r ≡ none → P f)
      → All P rest.0
      → All P (add_to r f rest).0
  add_to-All P none f rest h all' = (h refl, all')
  add_to-All P (some by_severity) f rest h all' = all'
  add_to-All P (some by_glob) f rest h all' = all'
  add_to-All P (some by_detector) f rest h all' = all'

  all_pass :
      (settings : OrgSettingsView) (fs : List Finding)
      → All (Passes settings) (filter_findings fs settings).0
  unfolding filter_findings
  all_pass settings [] = tt
  all_pass settings (f ∷ fs) =
      add_to-All (Passes settings) (passes_org_settings f settings) f (filter_findings fs settings)
        (passes_org_settings_iff f settings).0 (all_pass settings fs)

  counted :
      (settings : OrgSettingsView) (fs : List Finding)
      → length (filter_findings fs settings).0
          + (filter_findings fs settings).1.dropped_by_severity
          + (filter_findings fs settings).1.dropped_by_glob
          + (filter_findings fs settings).1.dropped_by_detector
        ≡ length fs
  unfolding filter_findings
  counted settings [] = refl
  counted settings (f ∷ fs) = ground (arith, counted settings fs)

  -- Every finding that is kept passes, and each that is dropped is counted once, under the test that dropped it.
  pub filter_findings-Passes :
      (settings : OrgSettingsView) (fs : List Finding)
      → All (Passes settings) (filter_findings fs settings).0
        × (length (filter_findings fs settings).0
              + (filter_findings fs settings).1.dropped_by_severity
              + (filter_findings fs settings).1.dropped_by_glob
              + (filter_findings fs settings).1.dropped_by_detector
            ≡ length fs)
  filter_findings-Passes settings fs = (all_pass settings fs, counted settings fs)
