-- ===== src/RouteGuard/Parity.antt =====
-- The webhook path finds the guards that the resolver finds on the whole tree under the same path, or says that it
-- could not. The command line passes the resolver absolute paths, which this is not about.
use fixor.Prelude.{
  ◌≡◌, ◌∙◌, refl, sym, ap, ◌⊎◌, inl, inr, Bool, true, false, Option, none, some, List, [], ◌∷◌,
  String, arith, ◌==◌, if◌then◌else◌, ==_iff, Bool-cases, any,
}
use fixor.RouteGuard.{FilePath, same_path, has_path, same_path_iff, has_path-left, has_path-right}
use fixor.RouteGuard.Resolver.{GuardFs, resolve_remix_route_guard, candidate_layout_paths}
use fixor.RouteGuard.Agreement.{resolve-Agree, has_path-unseen}
use fixor.RouteGuard.Sidecars.{
  Fetched, content, not_fetched, is_absent_404, RouteGuardError, lookup, content_of, failure_of,
  collect, entry, all_candidates, is_present, mem_fs, first_failed, failed_or, error_for, errors_of,
  route_paths, wanted, resolve_route_guard_sidecars,
}

abbrev first_some {ℓ} : {V : Type ℓ} → Option V → Option V → Option V
first_some none rest = rest
first_some (some v) rest = some v

lookup-entry {ℓ} :
    {V : Type ℓ} (p q : FilePath) (v : Option V) (m : List (FilePath × V))
    → lookup p (entry q v m) ≡ (if same_path q p then first_some v (lookup p m) else lookup p m)
lookup-entry p q none m = elim (Bool-cases (same_path q p)) [
  | inl same ↦ rw same refl
  | inr other ↦ rw other refl
]
lookup-entry p q (some v) m = refl

first_some-same {ℓ} :
    {V : Type ℓ} (o : Option V) (b : Bool) → first_some o (if b then o else none) ≡ o
first_some-same none true = refl
first_some-same none false = refl
first_some-same (some v) b = refl

lookup-collect {ℓ} :
    {V : Type ℓ} (value : FilePath → Option V) (p : FilePath) (ps : List FilePath)
    → lookup p (collect value ps) ≡ (if has_path p ps then value p else none)
lookup-collect value p [] = refl
lookup-collect value p (q ∷ ps) =
    lookup-entry p q (value q) (collect value ps) ∙ elim (Bool-cases (same_path q p)) [
      | inl same ↦
          rw (same, (same_path_iff q p).0 same, lookup-collect value p ps)
            (first_some-same (value p) (has_path p ps))
      | inr other ↦ rw other (lookup-collect value p ps)
    ]

lookup-listed {ℓ} :
    {V : Type ℓ} (value : FilePath → Option V) (p : FilePath) (ps : List FilePath)
    → has_path p ps ≡ true
    → lookup p (collect value ps) ≡ value p
lookup-listed value p ps listed =
    lookup-collect value p ps ∙ ap (λ b. if b then value p else none) listed

-- A whole tree, by the paths from its root that the webhook path knows.
abbrev pub disk : (FilePath → Option String) → GuardFs
disk tree = record { exists = λ p. is_present (tree p); read = tree }

abbrev pub is_reported : FilePath → List RouteGuardError → Bool
is_reported route errors = any (λ e. same_path e.route route) errors

first_failed-none :
    (failed : List (FilePath × String)) (cs : List FilePath) (p : FilePath)
    → first_failed failed cs ≡ none
    → has_path p cs ≡ true
    → lookup p failed ≡ none
first_failed-none failed [] p e listed = absurd (ground (arith, listed))
first_failed-none failed (c ∷ cs) p e listed =
    at_head (lookup c failed) refl e (first_failed-none failed cs p)
  where
    at_head :
        (o : Option String)
        → lookup c failed ≡ o
        → failed_or c o (first_failed failed cs) ≡ none
        → (first_failed failed cs ≡ none → has_path p cs ≡ true → lookup p failed ≡ none)
        → lookup p failed ≡ none
    at_head (some reason) f e below = absurd (ground (arith, e))
    at_head none f e below = elim (Bool-cases (same_path c p)) [
      | inl same ↦ ap (λ x. lookup x failed) (sym ((same_path_iff c p).0 same)) ∙ f
      | inr other ↦ below e (ground (arith, listed, other))
    ]

present-reported :
    (route q : FilePath) (o : Option (FilePath × String)) (rest : List RouteGuardError)
    → same_path q route ≡ true
    → is_present o ≡ true
    → is_reported route (error_for q o rest) ≡ true
present-reported route q none rest same h = absurd (ground (arith, h))
present-reported route q (some (layout, reason)) rest same h = ground (arith, same)

error_for-reported :
    (route q : FilePath) (o : Option (FilePath × String)) (rest : List RouteGuardError)
    → is_reported route rest ≡ true
    → is_reported route (error_for q o rest) ≡ true
error_for-reported route q none rest h = h
error_for-reported route q (some (layout, reason)) rest h = ground (arith, h)

failed-reported :
    (failed : List (FilePath × String)) (route : FilePath) (routes : List FilePath)
    → has_path route routes ≡ true
    → is_present (first_failed failed (candidate_layout_paths route)) ≡ true
    → is_reported route (errors_of failed routes) ≡ true
failed-reported failed route [] listed h = absurd (ground (arith, listed))
failed-reported failed route (q ∷ routes) listed h = elim (Bool-cases (same_path q route)) [
  | inl same ↦
      present-reported route q (first_failed failed (candidate_layout_paths q))
        (errors_of failed routes) same
        (ap (λ r. is_present (first_failed failed (candidate_layout_paths r)))
            ((same_path_iff q route).0 same)
          ∙ h)
  | inr other ↦
      error_for-reported route q (first_failed failed (candidate_layout_paths q))
        (errors_of failed routes)
        (failed-reported failed route routes (ground (arith, listed, other)) h)
]

candidates-wanted :
    (p route : FilePath) (routes : List FilePath)
    → has_path route routes ≡ true
    → has_path p (candidate_layout_paths route) ≡ true
    → has_path p (all_candidates routes) ≡ true
candidates-wanted p route [] listed h = absurd (ground (arith, listed))
candidates-wanted p route (q ∷ routes) listed h = elim (Bool-cases (same_path q route)) [
  | inl same ↦
      has_path-left p (candidate_layout_paths q) (all_candidates routes)
        (ap (λ r. has_path p (candidate_layout_paths r)) ((same_path_iff q route).0 same) ∙ h)
  | inr other ↦
      has_path-right p (candidate_layout_paths q) (all_candidates routes)
        (candidates-wanted p route routes (ground (arith, listed, other)) h)
]

has_path-wanted :
    (p route : FilePath) (paths : List FilePath)
    → has_path route (route_paths paths) ≡ true
    → has_path p (candidate_layout_paths route) ≡ true
    → has_path p (wanted paths) ≡ true
unfolding wanted
has_path-wanted p route paths listed h = ground (
  arith,
  has_path-unseen p [] (all_candidates (route_paths paths)),
  candidates-wanted p route (route_paths paths) listed h,
)

none_absent {ℓ} : {V : Type ℓ} (o : Option V) → is_present o ≡ false → o ≡ none
none_absent none h = refl
none_absent (some v) h = absurd (ground (arith, h))

module _ (excerpt : String → String) (tree : FilePath → Option String) (fetch : FilePath → Fetched)
    (found : (p : FilePath) (text : String) → fetch p ≡ content text → tree p ≡ some text)
    (missing : (p : FilePath) (reason : String)
      → fetch p ≡ not_fetched (some 404) reason
      → tree p ≡ none) where
  read_same :
      (p : FilePath) (x : Fetched) → fetch p ≡ x → failure_of x ≡ none → content_of x ≡ tree p
  unfolding failure_of is_absent_404
  read_same p (content text) e h = sym (found p text e)
  read_same p (not_fetched none reason) e h = absurd (ground (arith, h))
  read_same p (not_fetched (some status) reason) e h = elim (Bool-cases (status == 404)) [
    | inl absent ↦ sym (
        missing p reason (e ∙ ap (λ n. not_fetched (some n) reason) ((==_iff status 404).0 absent)))
    | inr broken ↦ absurd (ground (arith, rw broken at h))
  ]

  -- If a fetch gives a file's text, or a 404 for a file that is not there, then each route of a pull request gets the
  -- guards that the resolver finds for its path from the root when it reads the whole tree, or an error that names it: a
  -- layout that could not be read is never taken for an absent one.
  pub sidecars_match :
      (paths : List FilePath) (route : FilePath)
      → has_path route (route_paths paths) ≡ true
      → let out = resolve_route_guard_sidecars excerpt fetch paths in
        (is_reported route out.route_guard_errors ≡ true)
        ⊎ (lookup route out.sidecars_by_path ≡ resolve_remix_route_guard excerpt (disk tree) route)
  unfolding resolve_route_guard_sidecars
  sidecars_match paths route listed =
      let contents = collect (λ p. content_of (fetch p)) (wanted paths) in
      let failed = collect (λ p. failure_of (fetch p)) (wanted paths) in
      elim (Bool-cases (is_present (first_failed failed (candidate_layout_paths route)))) [
        | inl broken ↦ inl (failed-reported failed route (route_paths paths) listed broken)
        | inr whole ↦ inr (
            lookup-listed (resolve_remix_route_guard excerpt (mem_fs contents)) route
              (route_paths paths) listed
            ∙ (resolve-Agree excerpt (mem_fs contents) (disk tree) route (λ p candidate.
                let asked = has_path-wanted p route paths listed candidate in
                let sound : failure_of (fetch p) ≡ none =
                  sym (lookup-listed (λ q. failure_of (fetch q)) p (wanted paths) asked)
                  ∙ first_failed-none failed (candidate_layout_paths route) p
                      (none_absent (first_failed failed (candidate_layout_paths route)) whole)
                      candidate in
                let same : lookup p contents ≡ tree p =
                  lookup-listed (λ q. content_of (fetch q)) p (wanted paths) asked
                  ∙ read_same p (fetch p) refl sound in
                (ap is_present same, same))))
      ]
