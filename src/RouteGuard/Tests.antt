-- ===== src/RouteGuard/Tests.antt =====
-- The theorems on route guards at a concrete tree.
use fixor.Prelude.{
  ◌≡◌, refl, ap, ◌⊎◌, inl, inr, true, Option, none, some, [], ◌∷◌, String, if◌then◌else◌,
  Bool-cases, All,
}
use fixor.RouteGuard.{FilePath, same_path, find_routes_root, opts_out, breaks_nesting}
use fixor.RouteGuard.Resolver.{
  ResolvedGuard, resolve_remix_route_guard, resolve_under, climb, layout_in,
}
use fixor.RouteGuard.Sidecars.{
  Fetched, content, not_fetched, content_of, resolve_route_guard_sidecars, lookup,
}
use fixor.RouteGuard.Parity.{disk, is_reported, sidecars_match}
use fixor.RouteGuard.Proven.{IsProvenLayout, guards_are_proven}

abbrev route : FilePath
route = "users.tsx" ∷ "_auth+" ∷ "routes" ∷ "app" ∷ []

abbrev layout : FilePath
layout = "_layout.tsx" ∷ "_auth+" ∷ "routes" ∷ "app" ∷ []

abbrev tree : FilePath → Option String
tree p = if same_path p layout then some "loader" else none

abbrev fetch : FilePath → Fetched
fetch p = if same_path p layout then content "loader" else not_fetched (some 404) "Not Found"

abbrev excerpt : String → String
excerpt text = text

found : (p : FilePath) (text : String) → fetch p ≡ content text → tree p ≡ some text
found p text e = elim (Bool-cases (same_path p layout)) [
  | inl same ↦ rw same (ap content_of (rw same at e))
  | inr other ↦ rw other (ap content_of (rw other at e))
]

missing : (p : FilePath) (reason : String) → fetch p ≡ not_fetched (some 404) reason → tree p ≡ none
missing p reason e = elim (Bool-cases (same_path p layout)) [
  | inl same ↦ rw same (ap content_of (rw same at e))
  | inr other ↦ rw other refl
]

sidecars_match_example :
    let out = resolve_route_guard_sidecars excerpt fetch (route ∷ []) in
    (is_reported route out.route_guard_errors ≡ true)
    ⊎ (lookup route out.sidecars_by_path ≡ resolve_remix_route_guard excerpt (disk tree) route)
sidecars_match_example = sidecars_match excerpt tree fetch found missing (route ∷ []) route refl

abbrev guard : ResolvedGuard
guard = record { path = layout; coverage_proven = true; excerpt = "loader" }

resolved : resolve_remix_route_guard excerpt (disk tree) route ≡ some (guard ∷ [])
unfolding resolve_remix_route_guard resolve_under climb layout_in find_routes_root opts_out
    breaks_nesting
resolved = refl

guards_are_proven_example : All (IsProvenLayout excerpt (disk tree) route) (guard ∷ [])
guards_are_proven_example = guards_are_proven excerpt (disk tree) route (guard ∷ []) resolved
