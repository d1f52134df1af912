-- ===== src/RouteGuard/Resolver.antt =====
-- resolveRemixRouteGuard and candidateLayoutPaths. The excerpt of a layout's loader is an argument, and the text of the
-- sidecar is the list of its guards.
use fixor.Prelude.{
  ℕ, zero, suc, Bool, not, ◌||◌, Option, none, some, List, [], ◌∷◌, ◌++◌, String, if◌then◌else◌,
  filterb,
}
use fixor.RouteGuard.{
  FilePath, same_path, has_path, dirname, layout_basenames, is_under_routes, find_routes_root,
  opts_out, breaks_nesting,
}

pub record GuardFs : Type 0 where
  pub exists : FilePath → Bool
  pub read : FilePath → Option String

pub record ResolvedGuard : Type 0 where
  pub path : FilePath
  pub coverage_proven : Bool
  pub excerpt : String

abbrev pub max_depth : ℕ
max_depth = 64

abbrev pub nothing_if_empty : List ResolvedGuard → Option (List ResolvedGuard)
nothing_if_empty [] = none
nothing_if_empty (g ∷ gs) = some (g ∷ gs)

module _ (excerpt : String → String) (fs : GuardFs) where
  abbrev pub guard_of : Bool → FilePath → Option String → List ResolvedGuard
  guard_of broken candidate none = []
  guard_of broken candidate (some content) =
      record { path = candidate; coverage_proven = not broken; excerpt = excerpt content } ∷ []

  -- The loop over LAYOUT_BASENAMES in one directory: the first that exists ends it.
  unfoldable pub layout_in : FilePath → FilePath → Bool → List String → List ResolvedGuard
  layout_in file dir broken [] = []
  layout_in file dir broken (name ∷ names) =
      let rest = layout_in file dir broken names in
      if same_path (name ∷ dir) file
      then rest
      else if fs.exists (name ∷ dir)
      then guard_of broken (name ∷ dir) (fs.read (name ∷ dir))
      else rest

  -- The walk up to the root of the routes.
  unfoldable pub climb : (fuel : ℕ) → FilePath → FilePath → FilePath → Bool → List ResolvedGuard
  unfolding layout_in
  climb zero file root dir broken = []
  climb (suc n) file root dir broken =
      let here = layout_in file dir broken layout_basenames in
      let above = climb n file root (dirname dir) (broken || breaks_nesting dir) in
      if same_path dir root
      then here
      else if same_path (dirname dir) dir
      then here
      else here ++ above

  unfoldable pub resolve_under : FilePath → Option FilePath → Option (List ResolvedGuard)
  unfolding climb
  resolve_under file none = none
  resolve_under file (some root) =
      nothing_if_empty (
        filterb (λ g. g.coverage_proven) (climb max_depth file root (dirname file) (opts_out file)))

  -- The guards of the sidecar, none where there is no sidecar.
  unfoldable pub resolve_remix_route_guard : FilePath → Option (List ResolvedGuard)
  unfolding resolve_under
  resolve_remix_route_guard file =
      if not (is_under_routes file) then none else resolve_under file (find_routes_root file)

abbrev pub candidates_in : FilePath → FilePath → List String → List FilePath
candidates_in file dir [] = []
candidates_in file dir (name ∷ names) =
    let rest = candidates_in file dir names in
    if same_path (name ∷ dir) file then rest else (name ∷ dir) ∷ rest

unfoldable pub candidate_walk : (fuel : ℕ) → FilePath → FilePath → FilePath → List FilePath
candidate_walk zero file root dir = []
candidate_walk (suc n) file root dir =
    let here = candidates_in file dir layout_basenames in
    let above = candidate_walk n file root (dirname dir) in
    if same_path dir root then here else if same_path (dirname dir) dir then here else here ++ above

-- `seen`: the paths not in `seen`, once.
unfoldable pub unseen : List FilePath → List FilePath → List FilePath
unseen seen [] = []
unseen seen (p ∷ ps) =
    let known = has_path p seen in
    let rest = unseen (if known then seen else p ∷ seen) ps in if known then rest else p ∷ rest

unfoldable pub candidates_under : FilePath → Option FilePath → List FilePath
unfolding candidate_walk unseen
candidates_under file none = []
candidates_under file (some root) = unseen [] (candidate_walk max_depth file root (dirname file))

unfoldable pub candidate_layout_paths : FilePath → List FilePath
unfolding candidates_under
candidate_layout_paths file =
    if not (is_under_routes file) then [] else candidates_under file (find_routes_root file)
