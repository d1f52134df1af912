-- ===== src/RouteGuard/Sidecars.antt =====
-- resolveRouteGuardSidecars: the candidates are fetched, and the resolver is run on what came back.
use fixor.Prelude.{
  ℕ, Bool, true, false, Option, none, some, List, [], ◌∷◌, ◌++◌, String, ◌==◌, if◌then◌else◌,
  filterb,
}
use fixor.RouteGuard.{FilePath, same_path, is_under_routes}
use fixor.RouteGuard.Resolver.{
  GuardFs, ResolvedGuard, resolve_remix_route_guard, unseen, candidate_layout_paths,
}

-- What a fetch comes to; `status` is that of the error, none if it has none.
pub data Fetched : Type 0 where
  content : String → Fetched
  not_fetched : (status : Option ℕ) → (reason : String) → Fetched

-- isAbsent404
unfoldable pub is_absent_404 : Option ℕ → Bool
is_absent_404 none = false
is_absent_404 (some status) = status == 404

pub record RouteGuardError : Type 0 where
  pub route : FilePath
  pub layout : FilePath
  pub reason : String

pub record RouteGuardSidecars : Type 0 where
  pub sidecars_by_path : List (FilePath × List ResolvedGuard)
  pub route_guard_errors : List RouteGuardError

abbrev pub lookup {ℓ} : {V : Type ℓ} → FilePath → List (FilePath × V) → Option V
lookup p [] = none
lookup p ((q, v) ∷ m) = if same_path q p then some v else lookup p m

abbrev pub content_of : Fetched → Option String
content_of (content text) = some text
content_of (not_fetched status reason) = none

-- The reason of a failure that is no 404.
unfoldable pub failure_of : Fetched → Option String
unfolding is_absent_404
failure_of (content text) = none
failure_of (not_fetched status reason) = if is_absent_404 status then none else some reason

-- The entries of a map for the paths whose fetch gives one.
abbrev pub entry {ℓ} :
    {V : Type ℓ} → FilePath → Option V → List (FilePath × V) → List (FilePath × V)
entry p none m = m
entry p (some v) m = (p, v) ∷ m

abbrev pub collect {ℓ} : {V : Type ℓ} → (FilePath → Option V) → List FilePath → List (FilePath × V)
collect value [] = []
collect value (p ∷ ps) = entry p (value p) (collect value ps)

abbrev pub all_candidates : List FilePath → List FilePath
all_candidates [] = []
all_candidates (p ∷ ps) = candidate_layout_paths p ++ all_candidates ps

abbrev pub is_present {ℓ} : {V : Type ℓ} → Option V → Bool
is_present none = false
is_present (some v) = true

-- memFs
abbrev pub mem_fs : List (FilePath × String) → GuardFs
mem_fs contents = record {
  exists = λ p. is_present (lookup p contents);
  read = λ p. lookup p contents;
}

abbrev pub failed_or :
    FilePath → Option String → Option (FilePath × String) → Option (FilePath × String)
failed_or c (some reason) rest = some (c, reason)
failed_or c none rest = rest

-- The first candidate of the route that failed.
abbrev pub first_failed : List (FilePath × String) → List FilePath → Option (FilePath × String)
first_failed failed [] = none
first_failed failed (c ∷ cs) = failed_or c (lookup c failed) (first_failed failed cs)

abbrev pub error_for :
    FilePath → Option (FilePath × String) → List RouteGuardError → List RouteGuardError
error_for route none rest = rest
error_for route (some (layout, reason)) rest =
    record { route = route; layout = layout; reason = reason } ∷ rest

abbrev pub errors_of : List (FilePath × String) → List FilePath → List RouteGuardError
errors_of failed [] = []
errors_of failed (route ∷ routes) =
    error_for route (first_failed failed (candidate_layout_paths route)) (errors_of failed routes)

abbrev pub route_paths : List FilePath → List FilePath
route_paths paths = filterb is_under_routes paths

unfoldable pub wanted : List FilePath → List FilePath
wanted paths = unseen [] (all_candidates (route_paths paths))

unfoldable pub resolve_route_guard_sidecars :
    (excerpt : String → String) → (FilePath → Fetched) → List FilePath → RouteGuardSidecars
unfolding wanted
resolve_route_guard_sidecars excerpt fetch paths =
    let contents = collect (λ p. content_of (fetch p)) (wanted paths) in
    let failed = collect (λ p. failure_of (fetch p)) (wanted paths) in
    record {
      sidecars_by_path =
          collect (resolve_remix_route_guard excerpt (mem_fs contents)) (route_paths paths);
      route_guard_errors = errors_of failed (route_paths paths);
    }
