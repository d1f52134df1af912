-- ===== src/RouteGuard.antt =====
-- The guards of parent layouts: src/analysis-engine/detectors/shared/route-guard-resolver.ts, and
-- resolveRouteGuardSidecars of src/integrations/github/whole-file-scan-input.ts. A path is the list of its segments, the
-- innermost first, with `/` for the separator; `.` and `..` do not occur in it. This file holds paths and layouts.
pub mod Resolver
pub mod Agreement
pub mod Sidecars
pub mod Parity
pub mod Proven
mod Tests
use fixor.Prelude.{
  ℕ, zero, suc, ◌+◌, ◌-◌, ◌*◌, ◌/◌, ◌%◌, ◌≤◌, ◌<◌, min, max, ◌≡◌, ◌≢◌, ◌∙◌, refl, sym, ap, subst,
  ◌↔◌, ◌⊎◌, inl, inr, Bool, true, false, not, ◌&&◌, ◌||◌, Option, none, some, List, [], ◌∷◌, ◌++◌,
  map, String, arith, ◌^◌, ltb, leb, ◌==◌, if◌then◌else◌, ltb→lt, leb→le, ==_iff, Bool-cases,
  Option-cases, or_else, eq_of_some, length, get_elem?, drop, take, any, all, filterb,
  length-append, length-map, any-append, All, All-append, str_eq, includes, Map, get, put, remove,
  retain, kept, Distinct, get-put, get-remove, get-empty, put-Distinct, get-retain, retain-Distinct,
  map_laws, codes, codes_eq, starts_with, contains, to_lower, is_space, trim, trim_text, join,
  decimal, digits_from, is_digit, digits_from-decimal, split_from, is_empty, eq_iff, eq_refl,
}

abbrev pub FilePath : Type 0
FilePath = List String

abbrev pub same_path : FilePath → FilePath → Bool
same_path [] [] = true
same_path (a ∷ p) (b ∷ q) = str_eq a b && same_path p q
same_path _ _ = false

abbrev pub has_path : FilePath → List FilePath → Bool
has_path p [] = false
has_path p (q ∷ qs) = same_path q p || has_path p qs

-- `dirname`: the root and the current directory are their own.
abbrev pub dirname : FilePath → FilePath
dirname [] = []
dirname (base ∷ []) = if str_eq base "" then base ∷ [] else []
dirname (base ∷ dir ∷ up) = dir ∷ up

-- `basename`
abbrev pub basename : FilePath → String
basename [] = ""
basename (base ∷ up) = base

-- LAYOUT_BASENAMES
abbrev pub layout_basenames : List String
layout_basenames = "_layout.tsx" ∷ "_layout.ts" ∷ "_layout.jsx" ∷ "_layout.js" ∷ []

-- `/(^|\/)routes\//`: a directory of the path is called `routes`.
abbrev pub is_under_routes : FilePath → Bool
is_under_routes [] = false
is_under_routes (base ∷ up) = any (λ dir. str_eq dir "routes") up

-- findRoutesRoot: the longest part of the path that ends in `/routes`.
unfoldable pub find_routes_root : FilePath → Option FilePath
find_routes_root [] = none
find_routes_root (base ∷ up) =
    let rest = find_routes_root up in
    if str_eq base "routes" && not (is_empty up) then some (base ∷ up) else rest

-- The last code of a text, and the text up to it.
abbrev pub ends_in : ℕ → List ℕ → Bool
ends_in c [] = false
ends_in c (d ∷ []) = d == c
ends_in c (d ∷ e ∷ s) = ends_in c (e ∷ s)

abbrev pub drop_last : List ℕ → List ℕ
drop_last [] = []
drop_last (c ∷ []) = []
drop_last (c ∷ d ∷ s) = c ∷ drop_last (d ∷ s)

-- firstSegment: what stands before the first dot.
abbrev pub first_segment : List ℕ → List ℕ
first_segment [] = []
first_segment (c ∷ s) = let rest = first_segment s in if c == b'.' then [] else c ∷ rest

-- The file opts out of its parent layout.
unfoldable pub opts_out : FilePath → Bool
opts_out file = ends_in b'_' (first_segment (codes (basename file)))

-- Above this directory nothing is proven: it is no `+` folder, or opts out.
unfoldable pub breaks_nesting : FilePath → Bool
breaks_nesting dir =
    let base = codes (basename dir) in
    if not (ends_in b'+' base) then true else ends_in b'_' (drop_last base)

pub same_path_iff : (p q : FilePath) → (same_path p q ≡ true) ↔ (p ≡ q)
same_path_iff [] [] = ((λ e. refl), (λ e. refl))
same_path_iff [] (b ∷ q) =
    ((λ e. absurd (ground (arith, e))), (λ e. absurd (ground (arith, ap is_empty e))))
same_path_iff (a ∷ p) [] =
    ((λ e. absurd (ground (arith, e))), (λ e. absurd (ground (arith, ap is_empty e))))
same_path_iff (a ∷ p) (b ∷ q) = ground (arith, eq_iff a b, same_path_iff p q)

has_path-append :
    (p : FilePath) (xs ys : List FilePath)
    → has_path p (xs ++ ys) ≡ (has_path p xs || has_path p ys)
has_path-append p [] ys = refl
has_path-append p (x ∷ xs) ys = ground (arith, has_path-append p xs ys)

pub has_path-left :
    (p : FilePath) (xs ys : List FilePath) → has_path p xs ≡ true → has_path p (xs ++ ys) ≡ true
has_path-left p xs ys h = ground (arith, has_path-append p xs ys, h)

pub has_path-right :
    (p : FilePath) (xs ys : List FilePath) → has_path p ys ≡ true → has_path p (xs ++ ys) ≡ true
has_path-right p xs ys h = ground (arith, has_path-append p xs ys, h)
