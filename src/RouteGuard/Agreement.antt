-- ===== src/RouteGuard/Agreement.antt =====
-- The resolver looks at the candidates only.
use fixor.Prelude.{
  ℕ, zero, suc, ◌≡◌, refl, ap, inl, inr, Bool, true, not, ◌&&◌, ◌||◌, Option, none, some, List, [],
  ◌∷◌, String, arith, if◌then◌else◌, Bool-cases, filterb,
}
use fixor.RouteGuard.{
  FilePath, same_path, has_path, dirname, layout_basenames, is_under_routes, find_routes_root,
  opts_out, breaks_nesting, same_path_iff, has_path-left, has_path-right,
}
use fixor.RouteGuard.Resolver.{
  GuardFs, max_depth, layout_in, climb, nothing_if_empty, resolve_under, resolve_remix_route_guard,
  candidates_in, candidate_walk, unseen, candidates_under, candidate_layout_paths,
}

pub has_path-unseen :
    (p : FilePath) (seen ps : List FilePath)
    → has_path p (unseen seen ps) ≡ (has_path p ps && not (has_path p seen))
unfolding unseen
has_path-unseen p seen [] = refl
has_path-unseen p seen (q ∷ ps) =
    let ih = has_path-unseen p (if has_path q seen then seen else q ∷ seen) ps in
    elim (Bool-cases (same_path q p)) [
      | inl same ↦
          let both = ap (λ x. has_path x seen) ((same_path_iff q p).0 same) in
          ground (arith, ih, same, both)
      | inr other ↦ ground (arith, ih, other)
    ]

-- The file systems agree on a path.
abbrev pub Agree : GuardFs → GuardFs → FilePath → Type 0
Agree a b p = (a.exists p ≡ b.exists p) × (a.read p ≡ b.read p)

module _ (excerpt : String → String) (a b : GuardFs) (file : FilePath) where
  layout_in-Agree :
      (dir : FilePath) (broken : Bool) (names : List String)
      → ((p : FilePath) → has_path p (candidates_in file dir names) ≡ true → Agree a b p)
      → layout_in excerpt a file dir broken names ≡ layout_in excerpt b file dir broken names
  unfolding layout_in
  layout_in-Agree dir broken [] h = refl
  layout_in-Agree dir broken (name ∷ names) h = elim (Bool-cases (same_path (name ∷ dir) file)) [
    | inl own ↦ rw own (layout_in-Agree dir broken names (λ p listed. h p (rw own listed)))
    | inr other ↦
        let here = (same_path_iff (name ∷ dir) (name ∷ dir)).1 refl in
        let (exists, read) = h (name ∷ dir) (rw other (rw here refl)) in
        let rest =
          layout_in-Agree dir broken names (λ p listed. h p (rw other (ground (arith, listed)))) in
        rw (other, exists, read, rest) refl
  ]

  climb-Agree :
      (n : ℕ) (root dir : FilePath) (broken : Bool)
      → ((p : FilePath) → has_path p (candidate_walk n file root dir) ≡ true → Agree a b p)
      → climb excerpt a n file root dir broken ≡ climb excerpt b n file root dir broken
  unfolding climb candidate_walk
  climb-Agree zero root dir broken h = refl
  climb-Agree (suc n) root dir broken h =
      let here = candidates_in file dir layout_basenames in
      let above = candidate_walk n file root (dirname dir) in
      elim (Bool-cases (same_path dir root)) [
        | inl top ↦ rw top (layout_in-Agree dir broken layout_basenames (λ p l. h p (rw top l)))
        | inr below ↦ elim (Bool-cases (same_path (dirname dir) dir)) [
          | inl top ↦
              rw (below, top)
                (layout_in-Agree dir broken layout_basenames (λ p l. h p (rw (below, top) l)))
          | inr more ↦
              let first =
                layout_in-Agree dir broken layout_basenames
                  (λ p l. h p (rw (below, more) (has_path-left p here above l))) in
              let rest =
                climb-Agree n root (dirname dir) (broken || breaks_nesting dir)
                  (λ p l. h p (rw (below, more) (has_path-right p here above l))) in
              rw (below, more, first, rest) refl
        ]
      ]

  under-Agree :
      (root : Option FilePath)
      → ((p : FilePath) → has_path p (candidates_under file root) ≡ true → Agree a b p)
      → resolve_under excerpt a file root ≡ resolve_under excerpt b file root
  unfolding resolve_under candidates_under
  under-Agree none h = refl
  under-Agree (some root) h =
      let all' = candidate_walk max_depth file root (dirname file) in
      ap (λ gs. nothing_if_empty (filterb (λ g. g.coverage_proven) gs))
        (climb-Agree max_depth root (dirname file) (opts_out file)
          (λ p listed. h p (ground (arith, has_path-unseen p [] all', listed))))

  -- The resolver looks at no path but the candidates: on two file systems that agree there it finds the same guards.
  pub resolve-Agree :
      ((p : FilePath) → has_path p (candidate_layout_paths file) ≡ true → Agree a b p)
      → resolve_remix_route_guard excerpt a file ≡ resolve_remix_route_guard excerpt b file
  unfolding resolve_remix_route_guard candidate_layout_paths
  resolve-Agree h = elim (Bool-cases (is_under_routes file)) [
    | inl under ↦ rw under (under-Agree (find_routes_root file) (λ p l. h p (rw under l)))
    | inr outside ↦ rw outside refl
  ]
