-- ===== src/RouteGuard/Proven.antt =====
-- Which layouts a sidecar names.
use fixor.Prelude.{
  ℕ, zero, suc, ◌≡◌, refl, subst, ◌⊎◌, inl, inr, Bool, true, false, not, ◌&&◌, ◌||◌, Option, none,
  some, List, [], ◌∷◌, String, arith, Bool-cases, eq_of_some, filterb, All, All-append, includes,
  kept, eq_refl,
}
use fixor.RouteGuard.{
  FilePath, same_path, dirname, layout_basenames, is_under_routes, find_routes_root, opts_out,
  breaks_nesting,
}
use fixor.RouteGuard.Resolver.{
  GuardFs, ResolvedGuard, max_depth, guard_of, layout_in, climb, nothing_if_empty, resolve_under,
  resolve_remix_route_guard,
}

-- The directory `n` levels above.
abbrev pub above : ℕ → FilePath → FilePath
above zero dir = dir
above (suc n) dir = above n (dirname dir)

-- No directory from this one up to below the one `n` levels above breaks the nesting.
abbrev pub is_nested : ℕ → FilePath → Bool
is_nested zero dir = true
is_nested (suc n) dir = not (breaks_nesting dir) && is_nested n (dirname dir)

module _ (excerpt : String → String) (fs : GuardFs) (file : FilePath) where
  -- A layout beside the route or some levels above it that is not the file itself, whose text is read.
  abbrev pub IsLayout : FilePath → ResolvedGuard → Type 0
  IsLayout dir g =
      ((name : String) × (includes name layout_basenames ≡ true) × (g.path ≡ name ∷ dir))
      × (same_path g.path file ≡ false)
      × (fs.exists g.path ≡ true)
      × ((text : String) × (fs.read g.path ≡ some text) × (g.excerpt ≡ excerpt text))

  -- If it is marked as proven, nothing below it breaks the nesting.
  abbrev pub IsAbove : Bool → FilePath → ResolvedGuard → Type 0
  IsAbove broken dir g =
      (n : ℕ) × IsLayout (above n dir) g
      × ((g.coverage_proven ≡ false) ⊎ ((broken ≡ false) × (is_nested n dir ≡ true)))

  guard_of-IsAbove :
      (dir : FilePath) (broken : Bool) (name : String) (o : Option String)
      → includes name layout_basenames ≡ true
      → same_path (name ∷ dir) file ≡ false
      → fs.exists (name ∷ dir) ≡ true
      → fs.read (name ∷ dir) ≡ o
      → All (IsAbove broken dir) (guard_of excerpt fs broken (name ∷ dir) o)
  guard_of-IsAbove dir broken name none known other there e = tt
  guard_of-IsAbove dir broken name (some text) known other there e =
      ((0, ((name, known, refl), other, there, (text, e, refl)), ground arith), tt)

  layout_in-IsAbove :
      (dir : FilePath) (broken : Bool) (names : List String)
      → ((name : String) → includes name names ≡ true → includes name layout_basenames ≡ true)
      → All (IsAbove broken dir) (layout_in excerpt fs file dir broken names)
  unfolding layout_in
  layout_in-IsAbove dir broken [] sub = tt
  layout_in-IsAbove dir broken (name ∷ names) sub =
      let rest = layout_in-IsAbove dir broken names (λ x listed. sub x (ground (arith, listed))) in
      let first = sub name (ground (arith, eq_refl name)) in
      elim (Bool-cases (same_path (name ∷ dir) file)) [
        | inl own ↦ rw own rest
        | inr other ↦ elim (Bool-cases (fs.exists (name ∷ dir))) [
          | inl there ↦
              subst (All (IsAbove broken dir)) (rw (other, there) refl)
                (guard_of-IsAbove dir broken name (fs.read (name ∷ dir)) first other there refl)
          | inr absent ↦ rw (other, absent) rest
        ]
      ]

  lift :
      (broken : Bool) (dir : FilePath) (gs : List ResolvedGuard)
      → All (IsAbove (broken || breaks_nesting dir) (dirname dir)) gs
      → All (IsAbove broken dir) gs
  lift broken dir [] h = tt
  lift broken dir (g ∷ gs) ((n, layout, inl unproven), h) =
      ((suc n, layout, inl unproven), lift broken dir gs h)
  lift broken dir (g ∷ gs) ((n, layout, inr (kept, nested)), h) = (
    (suc n, layout, inr (ground (arith, kept), ground (arith, kept, nested))),
    lift broken dir gs h,
  )

  climb-IsAbove :
      (n : ℕ) (root dir : FilePath) (broken : Bool)
      → All (IsAbove broken dir) (climb excerpt fs n file root dir broken)
  unfolding climb
  climb-IsAbove zero root dir broken = tt
  climb-IsAbove (suc n) root dir broken =
      let here = layout_in-IsAbove dir broken layout_basenames (λ x listed. listed) in
      let above' = climb-IsAbove n root (dirname dir) (broken || breaks_nesting dir) in
      elim (Bool-cases (same_path dir root)) [
        | inl top ↦ rw top here
        | inr below ↦ elim (Bool-cases (same_path (dirname dir) dir)) [
          | inl top ↦ rw (below, top) here
          | inr more ↦
              rw (below, more) (All-append (IsAbove broken dir) _ _ here (lift broken dir _ above'))
        ]
      ]

  -- A layout above the route, with nothing in between that breaks the nesting.
  abbrev pub IsProvenLayout : ResolvedGuard → Type 0
  IsProvenLayout g =
      (opts_out file ≡ false)
      × ((n : ℕ) × IsLayout (above n (dirname file)) g × (is_nested n (dirname file) ≡ true))

  filter-IsProvenLayout :
      (gs : List ResolvedGuard)
      → All (IsAbove (opts_out file) (dirname file)) gs
      → All IsProvenLayout (filterb (λ g. g.coverage_proven) gs)
  filter-IsProvenLayout [] h = tt
  filter-IsProvenLayout (g ∷ gs) ((n, layout, why), h) = elim (Bool-cases g.coverage_proven) [
    | inl proven ↦ rw proven (
      elim why [
        | inl unproven ↦ absurd (ground (arith, proven, unproven))
        | inr (kept, nested) ↦ (kept, (n, layout, nested))
      ],
      filter-IsProvenLayout gs h,
    )
    | inr unproven ↦ rw unproven (filter-IsProvenLayout gs h)
  ]

  under-IsProvenLayout :
      (root : Option FilePath) (gs : List ResolvedGuard)
      → resolve_under excerpt fs file root ≡ some gs
      → All IsProvenLayout gs
  unfolding resolve_under
  under-IsProvenLayout none gs e = absurd (ground (arith, e))
  under-IsProvenLayout (some root) gs e =
      from_some
        (filterb (λ g. g.coverage_proven)
          (climb excerpt fs max_depth file root (dirname file) (opts_out file)))
        e (filter-IsProvenLayout _ (climb-IsAbove max_depth root (dirname file) (opts_out file)))
    where
      from_some :
          (hs : List ResolvedGuard)
          → nothing_if_empty hs ≡ some gs
          → All IsProvenLayout hs
          → All IsProvenLayout gs
      from_some [] e h = absurd (ground (arith, e))
      from_some (g ∷ hs) e h = subst (All IsProvenLayout) (eq_of_some e) h

  -- A sidecar names only layouts that stand at or above the route's directory, exist, are read and are not the route
  -- itself, and only if the route's name does not opt out and every directory from the route's up to below the layout is
  -- a `+` folder that does not opt out either.
  pub guards_are_proven :
      (gs : List ResolvedGuard)
      → resolve_remix_route_guard excerpt fs file ≡ some gs
      → All IsProvenLayout gs
  unfolding resolve_remix_route_guard
  guards_are_proven gs e = elim (Bool-cases (is_under_routes file)) [
    | inl under ↦ under-IsProvenLayout (find_routes_root file) gs (rw under at e)
    | inr outside ↦ absurd (ground (arith, rw outside at e))
  ]
