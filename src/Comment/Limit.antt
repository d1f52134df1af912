-- ===== src/Comment/Limit.antt =====
-- The comment that src/integrations/github/comment-size-guard.ts lets through: its size and its marker.
use fixor.Prelude.{
  ◌⊎◌, inl, inr, ℕ, ◌+◌, ◌≤◌, ◌≡◌, refl, sym, ap, subst, Bool, true, false, ◌&&◌, Option, none,
  some, [], ◌∷◌, ◌++◌, arith, ltb, leb, ltb→lt, leb→le, Bool-cases, take, starts_with, contains,
  is_space, is_empty,
}
use fixor.Comment.{
  Text, trim_end, split_last, continued, marker, CommentSizeGuardResult, truncate_utf8_to_max_bytes,
  notice, prefix_of, suffix_of, safe_budget, shorten, apply_comment_size_guard,
}
use fixor.Comment.Search.{IsByteLength, truncate-IsLongest}

trim_end_prefix : (s : Text) → (r : Text) × (s ≡ trim_end s ++ r)
unfolding trim_end
trim_end_prefix [] = ([], refl)
trim_end_prefix (c ∷ s) = elim (Bool-cases (is_space c && is_empty (trim_end s))) [
  | inl yes' ↦ rw yes' (c ∷ s, refl)
  | inr no' ↦ let (r, e) = trim_end_prefix s in rw no' (r, ap (λ t. c ∷ t) e)
]

-- A part that starts with the marker, if there is one.
abbrev IsMarked : Option (Text × Text) → Type 0
IsMarked none = Unit {0}
IsMarked (some (p, q)) = contains marker q ≡ true

starts_contains : (m s : Text) → starts_with m s ≡ true → contains m s ≡ true
starts_contains m [] h = h
starts_contains m (c ∷ s) h = rw h refl

continued-IsMarked :
    (c : ℕ) (s : Text) (starts : Bool) (found : Option (Text × Text))
    → starts ≡ starts_with marker (c ∷ s)
    → IsMarked found
    → IsMarked (continued c s starts found)
continued-IsMarked c s starts (some (p, q)) same h = h
continued-IsMarked c s true none same h = starts_contains marker (c ∷ s) (sym same)
continued-IsMarked c s false none same h = tt

split_last-IsMarked : (s : Text) → IsMarked (split_last marker s)
unfolding split_last
split_last-IsMarked [] = tt
split_last-IsMarked (c ∷ s) =
    continued-IsMarked c s (starts_with marker (c ∷ s)) (split_last marker s) refl
      (split_last-IsMarked s)

suffix_marked :
    (found : Option (Text × Text)) → IsMarked found → contains marker (suffix_of found) ≡ true
suffix_marked none h = refl
suffix_marked (some (p, q)) h = h

unshortened : (u : Text → ℕ) (s : Text) (n : ℕ) → u s ≤ n → u (truncate_utf8_to_max_bytes u s n) ≤ n
unfolding truncate_utf8_to_max_bytes
unshortened u s n h = ground (arith, h)

module _ (u : Text → ℕ) (laws : IsByteLength u) where
  trim_end_le : (s : Text) → u (trim_end s) ≤ u s
  trim_end_le s =
      let (r, e) = trim_end_prefix s in
      subst (λ t. u (trim_end s) ≤ u t) (sym e) (laws.of_prefix (trim_end s) r)

  truncate_le : (s : Text) (n : ℕ) → u (truncate_utf8_to_max_bytes u s n) ≤ n
  truncate_le s n = elim (Bool-cases (ltb n (u s))) [
    | inl over ↦
        let (k, best, e) = truncate-IsLongest u laws s n (ltb→lt n (u s) over) in
        rw e (omega (arith, trim_end_le (take k s), best.fits))
    | inr fits ↦ unshortened u s n (ground (arith, fits))
  ]

  -- What the guard answers for a body.
  pub record IsGuarded (body : Text) (max_bytes : ℕ) (r : CommentSizeGuardResult) : Type 0 where
    pub sized : r.final_utf8_bytes ≡ u r.body
    pub within : r.final_utf8_bytes ≤ max_bytes
    pub kept_or_marked :
        ((r.truncated ≡ false) × (r.body ≡ body))
        ⊎ ((r.truncated ≡ true)
            × ((p : Text) × (q : Text) × (r.body ≡ p ++ q) × (contains marker q ≡ true)))

  fits_within :
      (body : Text) (max_bytes : ℕ) (found : Option (Text × Text))
      → u (notice (u body) max_bytes) + u (suffix_of found) + 4160 ≤ max_bytes
      → (shorten u body (u body) max_bytes found).final_utf8_bytes ≤ max_bytes
  unfolding shorten
  fits_within body max_bytes found room =
      let note = notice (u body) max_bytes in
      let rest = suffix_of found in
      let budget = safe_budget u max_bytes note rest in
      let t = truncate_utf8_to_max_bytes u (prefix_of body found) budget in
      let small : u t ≤ budget = truncate_le (prefix_of body found) budget in
      let whole : u (t ++ (note ++ rest)) ≤ u t + u (note ++ rest) =
        laws.of_append t (note ++ rest) in
      let tail : u (note ++ rest) ≤ u note + u rest = laws.of_append note rest in
      omega (arith, room, small, whole, tail)

  shorten-IsGuarded :
      (body : Text) (max_bytes : ℕ) (found : Option (Text × Text))
      → IsMarked found
      → u (notice (u body) max_bytes) + u (suffix_of found) + 4160 ≤ max_bytes
      → IsGuarded body max_bytes (shorten u body (u body) max_bytes found)
  unfolding shorten
  shorten-IsGuarded body max_bytes found m room =
      let budget = safe_budget u max_bytes (notice (u body) max_bytes) (suffix_of found) in
      let cut = truncate_utf8_to_max_bytes u (prefix_of body found) budget in
      record {
        sized = refl;
        within = fits_within body max_bytes found room;
        kept_or_marked = inr (
          refl,
          (cut ++ notice (u body) max_bytes, suffix_of found, refl, suffix_marked found m),
        );
      }

  -- If the notice, what stands from the last marker on and 4160 bytes more fit the limit, the comment that is posted
  -- fits it; it is the body itself, or a shortened one that still carries the marker.
  pub apply_comment_size_guard-IsGuarded :
      (body : Text) (max_bytes : ℕ)
      → u (notice (u body) max_bytes) + u (suffix_of (split_last marker body)) + 4160 ≤ max_bytes
      → IsGuarded body max_bytes (apply_comment_size_guard u body max_bytes)
  unfolding apply_comment_size_guard
  apply_comment_size_guard-IsGuarded body max_bytes room =
      elim (Bool-cases (leb (u body) max_bytes)) [
        | inl yes' ↦
            rw yes'
              (record { sized = refl; within = leb→le _ _ yes'; kept_or_marked = inl (refl, refl) })
        | inr no' ↦ rw no' (
            shorten-IsGuarded body max_bytes (split_last marker body) (split_last-IsMarked body)
              room)
      ]
