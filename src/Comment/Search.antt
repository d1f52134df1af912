-- ===== src/Comment/Search.antt =====
-- The truncation of src/integrations/github/comment-size-guard.ts cuts at the longest prefix that fits.
use fixor.Prelude.{
  ℕ, zero, suc, ◌+◌, ◌/◌, ◌≤◌, ◌<◌, ◌≡◌, refl, sym, ap, subst, inl, inr, [], ◌∷◌, ◌++◌, arith, ltb,
  leb, ltb→lt, leb→le, Bool-cases, length, take,
}
use fixor.Comment.{Text, trim_end, next_bounds, search, truncate_utf8_to_max_bytes}

-- What the guard relies on of `Buffer.byteLength(s, "utf8")`. A text cut inside a surrogate pair counts three bytes for
-- each half and four for the whole, so the length of a whole is at most the sum.
pub record IsByteLength (u : Text → ℕ) : Type 0 where
  pub empty : u [] ≡ 0
  pub of_prefix : (s t : Text) → u s ≤ u (s ++ t)
  pub of_append : (s t : Text) → u (s ++ t) ≤ u s + u t

take_split : (m n : ℕ) (t : Text) → m ≤ n → (r : Text) × (take n t ≡ take m t ++ r)
take_split zero n t h = (take n t, refl)
take_split (suc m) zero t h = absurd (omega (arith, h))
take_split (suc m) (suc n) [] h = ([], refl)
take_split (suc m) (suc n) (c ∷ t) h =
    let (r, e) = take_split m n t (omega (arith, h)) in (r, ap (λ s. c ∷ s) e)

take-length : (n : ℕ) (t : Text) → length t ≤ n → take n t ≡ t
take-length zero [] h = refl
take-length zero (c ∷ t) h = absurd (omega (arith, h))
take-length (suc n) [] h = refl
take-length (suc n) (c ∷ t) h = ap (λ s. c ∷ s) (take-length n t (omega (arith, h)))

module _ (u : Text → ℕ) (laws : IsByteLength u) (text : Text) (max_bytes : ℕ) where
  take_mono : (m n : ℕ) → m ≤ n → u (take m text) ≤ u (take n text)
  take_mono m n h =
      let (r, e) = take_split m n text h in
      subst (λ s. u (take m text) ≤ u s) (sym e) (laws.of_prefix (take m text) r)

  -- The prefix of this length fits, and no longer one does.
  pub record IsLongest (n : ℕ) : Type 0 where
    pub fits : u (take n text) ≤ max_bytes
    pub longest : (k : ℕ) → n < k → max_bytes < u (take k text)

  record Bounds (low high : ℕ) : Type 0 where
    ordered : low ≤ high
    low_fits : u (take low text) ≤ max_bytes
    high_fails : (k : ℕ) → high < k → max_bytes < u (take k text)

  next-Bounds :
      (low high : ℕ)
      → low < high
      → Bounds low high
      → Bounds (next_bounds u text max_bytes low high).0 (next_bounds u text max_bytes low high).1
  unfolding next_bounds
  next-Bounds low high less b =
      elim (Bool-cases (leb (u (take ((low + high + 1) / 2) text)) max_bytes)) [
        | inl yes' ↦ rw yes' (record {
          ordered = omega (arith, less);
          low_fits = leb→le _ _ yes';
          high_fails = b.high_fails;
        })
        | inr no' ↦ rw no' (record {
          ordered = omega (arith, less);
          low_fits = b.low_fits;
          high_fails = λ k h.
              let m = take_mono ((low + high + 1) / 2) k (omega (arith, h, less)) in
              ground (arith, no', m);
        })
      ]

  narrows :
      (low high fuel : ℕ)
      → low < high
      → high ≤ low + suc fuel
      → (next_bounds u text max_bytes low high).1 ≤ (next_bounds u text max_bytes low high).0 + fuel
  unfolding next_bounds
  narrows low high fuel less f =
      elim (Bool-cases (leb (u (take ((low + high + 1) / 2) text)) max_bytes)) [
        | inl yes' ↦ rw yes' (omega (arith, less, f))
        | inr no' ↦ rw no' (omega (arith, less, f))
      ]

  search-IsLongest :
      (fuel low high : ℕ)
      → high ≤ low + fuel
      → Bounds low high
      → IsLongest (search u fuel text max_bytes (low, high))
  unfolding search
  search-IsLongest zero low high f b = record {
    fits = b.low_fits;
    longest = λ k h. b.high_fails k (omega (arith, h, f));
  }
  search-IsLongest (suc fuel) low high f b = elim (Bool-cases (ltb low high)) [
    | inl yes' ↦ rw yes' (
        search-IsLongest fuel (next_bounds u text max_bytes low high).0
          (next_bounds u text max_bytes low high).1 (narrows low high fuel (ltb→lt low high yes') f)
          (next-Bounds low high (ltb→lt low high yes') b))
    | inr no' ↦
        rw no'
          (record { fits = b.low_fits; longest = λ k h. b.high_fails k (ground (arith, no', h)) })
  ]

  -- A text that does not fit is cut, before its trailing white space is dropped, at the longest prefix that fits: the
  -- binary search ends and is as good as trying every length.
  pub truncate-IsLongest :
      max_bytes < u text
      → (n : ℕ) × IsLongest n
        × (truncate_utf8_to_max_bytes u text max_bytes ≡ trim_end (take n text))
  unfolding truncate_utf8_to_max_bytes
  truncate-IsLongest over =
      let start : Bounds 0 (length text) = record {
        ordered = omega arith;
        low_fits = rw laws.empty (omega arith);
        high_fails = λ k h. rw (take-length k text (omega (arith, h))) over;
      } in
      (
        search u (length text) text max_bytes (0, length text),
        search-IsLongest (length text) 0 (length text) (omega arith) start,
        ground (arith, over),
      )
