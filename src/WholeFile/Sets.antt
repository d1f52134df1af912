-- ===== src/WholeFile/Sets.antt =====
-- Sets of line numbers.
use fixor.Prelude.{
  ℕ, ◌≡◌, refl, subst, inl, inr, Bool, true, false, ◌&&◌, ◌||◌, List, [], ◌∷◌, ◌++◌, arith, ◌==◌,
  ==_iff, Bool-cases, any-append, is_empty,
}
use fixor.WholeFile.{has_line, add_line, insert_line, sort_lines}

abbrev pub all_in : List ℕ → List ℕ → Bool
all_in [] ns = true
all_in (m ∷ ms) ns = has_line m ns && all_in ms ns

pub has_line-add_line :
    (n k : ℕ) (ns : List ℕ) → has_line k (add_line n ns) ≡ ((n == k) || has_line k ns)
unfolding add_line
has_line-add_line n k ns = elim (Bool-cases (has_line n ns)) [
  | inl known ↦ elim (Bool-cases (n == k)) [
    | inl same ↦ rw (known, same) (subst (λ m. has_line m ns ≡ true) ((==_iff n k).0 same) known)
    | inr other ↦ rw (known, other) refl
  ]
  | inr new ↦ rw new (ground (arith, any-append (λ m. m == k) ns (n ∷ [])))
]

pub is_empty-add_line : (n : ℕ) (ns : List ℕ) → is_empty (add_line n ns) ≡ false
unfolding add_line
is_empty-add_line n [] = ground arith
is_empty-add_line n (m ∷ ns) = elim (Bool-cases (has_line n (m ∷ ns))) [
  | inl known ↦ rw known refl
  | inr new ↦ rw new refl
]

pub all_in-add_line :
    (ms : List ℕ) (n : ℕ) (ns : List ℕ) → all_in ms ns ≡ true → all_in ms (add_line n ns) ≡ true
all_in-add_line [] n ns h = refl
all_in-add_line (m ∷ ms) n ns h =
    ground (arith, has_line-add_line n m ns, all_in-add_line ms n ns, h)

pub all_in-snoc :
    (ms : List ℕ) (n : ℕ) (ns : List ℕ) → all_in (ms ++ n ∷ []) ns ≡ (all_in ms ns && has_line n ns)
all_in-snoc [] n ns = ground arith
all_in-snoc (m ∷ ms) n ns = ground (arith, all_in-snoc ms n ns)

has_line-insert_line :
    (k n : ℕ) (ns : List ℕ) → has_line k (insert_line n ns) ≡ ((n == k) || has_line k ns)
has_line-insert_line k n [] = refl
has_line-insert_line k n (m ∷ ns) = ground (arith, has_line-insert_line k n ns)

pub has_line-sort_lines : (k : ℕ) (ns : List ℕ) → has_line k (sort_lines ns) ≡ has_line k ns
has_line-sort_lines k [] = refl
has_line-sort_lines k (n ∷ ns) =
    ground (arith, has_line-insert_line k n (sort_lines ns), has_line-sort_lines k ns)

pub all_in-sort_lines : (ms ns : List ℕ) → all_in ms ns ≡ true → all_in ms (sort_lines ns) ≡ true
all_in-sort_lines [] ns h = refl
all_in-sort_lines (m ∷ ms) ns h =
    ground (arith, has_line-sort_lines m ns, all_in-sort_lines ms ns, h)
