-- ===== src/Findings/Merge.antt =====
-- dedupeFindings and collapseFindings of src/cli/finding-merge.ts.
use fixor.Prelude.{
  ◌≡◌, refl, ap, subst, inl, inr, Bool, true, false, not, ◌&&◌, List, [], ◌∷◌, String, arith,
  if◌then◌else◌, Bool-cases, str_eq, includes, join, decimal, eq_iff, eq_refl,
}
use fixor.Findings.{Finding, type_name}

-- `${f.file}:${f.line}:${f.type}`
unfoldable pub finding_key : Finding → String
finding_key f = join f.file (join ":" (join (decimal f.start_line) (join ":" (type_name f.type))))

abbrev pub keys : List Finding → List String
keys [] = []
keys (f ∷ fs) = finding_key f ∷ keys fs

unfoldable pub dedupe_from : List String → List Finding → List Finding
dedupe_from seen [] = []
dedupe_from seen (f ∷ fs) =
    let known = includes (finding_key f) seen in
    let rest = dedupe_from (if known then seen else finding_key f ∷ seen) fs in
    if known then rest else f ∷ rest

unfoldable pub dedupe_findings : List Finding → List Finding
unfolding dedupe_from
dedupe_findings fs = dedupe_from [] fs

unfoldable pub collapse_findings : List Finding → List Finding
unfolding dedupe_findings
collapse_findings fs = dedupe_findings fs

abbrev pub is_distinct : List String → Bool
is_distinct [] = true
is_distinct (k ∷ ks) = not (includes k ks) && is_distinct ks

-- The texts that are known after a finding, whether it is new or not.
includes_added :
    (seen : List String) (key k : String)
    → includes k (if includes key seen then seen else key ∷ seen)
      ≡ (if str_eq key k then true else includes k seen)
includes_added seen key k = elim (Bool-cases (includes key seen)) [
  | inl known ↦ elim (Bool-cases (str_eq key k)) [
    | inl same ↦
        rw (known, same) (subst (λ x. includes x seen ≡ true) ((eq_iff key k).0 same) known)
    | inr other ↦ rw (known, other) refl
  ]
  | inr new ↦ rw new refl
]

dedupe_from-includes :
    (seen : List String) (fs : List Finding) (k : String)
    → includes k (keys (dedupe_from seen fs)) ≡ (includes k (keys fs) && not (includes k seen))
unfolding dedupe_from
dedupe_from-includes seen [] k = refl
dedupe_from-includes seen (f ∷ fs) k =
    let key = finding_key f in
    let ih = dedupe_from-includes (if includes key seen then seen else key ∷ seen) fs k in
    let added = includes_added seen key k in
    elim (Bool-cases (str_eq key k)) [
      | inl same ↦
          let same' =
            subst (λ x. includes key seen ≡ includes x seen) ((eq_iff key k).0 same) refl in
          ground (arith, ih, added, same, same')
      | inr other ↦ ground (arith, ih, added, other)
    ]

includes-eq :
    (key k : String) (ks : List String) → str_eq key k ≡ true → includes key ks ≡ includes k ks
includes-eq key k ks same = ap (λ x. includes x ks) ((eq_iff key k).0 same)

dedupe_from-distinct :
    (seen : List String) (fs : List Finding) → is_distinct (keys (dedupe_from seen fs)) ≡ true
unfolding dedupe_from
dedupe_from-distinct seen [] = refl
dedupe_from-distinct seen (f ∷ fs) =
    let key = finding_key f in
    let seen' = if includes key seen then seen else key ∷ seen in
    let ih = dedupe_from-distinct seen' fs in
    let here = dedupe_from-includes seen' fs key in
    let added = includes_added seen key key in ground (arith, ih, here, added, eq_refl key)

dedupe_from-fixed :
    (seen : List String) (fs : List Finding)
    → is_distinct (keys fs) ≡ true
    → ((k : String) → includes k (keys fs) ≡ true → includes k seen ≡ false)
    → dedupe_from seen fs ≡ fs
unfolding dedupe_from
dedupe_from-fixed seen [] distinct fresh = refl
dedupe_from-fixed seen (f ∷ fs) distinct fresh =
    let key = finding_key f in
    let new : includes key seen ≡ false = fresh key (ground (arith, eq_refl key)) in
    let rest =
      dedupe_from-fixed (key ∷ seen) fs (ground (arith, distinct))
        (λ k h. ground (arith, fresh k, includes-eq key k (keys fs), distinct, h)) in
    rw (new, rest) refl

-- The merge keeps one finding for each file, line and type that a finding has and invents none; merging again changes
-- nothing.
pub collapse_findings-distinct :
    (fs : List Finding)
    → (is_distinct (keys (collapse_findings fs)) ≡ true)
      × ((k : String) → includes k (keys (collapse_findings fs)) ≡ includes k (keys fs))
      × (collapse_findings (collapse_findings fs) ≡ collapse_findings fs)
unfolding collapse_findings dedupe_findings
collapse_findings-distinct fs = (
  dedupe_from-distinct [] fs,
  (λ k. ground (arith, dedupe_from-includes [] fs k)),
  dedupe_from-fixed [] (dedupe_from [] fs) (dedupe_from-distinct [] fs) (λ k h. refl),
)
