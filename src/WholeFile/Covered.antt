-- ===== src/WholeFile/Covered.antt =====
-- Every part of the diff gets into the scan's input, or is reported.
use fixor.Prelude.{
  ℕ, ◌≡◌, refl, inl, inr, Bool, true, false, not, ◌&&◌, ◌||◌, Option, List, [], ◌∷◌, ◌++◌, String,
  arith, ltb, leb, Bool-cases, or_else, any, any-append, All, codes_eq,
}
use fixor.Diff.{Line, build_synthetic_diff}
use fixor.WholeFile.{
  RawDiffPart, FileFetch, fetched, fetch_failed, ScanInputError, WholeFileScanInput, take_part,
  take_parts, keep_slice, raw_piece, assign, split_diff_parts, build_whole_file_scan_input,
  empty_input, default_max_file_bytes,
}

abbrev pub names : Line → List Line → Bool
names path ps = any (λ p. codes_eq p path) ps

abbrev pub reports : Line → List ScanInputError → Bool
reports path es = any (λ e. codes_eq e.path path) es

-- The file is there, but over the cap.
abbrev pub is_over : ℕ → FileFetch → Bool
is_over max' (fetched lines bytes) = ltb max' bytes
is_over max' (fetch_failed reason) = false

-- The piece is one of those of the diff.
abbrev lines_eq : List Line → List Line → Bool
lines_eq [] [] = true
lines_eq (x ∷ xs) (y ∷ ys) = codes_eq x y && lines_eq xs ys
lines_eq _ _ = false

abbrev pub holds : List Line → List (List Line) → Bool
holds piece ps = any (λ p. lines_eq p piece) ps

-- The diff of the fetched file.
abbrev pub whole_piece : FileFetch → Line → List Line
whole_piece (fetched lines bytes) path = build_synthetic_diff path lines
whole_piece (fetch_failed reason) path = []

-- The whole file is in the scanned diff, or the original slice, each under its name, or a failed fetch is reported, or the part only deletes lines from a
-- file that is over the cap.
abbrev pub is_accounted : ℕ → FileFetch → RawDiffPart → WholeFileScanInput → Bool
is_accounted max' got part input =
    (names part.path input.whole_file_paths && holds (whole_piece got part.path) input.diff)
    || ((names part.path input.fallback_paths && holds (raw_piece part.raw) input.diff)
        || (reports part.path input.scan_input_errors
            || (not part.has_added_lines && is_over max' got)))

codes_eq-same : (s : Line) → codes_eq s s ≡ true
codes_eq-same [] = refl
codes_eq-same (c ∷ s) = ground (arith, codes_eq-same s)

names-snoc : (path : Line) (ps : List Line) → names path (ps ++ path ∷ []) ≡ true
names-snoc path ps =
    ground (arith, any-append (λ p. codes_eq p path) ps (path ∷ []), codes_eq-same path)

names-keeps :
    (path q : Line) (ps : List Line) → names path ps ≡ true → names path (ps ++ q ∷ []) ≡ true
names-keeps path q ps h = ground (arith, any-append (λ p. codes_eq p path) ps (q ∷ []), h)

reports-snoc :
    (path : Line) (es : List ScanInputError) (r : String)
    → reports path (es ++ record { path = path; reason = r } ∷ []) ≡ true
reports-snoc path es r = ground (
  arith,
  any-append (λ e. codes_eq e.path path) es (record { path = path; reason = r } ∷ []),
  codes_eq-same path,
)

lines_eq-same : (ls : List Line) → lines_eq ls ls ≡ true
lines_eq-same [] = refl
lines_eq-same (l ∷ ls) = ground (arith, codes_eq-same l, lines_eq-same ls)

holds-snoc : (piece : List Line) (ps : List (List Line)) → holds piece (ps ++ piece ∷ []) ≡ true
holds-snoc piece ps =
    ground (arith, any-append (λ p. lines_eq p piece) ps (piece ∷ []), lines_eq-same piece)

holds-keeps :
    (piece q : List Line) (ps : List (List Line))
    → holds piece ps ≡ true
    → holds piece (ps ++ q ∷ []) ≡ true
holds-keeps piece q ps h = ground (arith, any-append (λ p. lines_eq p piece) ps (q ∷ []), h)

-- What is noted of a path stays noted, and a piece of the diff stays there.
abbrev Grows : WholeFileScanInput → WholeFileScanInput → Type 0
Grows a b =
    (path : Line)
    → ((names path a.whole_file_paths ≡ true) → (names path b.whole_file_paths ≡ true))
      × ((names path a.fallback_paths ≡ true) → (names path b.fallback_paths ≡ true))
      × ((reports path a.scan_input_errors ≡ true) → (reports path b.scan_input_errors ≡ true))
      × ((piece : List Line) → holds piece a.diff ≡ true → holds piece b.diff ≡ true)

keep_slice-Grows :
    (part : RawDiffPart) (input : WholeFileScanInput) → Grows input (keep_slice part input)
unfolding keep_slice
keep_slice-Grows part input path = elim (Bool-cases part.has_added_lines) [
  | inl adds ↦ rw adds (
    (λ h. h),
    names-keeps path part.path input.fallback_paths,
    (λ h. h),
    (λ piece h. holds-keeps piece (raw_piece part.raw) input.diff h),
  )
  | inr deletes ↦ rw deletes ((λ h. h), (λ h. h), (λ h. h), (λ piece h. h))
]

reports-keeps :
    (path : Line) (es : List ScanInputError) (e : ScanInputError)
    → reports path es ≡ true
    → reports path (es ++ e ∷ []) ≡ true
reports-keeps path es e h = ground (arith, any-append (λ x. codes_eq x.path path) es (e ∷ []), h)

take_part-Grows :
    (max' : ℕ) (part : RawDiffPart) (got : FileFetch) (input : WholeFileScanInput)
    → Grows input (take_part max' part got input)
unfolding take_part
take_part-Grows max' part (fetched lines bytes) input path = elim (Bool-cases (leb bytes max')) [
  | inl fits ↦ rw fits (
    names-keeps path part.path input.whole_file_paths,
    (λ h. h),
    (λ h. h),
    (λ piece h. holds-keeps piece (build_synthetic_diff part.path lines) input.diff h),
  )
  | inr over ↦ rw over (keep_slice-Grows part _ path)
]
take_part-Grows max' part (fetch_failed reason) input path =
    let e : ScanInputError = record { path = part.path; reason = reason } in
    let input' = record input {
      changed_lines_by_path = assign part.path part.changed_lines input.changed_lines_by_path;
      scan_input_errors = input.scan_input_errors ++ e ∷ [];
    } in
    let grows = keep_slice-Grows part input' path in
    (grows.0, grows.1, (λ h. grows.2 (reports-keeps path input.scan_input_errors e h)), grows.3)

keep_slice-names :
    (part : RawDiffPart) (input : WholeFileScanInput)
    → part.has_added_lines ≡ true
    → (names part.path (keep_slice part input).fallback_paths ≡ true)
      × (holds (raw_piece part.raw) (keep_slice part input).diff ≡ true)
unfolding keep_slice
keep_slice-names part input adds =
    rw adds (names-snoc part.path input.fallback_paths, holds-snoc (raw_piece part.raw) input.diff)

take_part-accounted :
    (max' : ℕ) (part : RawDiffPart) (got : FileFetch) (input : WholeFileScanInput)
    → is_accounted max' got part (take_part max' part got input) ≡ true
unfolding take_part
take_part-accounted max' part (fetched lines bytes) input =
    let input' = record input {
      changed_lines_by_path = assign part.path part.changed_lines input.changed_lines_by_path;
    } in
    elim (Bool-cases (leb bytes max')) [
      | inl fits ↦ rw fits (
          ground (
            arith,
            names-snoc part.path input.whole_file_paths,
            holds-snoc (build_synthetic_diff part.path lines) input.diff,
          ))
      | inr over ↦ elim (Bool-cases part.has_added_lines) [
        | inl adds ↦ rw over (ground (arith, keep_slice-names part input' adds))
        | inr deletes ↦
            let too_large : ltb max' bytes ≡ true = ground (arith, over) in
            ground (arith, deletes, too_large)
      ]
    ]
take_part-accounted max' part (fetch_failed reason) input =
    let e : ScanInputError = record { path = part.path; reason = reason } in
    let input' = record input {
      changed_lines_by_path = assign part.path part.changed_lines input.changed_lines_by_path;
      scan_input_errors = input.scan_input_errors ++ e ∷ [];
    } in
    let noted =
      (keep_slice-Grows part input' part.path).2
        (reports-snoc part.path input.scan_input_errors reason) in
    ground (arith, noted)

take_parts-Grows :
    (max' : ℕ) (fetch : Line → FileFetch) (ps : List RawDiffPart) (input : WholeFileScanInput)
    → Grows input (take_parts max' fetch ps input)
unfolding take_parts
take_parts-Grows max' fetch [] input path = ((λ h. h), (λ h. h), (λ h. h), (λ piece h. h))
take_parts-Grows max' fetch (part ∷ ps) input path =
    let first = take_part-Grows max' part (fetch part.path) input path in
    let rest = take_parts-Grows max' fetch ps (take_part max' part (fetch part.path) input) path in
    (
      (λ h. rest.0 (first.0 h)),
      (λ h. rest.1 (first.1 h)),
      (λ h. rest.2 (first.2 h)),
      (λ piece h. rest.3 piece (first.3 piece h)),
    )

accounted-Grows :
    (max' : ℕ) (got : FileFetch) (part : RawDiffPart) (a b : WholeFileScanInput)
    → Grows a b
    → is_accounted max' got part a ≡ true
    → is_accounted max' got part b ≡ true
accounted-Grows max' got part a b grows h =
    let g = grows part.path in
    let whole = g.3 (whole_piece got part.path) in
    let slice = g.3 (raw_piece part.raw) in ground (arith, g.0, g.1, g.2, whole, slice, h)

take_parts-accounted :
    (max' : ℕ) (fetch : Line → FileFetch) (ps : List RawDiffPart) (input : WholeFileScanInput)
    → All
        (λ part. is_accounted max' (fetch part.path) part (take_parts max' fetch ps input) ≡ true)
        ps
unfolding take_parts
take_parts-accounted max' fetch [] input = tt
take_parts-accounted max' fetch (part ∷ ps) input =
    let input' = take_part max' part (fetch part.path) input in
    (
      accounted-Grows max' (fetch part.path) part input' (take_parts max' fetch ps input')
          (take_parts-Grows max' fetch ps input')
          (take_part-accounted max' part (fetch part.path) input),
      take_parts-accounted max' fetch ps input',
    )

-- Every part of a diff that splitDiffParts keeps, which are those with a `+++ b/` path (so no deleted file) and a
-- changed line: its whole file is a piece of the scanned diff, or its own slice is, or its failed fetch is reported; the
-- one exception is a part that only deletes lines from a file over the size cap.
pub all_accounted :
    (raw : List Line) (fetch : Line → FileFetch) (max' : Option ℕ)
    → All
        (λ part.
          is_accounted
            (or_else max' default_max_file_bytes)
            (fetch part.path)
            part
            (build_whole_file_scan_input raw fetch max')
          ≡ true)
        (split_diff_parts raw)
unfolding build_whole_file_scan_input
all_accounted raw fetch max' =
    take_parts-accounted (or_else max' default_max_file_bytes) fetch (split_diff_parts raw)
      empty_input
