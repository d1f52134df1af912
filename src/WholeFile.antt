-- ===== src/WholeFile.antt =====
-- The input of a scan: splitDiffParts and buildWholeFileScanInput of src/integrations/github/whole-file-scan-input.ts.
-- Texts are lists of lines, as in Diff. The files at the head of the pull request are an argument.
mod Sets
pub mod Lines
pub mod Covered
mod Tests
use fixor.Prelude.{
  ℕ, zero, suc, ◌+◌, ◌-◌, ◌*◌, ◌/◌, ◌%◌, ◌≤◌, ◌<◌, min, max, ◌≡◌, ◌≢◌, ◌∙◌, refl, sym, ap, subst,
  ◌↔◌, ◌⊎◌, inl, inr, Bool, true, false, not, ◌&&◌, ◌||◌, Option, none, some, List, [], ◌∷◌, ◌++◌,
  map, String, arith, ◌^◌, ltb, leb, ◌==◌, if◌then◌else◌, ltb→lt, leb→le, ==_iff, Bool-cases,
  Option-cases, or_else, eq_of_some, length, get_elem?, drop, take, any, all, filterb,
  length-append, length-map, any-append, All, All-append, str_eq, includes, Map, get, put, remove,
  retain, kept, Distinct, get-put, get-remove, get-empty, put-Distinct, get-retain, retain-Distinct,
  map_laws, codes, codes_eq, starts_with, contains, to_lower, is_space, trim, trim_text, join,
  decimal, digits_from, is_digit, digits_from-decimal, split_from, is_empty, eq_iff, eq_refl,
}
use fixor.Diff.{Line, hunk_start, parts, build_synthetic_diff, git_prefix}

-- RawDiffPart; `raw` is without the prefix that starts the part.
pub record RawDiffPart : Type 0 where
  pub path : Line
  pub raw : List Line
  pub changed_lines : List ℕ
  pub has_added_lines : Bool

-- The variables of the loop over the lines of a part.
pub record PartCursor : Type 0 where
  pub path : Option Line
  pub in_hunk : Bool
  pub new_line : ℕ
  pub has_added_lines : Bool
  pub in_deletion_run : Bool
  pub changed : List ℕ

abbrev pub has_line : ℕ → List ℕ → Bool
has_line n ns = any (λ m. m == n) ns

-- `changed.add(n)`
unfoldable pub add_line : ℕ → List ℕ → List ℕ
add_line n ns = if has_line n ns then ns else ns ++ n ∷ []

unfoldable pub scan_line : PartCursor → Line → PartCursor
unfolding add_line
scan_line s line =
    if starts_with (codes "+++ b/") line
    then record s { path = some (trim (drop 6 line)) }
    else if starts_with (codes "@@") line
    then record s {
      in_hunk = true;
      in_deletion_run = false;
      new_line = or_else (hunk_start line) 1;
    }
    else if s.in_hunk && (starts_with (codes "+") line && not (starts_with (codes "+++") line))
    then record s {
      changed = add_line s.new_line s.changed;
      has_added_lines = true;
      in_deletion_run = false;
      new_line = s.new_line + 1;
    }
    else if s.in_hunk
    then (if starts_with (codes "-") line
        then (if s.in_deletion_run then s else record s {
          changed = add_line (max 1 s.new_line) s.changed;
          in_deletion_run = true;
        })
        else if starts_with (codes "\\") line
        then s
        else record s { in_deletion_run = false; new_line = s.new_line + 1 })
    else s

unfoldable pub scan_lines : PartCursor → List Line → PartCursor
unfolding scan_line
scan_lines s [] = s
scan_lines s (line ∷ lines) = scan_lines (scan_line s line) lines

abbrev pub fresh_cursor : PartCursor
fresh_cursor = record {
  path = none;
  in_hunk = false;
  new_line = 0;
  has_added_lines = false;
  in_deletion_run = false;
  changed = [];
}

abbrev pub insert_line : ℕ → List ℕ → List ℕ
insert_line n [] = n ∷ []
insert_line n (m ∷ ms) = let rest = insert_line n ms in if leb n m then n ∷ m ∷ ms else m ∷ rest

-- `[...changed].sort((a, b) => a - b)`
abbrev pub sort_lines : List ℕ → List ℕ
sort_lines [] = []
sort_lines (n ∷ ns) = insert_line n (sort_lines ns)

abbrev pub part_of : Option Line → List Line → PartCursor → List RawDiffPart
part_of none lines s = []
part_of (some path) lines s =
    if is_empty path || is_empty s.changed
    then []
    else record {
      path = path;
      raw = lines;
      changed_lines = sort_lines s.changed;
      has_added_lines = s.has_added_lines;
    }
      ∷ []

-- One part; a blank one is skipped.
unfoldable pub scan_part : List Line → List RawDiffPart
unfolding scan_lines
scan_part lines =
    let s = scan_lines fresh_cursor lines in
    if all (λ line. is_empty (trim line)) lines then [] else part_of s.path lines s

unfoldable pub scan_parts : List (List Line) → List RawDiffPart
unfolding scan_part
scan_parts [] = []
scan_parts (p ∷ ps) = scan_part p ++ scan_parts ps

unfoldable pub split_diff_parts : List Line → List RawDiffPart
unfolding scan_parts
split_diff_parts lines = let (first, rest) = parts lines in scan_part first ++ scan_parts rest

-- What fetching a file comes to: its lines and its length in bytes.
pub data FileFetch : Type 0 where
  fetched : (lines : List Line) → (bytes : ℕ) → FileFetch
  fetch_failed : (reason : String) → FileFetch

pub record ScanInputError : Type 0 where
  pub path : Line
  pub reason : String

-- WholeFileScanInput; the diff is its pieces, one for each `diffPieces.push`.
pub record WholeFileScanInput : Type 0 where
  pub diff : List (List Line)
  pub changed_lines_by_path : List (Line × List ℕ)
  pub scan_input_errors : List ScanInputError
  pub whole_file_paths : List Line
  pub fallback_paths : List Line

abbrev pub default_max_file_bytes : ℕ
default_max_file_bytes = 200000

-- `changedLinesByPath[path] = lines`
unfoldable pub assign : Line → List ℕ → List (Line × List ℕ) → List (Line × List ℕ)
assign path ns [] = (path, ns) ∷ []
assign path ns ((p, ms) ∷ m) = if codes_eq p path then (p, ns) ∷ m else (p, ms) ∷ assign path ns m

-- `"diff --git " + part`, with a line end.
abbrev pub raw_piece : List Line → List Line
raw_piece [] = git_prefix ∷ []
raw_piece (line ∷ lines) = (git_prefix ++ line) ∷ lines

-- The original slice, if the part adds lines.
unfoldable pub keep_slice : RawDiffPart → WholeFileScanInput → WholeFileScanInput
keep_slice part input =
    if part.has_added_lines
    then record input {
      diff = input.diff ++ raw_piece part.raw ∷ [];
      fallback_paths = input.fallback_paths ++ part.path ∷ [];
    }
    else input

-- The body of the loop over the results.
unfoldable pub take_part :
    (max_file_bytes : ℕ) → RawDiffPart → FileFetch → WholeFileScanInput → WholeFileScanInput
unfolding keep_slice assign
take_part max' part (fetched lines bytes) input =
    let noted = record input {
      changed_lines_by_path = assign part.path part.changed_lines input.changed_lines_by_path;
    } in
    if leb bytes max'
    then record noted {
      diff = noted.diff ++ build_synthetic_diff part.path lines ∷ [];
      whole_file_paths = noted.whole_file_paths ++ part.path ∷ [];
    }
    else keep_slice part noted
take_part max' part (fetch_failed reason) input = keep_slice part (record input {
  changed_lines_by_path = assign part.path part.changed_lines input.changed_lines_by_path;
  scan_input_errors = input.scan_input_errors ++ record { path = part.path; reason = reason } ∷ [];
})

unfoldable pub take_parts :
    (max_file_bytes : ℕ)
    → (Line → FileFetch)
    → List RawDiffPart
    → WholeFileScanInput
    → WholeFileScanInput
unfolding take_part
take_parts max' fetch [] input = input
take_parts max' fetch (part ∷ ps) input =
    take_parts max' fetch ps (take_part max' part (fetch part.path) input)

abbrev pub empty_input : WholeFileScanInput
empty_input = record {
  diff = [];
  changed_lines_by_path = [];
  scan_input_errors = [];
  whole_file_paths = [];
  fallback_paths = [];
}

unfoldable pub build_whole_file_scan_input :
    List Line → (Line → FileFetch) → (max_file_bytes : Option ℕ) → WholeFileScanInput
unfolding split_diff_parts take_parts
build_whole_file_scan_input raw fetch max' =
    take_parts (or_else max' default_max_file_bytes) fetch (split_diff_parts raw) empty_input
