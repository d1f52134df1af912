-- ===== src/Diff.antt =====
-- Unified diffs: parseDiff and remapFindingLines of src/analysis-engine/detectors/shared/diff-parser.ts and
-- buildSyntheticDiff of src/cli/diff-builder.ts. A text is the list of its lines, split at `\r?\n`; a part
-- starts after a `diff --git ` at the start of a line, which for the source is also what follows a lone carriage return,
-- U+2028 or U+2029. The empty line that the source has at the end of a part that another follows comes after all that
-- is kept, and is left out.
pub mod Synthetic
mod Tests
use fixor.Prelude.{
  is_line_end, has_line_end, decimal-inline, ℕ, zero, suc, ◌+◌, ◌-◌, ◌*◌, ◌/◌, ◌%◌, ◌≤◌, ◌<◌, min,
  max, ◌≡◌, ◌≢◌, ◌∙◌, refl, sym, ap, subst, ◌↔◌, ◌⊎◌, inl, inr, Bool, true, false, not, ◌&&◌, ◌||◌,
  Option, none, some, List, [], ◌∷◌, ◌++◌, map, String, arith, ◌^◌, ltb, leb, ◌==◌, if◌then◌else◌,
  ltb→lt, leb→le, ==_iff, Bool-cases, Option-cases, or_else, eq_of_some, length, get_elem?, drop,
  take, any, all, filterb, length-append, any-append, All, All-append, str_eq, includes, Map, get,
  put, remove, retain, kept, Distinct, get-put, get-remove, get-empty, put-Distinct, get-retain,
  retain-Distinct, map_laws, codes, codes_eq, starts_with, contains, to_lower, is_space, trim,
  trim_text, join, decimal, digits_from, is_digit, digits_from-decimal, split_from, is_empty,
  eq_iff, eq_refl,
}

abbrev pub Line : Type 0
Line = List ℕ

pub record DiffFile : Type 0 where
  pub path : Line
  -- the lines of `content`
  pub content : List Line
  pub line_map : List ℕ

abbrev digits_end : List ℕ → List ℕ
digits_end [] = []
digits_end (c ∷ s) = let rest = digits_end s in if is_digit c then rest else c ∷ s

abbrev starts_digit : List ℕ → Bool
starts_digit [] = false
starts_digit (c ∷ s) = is_digit c

-- `(?:,\d+)?`
abbrev skip_count : List ℕ → List ℕ
skip_count [] = []
skip_count (c ∷ s) = if c == b',' && starts_digit s then digits_end s else c ∷ s

abbrev spaces_end : List ℕ → List ℕ
spaces_end [] = []
spaces_end (c ∷ s) = let rest = spaces_end s in if is_space c then rest else c ∷ s

-- `\s+` and one character, if they stand there: the rest.
abbrev after_spaces : ℕ → List ℕ → Option (List ℕ)
after_spaces d [] = none
after_spaces d (c ∷ s) =
    if is_space c && starts_with (d ∷ []) (spaces_end s) then some (drop 1 (spaces_end s)) else none

abbrev closes : Option (List ℕ) → Bool
closes none = false
closes (some s) = starts_with (codes "@") s

abbrev new_start : Option (List ℕ) → Option ℕ
new_start none = none
new_start (some s) =
    if starts_digit s && closes (after_spaces b'@' (skip_count (digits_end s)))
    then digits_from none s
    else none

abbrev old_start : Option (List ℕ) → Option (List ℕ)
old_start none = none
old_start (some s) = if starts_digit s then after_spaces b'+' (skip_count (digits_end s)) else none

-- The first group of HUNK_HEADER_RE, if a line matches it.
unfoldable pub hunk_start : Line → Option ℕ
unfolding digits_from
hunk_start line =
    if starts_with (codes "@@") line
    then new_start (old_start (after_spaces b'-' (drop 2 line)))
    else none

-- The variables of the loop over the lines of a part.
pub record Cursor : Type 0 where
  pub path : Option Line
  pub in_hunk : Bool
  pub new_line : ℕ
  pub content : List Line
  pub line_map : List ℕ

abbrev last : List ℕ → Option ℕ
last [] = none
last (n ∷ []) = some n
last (n ∷ m ∷ ms) = last (m ∷ ms)

abbrev next_after : Option ℕ → ℕ
next_after none = 1
next_after (some n) = n + 1

unfoldable pub read_line : Cursor → Line → Cursor
read_line s line =
    if starts_with (codes "+++ b/") line
    then record s { path = some (trim (drop 6 line)) }
    else if starts_with (codes "@@") line
    then record s {
      in_hunk = true;
      new_line = or_else (hunk_start line) (next_after (last s.line_map));
    }
    else if s.in_hunk && (starts_with (codes "+") line && not (starts_with (codes "+++") line))
    then record s {
      content = s.content ++ drop 1 line ∷ [];
      line_map = s.line_map ++ s.new_line ∷ [];
      new_line = s.new_line + 1;
    }
    else if s.in_hunk && not (starts_with (codes "-") line || starts_with (codes "\\") line)
    then record s { new_line = s.new_line + 1 }
    else s

unfoldable pub read_lines : Cursor → List Line → Cursor
unfolding read_line
read_lines s [] = s
read_lines s (line ∷ lines) = read_lines (read_line s line) lines

abbrev pub start_cursor : Cursor
start_cursor = record { path = none; in_hunk = false; new_line = 0; content = []; line_map = [] }

abbrev pub file_of : Option Line → List Line → List ℕ → List DiffFile
file_of none content line_map = []
file_of (some path) content line_map =
    if is_empty path || is_empty content
    then []
    else record { path = path; content = content; line_map = line_map } ∷ []

-- One part; a blank one is skipped.
unfoldable pub read_part : List Line → List DiffFile
unfolding read_lines
read_part lines =
    let s = read_lines start_cursor lines in
    if all (λ line. is_empty (trim line)) lines then [] else file_of s.path s.content s.line_map

abbrev pub git_prefix : Line
git_prefix = codes "diff --git "

-- A line cut where the prefix stands after another line end than the text's, such as a lone carriage return:
-- the piece before the first cut, and those after each. `skip` characters of a prefix are still to be left out.
abbrev pub cuts : (skip : ℕ) → (at_start : Bool) → Line → Line × List Line
cuts skip at_start [] = ([], [])
cuts (suc skip) at_start (c ∷ s) = cuts skip false s
cuts zero at_start (c ∷ s) =
    let found = at_start && starts_with git_prefix (c ∷ s) in
    let (piece, more) = cuts (if found then 10 else 0) (not found && is_line_end c) s in
    if found then ([], piece ∷ more) else (c ∷ piece, more)

-- The parts that the pieces of a line start; the last of them goes on with the lines below.
abbrev pub attach : Line → List Line → List Line → List (List Line) → List (List Line)
attach piece [] first rest = (piece ∷ first) ∷ rest
attach piece (next ∷ more) first rest = (piece ∷ []) ∷ attach next more first rest

abbrev pub join_parts :
    Line × List Line → List Line × List (List Line) → List Line × List (List Line)
join_parts (piece, []) (first, rest) = (piece ∷ first, rest)
join_parts (piece, next ∷ more) (first, rest) =
    ((if is_empty piece then [] else piece ∷ []), attach next more first rest)

-- `diff.split(/^diff --git /m)`: the first part, and those that a prefix starts.
abbrev pub parts : List Line → List Line × List (List Line)
parts [] = ([], [])
parts (line ∷ lines) = join_parts (cuts 0 true line) (parts lines)

unfoldable pub read_parts : List (List Line) → List DiffFile
unfolding read_part
read_parts [] = []
read_parts (p ∷ ps) = read_part p ++ read_parts ps

unfoldable pub parse_diff : List Line → List DiffFile
unfolding read_parts read_part
parse_diff lines = let (first, rest) = parts lines in read_part first ++ read_parts rest

-- remapFindingLines, for one line.
abbrev pub remap_line : List ℕ → ℕ → ℕ
remap_line line_map zero = 0
remap_line line_map (suc n) = or_else (get_elem? line_map n) (suc n)

-- The lines of a file without empty ones at the end.
abbrev pub drop_empty : List Line → List Line
drop_empty [] = []
drop_empty (line ∷ lines) =
    let rest = drop_empty lines in if is_empty line && is_empty rest then [] else line ∷ rest

abbrev pub added : List Line → List Line
added [] = []
added (line ∷ lines) = (b'+' ∷ line) ∷ added lines

-- The text ends with a line end, so its last line is empty; without lines there is one more.
unfoldable pub build_synthetic_diff : Line → List Line → List Line
build_synthetic_diff path content =
    let lines = drop_empty content in
    (git_prefix ++ codes "a/" ++ path ++ codes " b/" ++ path)
    ∷ codes "new file mode 100644"
    ∷ codes "--- /dev/null"
    ∷ (codes "+++ b/" ++ path)
    ∷ (codes "@@ -0,0 +1," ++ codes (join (decimal (length lines)) " @@"))
    ∷ ((if is_empty lines then [] ∷ [] else added lines) ++ [] ∷ [])
