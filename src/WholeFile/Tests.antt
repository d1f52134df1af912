-- ===== src/WholeFile/Tests.antt =====
-- The theorems on the scan's input at a concrete diff.
use fixor.Prelude.{◌≡◌, refl, true, none, List, [], ◌∷◌, or_else, drop, All, codes, digits_from}
use fixor.Diff.{Line, DiffFile, read_part, read_lines, read_line, hunk_start}
use fixor.WholeFile.{
  RawDiffPart, FileFetch, fetch_failed, split_diff_parts, build_whole_file_scan_input,
  default_max_file_bytes, scan_part,
}
use fixor.WholeFile.Lines.{scan_part-parsed, IsPartOf, is_readable}
use fixor.WholeFile.Covered.{is_accounted, all_accounted}

-- Line 3 is replaced.
abbrev part_lines : List Line
part_lines =
    codes "a/a.ts b/a.ts"
    ∷ codes "--- a/a.ts"
    ∷ codes "+++ b/a.ts"
    ∷ codes "@@ -2,2 +2,2 @@"
    ∷ codes " x"
    ∷ codes "-y"
    ∷ codes "+z"
    ∷ []

abbrev raw_diff : List Line
raw_diff = codes "diff --git a/a.ts b/a.ts" ∷ drop 1 part_lines

abbrev fetch : Line → FileFetch
fetch path = fetch_failed "503"

abbrev parsed_file : DiffFile
parsed_file = record { path = codes "a.ts"; content = codes "z" ∷ []; line_map = 3 ∷ [] }

part_parses : read_part part_lines ≡ parsed_file ∷ []
unfolding read_part read_lines read_line hunk_start digits_from
part_parses = refl

readable : is_readable part_lines ≡ true
unfolding hunk_start digits_from
readable = refl

scan_part-parsed_example :
    (part : RawDiffPart) × (scan_part part_lines ≡ part ∷ []) × IsPartOf parsed_file part
scan_part-parsed_example = scan_part-parsed part_lines parsed_file readable part_parses

all_accounted_example :
    All
      (λ part.
        is_accounted
          (or_else none default_max_file_bytes)
          (fetch part.path)
          part
          (build_whole_file_scan_input raw_diff fetch none)
        ≡ true)
      (split_diff_parts raw_diff)
all_accounted_example = all_accounted raw_diff fetch none
