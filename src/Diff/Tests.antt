-- ===== src/Diff/Tests.antt =====
-- Diffs of small files, and the round trip at one of them.
use fixor.Prelude.{◌≡◌, refl, List, [], ◌∷◌, codes, decimal, digits_from}
use fixor.Diff.{
  Line, hunk_start, read_line, read_lines, read_part, read_parts, parse_diff, build_synthetic_diff,
}

abbrev path : Line
path = codes "a.ts"

abbrev content : List Line
content = codes "x" ∷ [] ∷ codes "diff --git y" ∷ [] ∷ []

-- A hunk in the middle of a file: the added lines have their numbers in the new file.
middle :
    parse_diff (
      codes "diff --git a/a.ts b/a.ts"
      ∷ codes "+++ b/a.ts"
      ∷ codes "@@ -9,2 +20,3 @@ f"
      ∷ codes " k"
      ∷ codes "-old"
      ∷ codes "+new"
      ∷ [])
    ≡ record { path = path; content = codes "new" ∷ []; line_map = 21 ∷ [] } ∷ []
unfolding parse_diff read_part read_parts read_lines read_line hunk_start digits_from
middle = refl

-- A line that starts with `++` is read as no added line: it is not in the content.
lost_line :
    parse_diff (build_synthetic_diff path (codes "++i" ∷ codes "x" ∷ []))
    ≡ record { path = path; content = codes "x" ∷ []; line_map = 2 ∷ [] } ∷ []
unfolding parse_diff read_part read_parts read_lines read_line hunk_start digits_from
    build_synthetic_diff decimal
lost_line = refl

-- A lone carriage return in a line before another part's prefix: the line is cut there.
cut_line :
    parse_diff (build_synthetic_diff path ((b'x' ∷ 13 ∷ codes "diff --git y") ∷ []))
    ≡ record { path = path; content = (b'x' ∷ 13 ∷ []) ∷ []; line_map = 1 ∷ [] } ∷ []
unfolding parse_diff read_part read_parts read_lines read_line hunk_start digits_from
    build_synthetic_diff decimal
cut_line = refl
