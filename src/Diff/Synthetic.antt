-- ===== src/Diff/Synthetic.antt =====
-- A synthetic diff reads back as the file that it was made from.
use fixor.Prelude.{
  decimal, join, ℕ, zero, suc, ◌+◌, ◌≡◌, Bool, true, false, not, ◌&&◌, some, List, [], ◌∷◌, ◌++◌,
  length, codes, starts_with, is_empty,
}
use fixor.Diff.{Line, DiffFile, Cursor, cuts, added}

-- `k` line numbers from `n` on.
abbrev pub numbers : ℕ → ℕ → List ℕ
numbers n zero = []
numbers n (suc k) = n ∷ numbers (n + 1) k

-- No line that with a "+" before it looks like the line of a file name.
abbrev pub is_plain : List Line → Bool
is_plain [] = true
is_plain (line ∷ lines) = not (starts_with (codes "++") line) && is_plain lines

record Reads (s : Cursor) (lines : List Line) (t : Cursor) : Type 0 where
  path : t.path ≡ s.path
  content : t.content ≡ s.content ++ lines
  line_map : t.line_map ≡ s.line_map ++ numbers s.new_line (length lines)

-- No prefix of a part stands in the line after a line end.
abbrev pub is_uncut : Line → Bool
is_uncut line = is_empty (cuts 0 false line).1

abbrev pub are_uncut : List Line → Bool
are_uncut [] = true
are_uncut (line ∷ lines) = is_uncut line && are_uncut lines

abbrev in_body : Line → ℕ → Cursor
in_body path n = record {
  path = some path;
  in_hunk = true;
  new_line = n;
  content = [];
  line_map = [];
}

abbrev pub file : Line → List Line → DiffFile
file path lines = record { path = path; content = lines; line_map = numbers 1 (length lines) }

hunk_line : ℕ → Line
hunk_line n = codes "@@ -0,0 +1," ++ codes (join (decimal n) " @@")

header : Line → Line
header path = codes "a/" ++ path ++ codes " b/" ++ path

header_lines : Line → List Line → List Line
header_lines path lines =
    codes "new file mode 100644"
      ∷ codes "--- /dev/null"
      ∷ (codes "+++ b/" ++ path)
      ∷ hunk_line (length lines)
      ∷ added lines
    ++ [] ∷ []
