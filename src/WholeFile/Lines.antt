-- ===== src/WholeFile/Lines.antt =====
-- The changed lines of a part hold every line that parseDiff numbers.
use fixor.Prelude.{
  ℕ, ◌+◌, max, ◌≡◌, ◌∙◌, refl, sym, ap, subst, inl, inr, Bool, true, false, not, ◌&&◌, ◌||◌, Option,
  none, some, List, [], ◌∷◌, ◌++◌, arith, Bool-cases, or_else, eq_of_some, get_elem?, drop, all,
  codes, starts_with, trim, is_empty,
}
use fixor.Diff.{
  Line, hunk_start, Cursor, read_line, read_lines, start_cursor, file_of, read_part, DiffFile,
}
use fixor.WholeFile.{
  RawDiffPart, PartCursor, add_line, scan_line, scan_lines, fresh_cursor, sort_lines, part_of,
  scan_part,
}
use fixor.WholeFile.Sets.{
  all_in, has_line-add_line, is_empty-add_line, all_in-add_line, all_in-snoc, all_in-sort_lines,
}

abbrev pub is_known : Option ℕ → Bool
is_known none = false
is_known (some n) = true

-- Every header of a hunk can be read.
abbrev pub is_readable : List Line → Bool
is_readable [] = true
is_readable (line ∷ lines) =
    (not (starts_with (codes "@@") line) || is_known (hunk_start line)) && is_readable lines

-- The two loops after the same lines.
record Follows (s : Cursor) (t : PartCursor) : Type 0 where
  path : t.path ≡ s.path
  in_hunk : t.in_hunk ≡ s.in_hunk
  new_line : t.new_line ≡ s.new_line
  lines : all_in s.line_map t.changed ≡ true
  added : t.has_added_lines ≡ not (is_empty s.content)
  changed : (not t.has_added_lines || not (is_empty t.changed)) ≡ true

is_empty-snoc {ℓ} : {A : Type ℓ} (xs : List A) (x : A) → is_empty (xs ++ x ∷ []) ≡ false
is_empty-snoc [] x = refl
is_empty-snoc (y ∷ xs) x = refl

known_start : (o : Option ℕ) (a b : ℕ) → is_known o ≡ true → or_else o a ≡ or_else o b
known_start none a b h = absurd (ground (arith, h))
known_start (some n) a b h = refl

set_hunk-Follows :
    (b : Bool) (s : Cursor) (t : PartCursor)
    → Follows s t
    → Follows (record s { in_hunk = b }) (record t { in_hunk = b })
set_hunk-Follows b s t f = record {
  path = f.path;
  in_hunk = refl;
  new_line = f.new_line;
  lines = f.lines;
  added = f.added;
  changed = f.changed;
}

set_run-Follows :
    (b : Bool) (s : Cursor) (t : PartCursor)
    → Follows s t
    → Follows s (record t { in_deletion_run = b })
set_run-Follows b s t f = record {
  path = f.path;
  in_hunk = f.in_hunk;
  new_line = f.new_line;
  lines = f.lines;
  added = f.added;
  changed = f.changed;
}

added-Follows :
    (s : Cursor) (t : PartCursor) (line : Line)
    → Follows s t
    → Follows
        (record s {
          content = s.content ++ line ∷ [];
          line_map = s.line_map ++ s.new_line ∷ [];
          new_line = s.new_line + 1;
        })
        (record t {
          changed = add_line t.new_line t.changed;
          has_added_lines = true;
          in_deletion_run = false;
          new_line = t.new_line + 1;
        })
added-Follows s t line f = record {
  path = f.path;
  in_hunk = f.in_hunk;
  new_line = omega (arith, f.new_line);
  lines = ground (
    arith,
    f.new_line,
    f.lines,
    all_in-snoc s.line_map s.new_line (add_line t.new_line t.changed),
    all_in-add_line s.line_map t.new_line t.changed,
    has_line-add_line t.new_line s.new_line t.changed,
  );
  added = ground (arith, is_empty-snoc s.content line);
  changed = ground (arith, is_empty-add_line t.new_line t.changed);
}

deleted-Follows :
    (n : ℕ) (s : Cursor) (t : PartCursor)
    → Follows s t
    → Follows s (record t { changed = add_line n t.changed; in_deletion_run = true })
deleted-Follows n s t f = record {
  path = f.path;
  in_hunk = f.in_hunk;
  new_line = f.new_line;
  lines = all_in-add_line s.line_map n t.changed f.lines;
  added = f.added;
  changed = ground (arith, is_empty-add_line n t.changed);
}

context-Follows :
    (s : Cursor) (t : PartCursor)
    → Follows s t
    → Follows
        (record s { new_line = s.new_line + 1 })
        (record t { in_deletion_run = false; new_line = t.new_line + 1 })
context-Follows s t f = record {
  path = f.path;
  in_hunk = f.in_hunk;
  new_line = omega (arith, f.new_line);
  lines = f.lines;
  added = f.added;
  changed = f.changed;
}

scan_line-Follows :
    (s : Cursor) (t : PartCursor) (line : Line)
    → (not (starts_with (codes "@@") line) || is_known (hunk_start line)) ≡ true
    → Follows s t
    → Follows (read_line s line) (scan_line t line)
unfolding read_line scan_line
scan_line-Follows s t line readable f = elim (Bool-cases (starts_with (codes "+++ b/") line)) [
  | inl named ↦ rw named (record {
    path = refl;
    in_hunk = f.in_hunk;
    new_line = f.new_line;
    lines = f.lines;
    added = f.added;
    changed = f.changed;
  })
  | inr unnamed ↦ elim (Bool-cases (starts_with (codes "@@") line)) [
    | inl header ↦
        rw (unnamed, header)
          (record {
            path = f.path;
            in_hunk = refl;
            new_line = known_start (hunk_start line) 1 _ (ground (arith, readable, header));
            lines = f.lines;
            added = f.added;
            changed = f.changed;
          })
    | inr body ↦ elim (Bool-cases t.in_hunk) [
      | inr outside ↦
          rw (unnamed, body, outside, sym f.in_hunk ∙ outside) (set_hunk-Follows false s t f)
      | inl inside ↦
          let f' = set_hunk-Follows true s t f in
          let s' = record s { in_hunk = true } in
          let t' = record t { in_hunk = true } in
          elim (Bool-cases (starts_with (codes "+") line && not (starts_with (codes "+++") line))) [
            | inl plus ↦
                rw (unnamed, body, inside, sym f.in_hunk ∙ inside, plus)
                  (added-Follows s' t' (drop 1 line) f')
            | inr other ↦ elim (Bool-cases (starts_with (codes "-") line)) [
              | inl minus ↦ elim (Bool-cases t.in_deletion_run) [
                | inl again ↦
                    rw (unnamed, body, inside, sym f.in_hunk ∙ inside, other, minus, again)
                      (set_run-Follows true s' t' f')
                | inr first ↦
                    rw (unnamed, body, inside, sym f.in_hunk ∙ inside, other, minus, first)
                      (deleted-Follows (max 1 t.new_line) s' t' f')
              ]
              | inr plain ↦ elim (Bool-cases (starts_with (codes "\\") line)) [
                | inl marker ↦
                    rw (unnamed, body, inside, sym f.in_hunk ∙ inside, other, plain, marker) f'
                | inr context ↦
                    rw (unnamed, body, inside, sym f.in_hunk ∙ inside, other, plain, context)
                      (context-Follows s' t' f')
              ]
            ]
          ]
    ]
  ]
]

scan_lines-Follows :
    (s : Cursor) (t : PartCursor) (lines : List Line)
    → is_readable lines ≡ true
    → Follows s t
    → Follows (read_lines s lines) (scan_lines t lines)
unfolding read_lines scan_lines
scan_lines-Follows s t [] readable f = f
scan_lines-Follows s t (line ∷ lines) readable f =
    scan_lines-Follows (read_line s line) (scan_line t line) lines (ground (arith, readable))
      (scan_line-Follows s t line (ground (arith, readable)) f)

-- The part that belongs to the parser's file.
abbrev pub IsPartOf : DiffFile → RawDiffPart → Type 0
IsPartOf file part =
    (part.path ≡ file.path)
    × (part.has_added_lines ≡ true)
    × (all_in file.line_map part.changed_lines ≡ true)

named-IsPartOf :
    (lines : List Line) (s : Cursor) (t : PartCursor) (file : DiffFile) (o : Option Line)
    → Follows s t
    → s.path ≡ o
    → file_of o s.content s.line_map ≡ file ∷ []
    → (part : RawDiffPart) × (part_of t.path lines t ≡ part ∷ []) × IsPartOf file part
named-IsPartOf lines s t file none f named e = absurd (ground (arith, ap is_empty e))
named-IsPartOf lines s t file (some path) f named e =
    elim (Bool-cases (is_empty path || is_empty s.content)) [
      | inl nothing ↦ absurd (ground (arith, ap is_empty (rw nothing at e)))
      | inr something ↦
          let made = eq_of_some (ap (λ xs. get_elem? xs 0) (rw something at e)) in
          let kept : (is_empty path || is_empty t.changed) ≡ false =
            ground (arith, something, f.added, f.changed) in
          (
            record {
              path = path;
              raw = lines;
              changed_lines = sort_lines t.changed;
              has_added_lines = t.has_added_lines;
            },
            rw (f.path ∙ named) (rw kept refl),
            (
              ap (λ x. x.path) made,
              ground (arith, something, f.added),
              subst (λ x. all_in x.line_map (sort_lines t.changed) ≡ true) made
                  (all_in-sort_lines s.line_map t.changed f.lines),
            ),
          )
    ]

-- If every hunk of a part can be read, then what the detectors' parser makes of it is among the parts with the same path:
-- the part adds lines, and each line that the parser numbers is one of its changed lines. So no finding on an added line
-- falls outside of the changed lines.
pub scan_part-parsed :
    (lines : List Line) (file : DiffFile)
    → is_readable lines ≡ true
    → read_part lines ≡ file ∷ []
    → (part : RawDiffPart) × (scan_part lines ≡ part ∷ []) × IsPartOf file part
unfolding read_part scan_part
scan_part-parsed lines file readable e =
    let s = read_lines start_cursor lines in
    let t = scan_lines fresh_cursor lines in
    let f = scan_lines-Follows start_cursor fresh_cursor lines readable (record {
      path = refl;
      in_hunk = refl;
      new_line = refl;
      lines = refl;
      added = refl;
      changed = refl;
    }) in
    elim (Bool-cases (all (λ line. is_empty (trim line)) lines)) [
      | inl blank ↦ absurd (ground (arith, ap is_empty (rw blank at e)))
      | inr filled ↦
          let (part, made, fits) = named-IsPartOf lines s t file s.path f refl (rw filled at e) in
          (part, rw filled made, fits)
    ]
