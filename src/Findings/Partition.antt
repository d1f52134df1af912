-- ===== src/Findings/Partition.antt =====
-- partitionFindingsByChangedLines of src/workflows/changed-line-partition.ts.
use fixor.Prelude.{
  ℕ, ◌+◌, ◌-◌, max, ◌≡◌, refl, inl, inr, Bool, true, false, ◌&&◌, ◌||◌, Option, none, some, List,
  [], ◌∷◌, arith, leb, if◌then◌else◌, Bool-cases, length, any, filterb, All, Map, get, is_empty,
}
use fixor.Findings.{Finding}

abbrev pub pre_window : ℕ
pre_window = 5

abbrev pub post_window : ℕ
post_window = 40

pub record PartitionedFindings : Type 0 where
  pub introduced : List Finding
  pub pre_existing : List Finding

-- Whether the finding goes to `introduced`; a file with no changed lines known does. A bound below line 0 is 0.
unfoldable pub touches : Finding → Option (List ℕ) → Bool
touches f none = true
touches f (some changed) =
    is_empty changed
    || any
        (λ line.
          leb (f.start_line - pre_window) line
          && leb line (max f.start_line f.end_line + post_window))
        changed

unfoldable pub partition_findings_by_changed_lines :
    List Finding → Map (List ℕ) → PartitionedFindings
unfolding touches
partition_findings_by_changed_lines [] changed = record { introduced = []; pre_existing = [] }
partition_findings_by_changed_lines (f ∷ fs) changed =
    let rest = partition_findings_by_changed_lines fs changed in
    if touches f (get f.file changed)
    then record rest { introduced = f ∷ rest.introduced }
    else record rest { pre_existing = f ∷ rest.pre_existing }

-- How many findings have a property.
abbrev pub count : (Finding → Bool) → List Finding → ℕ
count q fs = length (filterb q fs)

-- The file has changed lines, and none of them is one of the finding's.
abbrev pub IsUnchanged : Map (List ℕ) → Finding → Type 0
IsUnchanged changed f =
    (lines : List ℕ) × (get f.file changed ≡ some lines)
    × (is_empty lines ≡ false)
    × (any (λ line. leb f.start_line line && leb line f.end_line) lines ≡ false)

count_partition :
    (q : Finding → Bool) (fs : List Finding) (changed : Map (List ℕ))
    → count q (partition_findings_by_changed_lines fs changed).introduced
        + count q (partition_findings_by_changed_lines fs changed).pre_existing
      ≡ count q fs
unfolding partition_findings_by_changed_lines
count_partition q [] changed = refl
count_partition q (f ∷ fs) changed = ground (arith, count_partition q fs changed)

outside :
    (lines : List ℕ) (f : Finding)
    → any
        (λ line.
          leb (f.start_line - pre_window) line
          && leb line (max f.start_line f.end_line + post_window))
        lines
      ≡ false
    → any (λ line. leb f.start_line line && leb line f.end_line) lines ≡ false
outside [] f h = refl
outside (line ∷ lines) f h = ground (arith, h, outside lines f)

untouched :
    (f : Finding) (changed : Map (List ℕ)) (lines : Option (List ℕ))
    → get f.file changed ≡ lines
    → touches f lines ≡ false
    → IsUnchanged changed f
unfolding touches
untouched f changed none e h = absurd (ground (arith, h))
untouched f changed (some lines) e h =
    (lines, e, ground (arith, h), outside lines f (ground (arith, h)))

all-IsUnchanged :
    (fs : List Finding) (changed : Map (List ℕ))
    → All (IsUnchanged changed) (partition_findings_by_changed_lines fs changed).pre_existing
unfolding partition_findings_by_changed_lines
all-IsUnchanged [] changed = tt
all-IsUnchanged (f ∷ fs) changed = elim (Bool-cases (touches f (get f.file changed))) [
  | inl yes' ↦ rw yes' (all-IsUnchanged fs changed)
  | inr no' ↦ rw no' (untouched f changed (get f.file changed) refl no', all-IsUnchanged fs changed)
]

pub partition_length :
    (fs : List Finding) (changed : Map (List ℕ))
    → length (partition_findings_by_changed_lines fs changed).introduced
        + length (partition_findings_by_changed_lines fs changed).pre_existing
      ≡ length fs
unfolding partition_findings_by_changed_lines
partition_length [] changed = refl
partition_length (f ∷ fs) changed = ground (arith, partition_length fs changed)

-- The partition loses and doubles no finding, whatever property findings are counted by; and a finding is filed as
-- pre-existing only if its file has changed lines and none of its own lines is among them.
pub partition_counts :
    (fs : List Finding) (changed : Map (List ℕ))
    → ((q : Finding → Bool)
        → count q (partition_findings_by_changed_lines fs changed).introduced
            + count q (partition_findings_by_changed_lines fs changed).pre_existing
          ≡ count q fs)
      × All (IsUnchanged changed) (partition_findings_by_changed_lines fs changed).pre_existing
partition_counts fs changed = ((λ q. count_partition q fs changed), all-IsUnchanged fs changed)
