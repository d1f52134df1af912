-- ===== src/ScanRun/Store/Lifecycle.antt =====
-- The life of a row: its stage only rises, a finished row never changes, a retry is granted once.
use fixor.Prelude.{
  ℕ, ◌≤◌, ◌≡◌, refl, ap, inl, inr, Bool, true, false, ◌&&◌, none, some, String, arith,
  if◌then◌else◌, Bool-cases, Option-cases, str_eq, get, get-put, eq_iff, eq_refl,
}
use fixor.ScanRun.{Status, pending, running, retrying, Start, Row, is_first_attempt, is_null}
use fixor.ScanRun.Store.{
  Db, pending_row, insert_row, create_pending, update_row, mark_running, mark_retrying, finish,
  Step, creates, marks_running, marks_retrying, finishes, Steps, here, next,
}

-- What an UPDATE leaves under its key, and under the others.
module _ (w : Row → Bool) (c : Row → Row) (db : Db) where
  pub get-update_row_self :
      (id : String) (r : Row)
      → get id db.rows ≡ some r
      → get id (update_row id w c db).0.rows ≡ some (if w r then c r else r)
  get-update_row_self id r found = elim (Bool-cases (w r)) [
    | inl hit ↦ rw (found, hit) (simp (get-put, eq_refl))
    | inr miss ↦ rw (found, miss) found
  ]

  pub get-update_row_ne :
      (id j : String) → str_eq id j ≡ false → get j (update_row id w c db).0.rows ≡ get j db.rows
  get-update_row_ne id j other = elim (Option-cases (get id db.rows)) [
    | inl gone ↦ rw gone
    | inr (r, found) ↦ rw found (elim (Bool-cases (w r)) [
      | inl hit ↦ rw hit (simp get-put (rw other))
      | inr miss ↦ rw miss
    ])
  ]

  -- A statement about what becomes of each row is one about the row of the key.
  pub get-update_row :
      (id j : String) (r : Row) (P : Row → Type 0)
      → get j db.rows ≡ some r
      → P r
      → P (if w r then c r else r)
      → (r' : Row) × (get j (update_row id w c db).0.rows ≡ some r') × P r'
  get-update_row id j r P found old new_ = elim (Bool-cases (str_eq id j)) [
    | inl same ↦
        let found' : get id db.rows ≡ some r = rw ((eq_iff id j).0 same) found in
        (
          (if w r then c r else r),
          rw (← (eq_iff id j).0 same) (get-update_row_self id r found'),
          new_,
        )
    | inr other ↦ (r, rw (get-update_row_ne id j other) found, old)
  ]

-- Where an UPDATE leaves nothing there was nothing.
pub update_row_absent :
    (w : Row → Bool) (c : Row → Row) (db : Db) (id j : String)
    → get j db.rows ≡ none
    → get j (update_row id w c db).0.rows ≡ none
update_row_absent w c db id j gone = elim (Bool-cases (str_eq id j)) [
  | inl same ↦
      let gone' : get id db.rows ≡ none = rw ((eq_iff id j).0 same) gone in
      rw (gone', update_row) gone
  | inr other ↦ rw (get-update_row_ne w c db id j other) gone
]

-- How far a row has come: pending, running, retrying, finished.
abbrev pub rank : Status → ℕ
rank pending = 0
rank running = 1
rank _ = 2

abbrev pub stage : Row → ℕ
stage r = if is_null r.finished_at then rank r.status else 3

-- The row after a step or some: as far or further, and the same if it was finished.
abbrev pub Follows : Row → Row → Type 0
Follows r r' = (stage r ≤ stage r') × (is_null r.finished_at ≡ false → r' ≡ r)

insert-keeps :
    (id j : String) (start : Start) (db : Db) (r : Row)
    → get id db.rows ≡ none
    → get j db.rows ≡ some r
    → get j (create_pending id start db).0.rows ≡ some r
unfolding create_pending insert_row
insert-keeps id j start db r fresh found = ground (
  arith,
  get-put id j (pending_row start) db.rows,
  ap (λ k. get k db.rows) {x = id} {y = j},
  eq_iff id j,
)

Step-Follows :
    {db db' : Db} (j : String) (r : Row)
    → Step db db'
    → get j db.rows ≡ some r
    → (r' : Row) × (get j db'.rows ≡ some r') × Follows r r'
unfolding mark_running mark_retrying finish
Step-Follows j r (creates db id start fresh) found =
    (r, insert-keeps id j start db r fresh found, (omega arith, λ h. refl))
Step-Follows j r (marks_running db id) found =
    get-update_row _ _ db id j r (Follows r) found (omega arith, λ h. refl)
      (ground arith, ground arith)
Step-Follows j r (marks_retrying db id) found =
    get-update_row _ _ db id j r (Follows r) found (omega arith, λ h. refl)
      (ground arith, ground arith)
Step-Follows j r (finishes db id o t) found =
    get-update_row _ _ db id j r (Follows r) found (omega arith, λ h. refl)
      (ground arith, ground arith)

Follows-trans : (a b c : Row) → Follows a b → Follows b c → Follows a c
Follows-trans a b c f g = (omega arith, λ h. ground (arith, f.1 h, g.1))

-- Whatever happens to the table, a row keeps its key and never goes back to an earlier stage (pending,
-- running, retrying, finished), and a finished row stays as it is: its final state is written once.
pub Steps-Follows :
    {db db' : Db} (j : String) (r : Row)
    → Steps db db'
    → get j db.rows ≡ some r
    → (r' : Row) × (get j db'.rows ≡ some r') × Follows r r'
Steps-Follows j r here found = (r, found, (omega arith, λ h. refl))
Steps-Follows j r (next {d} {e} before last_step) found =
    let (r₁, found₁, f₁) = Steps-Follows j r before found in
    let (r₂, found₂, f₂) = Step-Follows j r₁ last_step found₁ in
    (r₂, found₂, Follows-trans r r₁ r₂ f₁ f₂)

pub stage-mark_retrying :
    (id : String) (db : Db)
    → (mark_retrying id db).1 ≡ true
    → (r : Row) × (get id (mark_retrying id db).0.rows ≡ some r) × (2 ≤ stage r)
unfolding mark_retrying
stage-mark_retrying id db granted = elim (Option-cases (get id db.rows)) [
  | inl gone ↦ cc (rw (gone, update_row) at granted)
  | inr (r, found) ↦
      let hit : is_first_attempt r.status && is_null r.finished_at ≡ true = ground arith in
      (record r { status = retrying }, rw (found, hit) (simp (get-put, eq_refl)), ground arith)
]

pub refused_at_stage :
    (id : String) (db : Db) (r : Row)
    → get id db.rows ≡ some r
    → 2 ≤ stage r
    → (mark_retrying id db).1 ≡ false
unfolding mark_retrying
refused_at_stage id db r found late = rw found (ground arith)

-- A row is granted its retry once: after `markRetrying` has answered true, it answers false for that
-- row in whatever state the table comes to.
pub mark_retrying_once :
    (id : String) (db db' : Db)
    → (mark_retrying id db).1 ≡ true
    → Steps (mark_retrying id db).0 db'
    → (mark_retrying id db').1 ≡ false
mark_retrying_once id db db' granted later =
    let (r, found, late) = stage-mark_retrying id db granted in
    let (r', found', (rises, _)) = Steps-Follows id r later found in
    refused_at_stage id db' r' found' (omega arith)
