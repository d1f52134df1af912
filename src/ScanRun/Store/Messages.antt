-- ===== src/ScanRun/Store/Messages.antt =====
-- What `error_message` may hold: the dashboard shows it to every member of the org.
use fixor.Prelude.{
  ℕ, ◌≡◌, ◌∙◌, refl, sym, subst, ◌⊎◌, inl, inr, Bool, Option, none, some, String, arith,
  if◌then◌else◌, Bool-cases, Option-cases, eq_of_some, get, put, get-put,
}
use fixor.ScanRun.{Code, message, Start, Outcome, Row}
use fixor.ScanRun.Store.{
  Db, delivery_taken, pending_row, create_pending, update_row, mark_running, mark_retrying,
  closed_row, finish, Step, creates, marks_running, marks_retrying, finishes, Steps, here, next,
}
use fixor.ScanRun.Store.Lifecycle.{get-update_row, update_row_absent}
use fixor.ScanRun.Store.Deliveries.{empty, rows-create_pending}

-- No message, or one of SCAN_RUN_MESSAGES.
abbrev pub IsFixed : Row → Type 0
IsFixed r = (r.error_message ≡ none) ⊎ ((c : Code) × (r.error_message ≡ some (message c)))

abbrev AreFixed : Db → Type 0
AreFixed db = (id : String) (r : Row) → get id db.rows ≡ some r → IsFixed r

closed_row-IsFixed :
    (o : Outcome) (t : ℕ) (r : Row) (code : Option Code)
    → o.code ≡ code
    → IsFixed (closed_row o t r)
closed_row-IsFixed o t r none e = inl (rw e)
closed_row-IsFixed o t r (some c) e = inr (c, rw e)

update_row-AreFixed :
    (w : Row → Bool) (c : Row → Row) (db : Db) (id : String)
    → ((r : Row) → IsFixed r → IsFixed (c r))
    → AreFixed db
    → AreFixed (update_row id w c db).0
update_row-AreFixed w c db id keeps f j r' found' = elim (Option-cases (get j db.rows)) [
  | inl gone ↦ cc (update_row_absent w c db id j gone)
  | inr (r, found) ↦
      let (r₂, found₂, fixed) =
        get-update_row w c db id j r IsFixed found (f j r found) (changed r (f j r found)) in
      subst IsFixed (eq_of_some (sym found₂ ∙ found')) fixed
]
  where
    changed : (r : Row) → IsFixed r → IsFixed (if w r then c r else r)
    changed r h = elim (Bool-cases (w r)) [ inl hit ↦ rw hit (keeps r h) | inr miss ↦ rw miss h ]

create_pending-AreFixed :
    (id : String) (start : Start) (db : Db) → AreFixed db → AreFixed (create_pending id start db).0
create_pending-AreFixed id start db f j r found =
    elim (Bool-cases (delivery_taken start.delivery_id db.rows)) [
      | inl known ↦ f j r (rw (rows-create_pending id start db, known) at found)
      | inr free ↦ inserted (rw (rows-create_pending id start db, free) at found)
    ]
  where
    inserted : get j (put id (pending_row start) db.rows) ≡ some r → IsFixed r
    inserted h = ground (arith, get-put id j (pending_row start) db.rows, f j r)

Step-AreFixed : {db db' : Db} → Step db db' → AreFixed db → AreFixed db'
unfolding mark_running mark_retrying finish
Step-AreFixed (creates db id start fresh) f = create_pending-AreFixed id start db f
Step-AreFixed (marks_running db id) f = update_row-AreFixed _ _ db id (λ r h. h) f
Step-AreFixed (marks_retrying db id) f = update_row-AreFixed _ _ db id (λ r h. h) f
Step-AreFixed (finishes db id o t) f =
    update_row-AreFixed _ _ db id (λ r h. closed_row-IsFixed o t r o.code refl) f

Steps-AreFixed : {db db' : Db} → Steps db db' → AreFixed db → AreFixed db'
Steps-AreFixed here f = f
Steps-AreFixed (next before last_step) f = Step-AreFixed last_step (Steps-AreFixed before f)

-- Whatever happens to the table, from the empty one on, the message of each row is absent or one of
-- SCAN_RUN_MESSAGES.
pub error_message-IsFixed :
    {db : Db} (id : String) (r : Row) → Steps empty db → get id db.rows ≡ some r → IsFixed r
unfolding get
error_message-IsFixed id r steps = Steps-AreFixed steps (λ j s found. cc) id r
