-- ===== src/ScanRun/Store.antt =====
-- drizzleScanRunStore of src/services/scan-run-store.ts. The table is a map from the primary key to the
-- row; each SQL statement is read as an operation on it: INSERT adds a row unless its delivery id is
-- taken (ON CONFLICT DO NOTHING; a NULL collides with nothing), UPDATE ... WHERE changes the row of its
-- key if the other conditions hold, SELECT ... ORDER BY ... LIMIT filters, sorts and cuts. The id of a
-- new row is the database's random uuid, an argument here.
pub mod Lifecycle
pub mod Deliveries
pub mod Messages
use fixor.Prelude.{
  ℕ, zero, suc, ◌+◌, ◌-◌, ◌*◌, ◌/◌, ◌%◌, ◌≤◌, ◌<◌, min, max, ◌≡◌, ◌≢◌, ◌∙◌, refl, sym, ap, ◌↔◌, ◌⊎◌,
  inl, inr, Bool, true, false, not, ◌&&◌, ◌||◌, Option, none, some, List, [], ◌∷◌, ◌++◌, map,
  String, arith, ltb, leb, ◌==◌, if◌then◌else◌, ltb→lt, leb→le, ==_iff, Bool-cases, Option-cases,
  or_else, eq_of_some, length, get_elem?, drop, take, any, all, filterb, length-append, All,
  All-append, str_eq, includes, Map, get, put, remove, retain, kept, Distinct, get-put, get-remove,
  get-empty, put-Distinct, get-retain, retain-Distinct, map_laws, eq_iff, eq_refl,
}
use fixor.ScanRun.{
  Status, pending, running, retrying, completed, incomplete, skipped, failed, Code, message, Start,
  Outcome, Row, is_pending, is_first_attempt, is_retrying, is_unfinished, is_null,
}
use mathlib.Core.Option

pub record Db : Type 0 where
  pub rows : Map Row
  pub installations : List String

pub data CreateResult : Type 0 where
  created : String → CreateResult
  duplicate_delivery : CreateResult
  -- the thrown Error
  no_row_returned : CreateResult

-- ensureInstallation of src/services/cost-store.ts; `lastSeenAt` is not modelled.
abbrev pub ensure_installation : String → Db → Db
ensure_installation id db =
    if includes id db.installations then db else record db { installations = id ∷ db.installations }

-- Equal under the unique index: a NULL equals nothing.
abbrev pub same_delivery : Option String → Option String → Bool
same_delivery none d = false
same_delivery (some e) none = false
same_delivery (some e) (some d) = str_eq e d

abbrev pub delivery_taken : Option String → Map Row → Bool
delivery_taken d [] = false
delivery_taken d ((id, r) ∷ rows) = same_delivery r.delivery_id d || delivery_taken d rows

abbrev pub pending_row : Start → Row
pending_row start = record {
  start = start;
  status = pending;
  error_message = none;
  total_findings = 0;
  findings_by_family = [];
  fixes_generated = 0;
  cost_usd = 0;
  finished_at = none;
}

-- `insert ... onConflictDoNothing ... returning`
pub insert_row : String → Start → Db → Db × Option String
insert_row id start db =
    if delivery_taken start.delivery_id db.rows
    then (db, none)
    else (record db { rows = put id (pending_row start) db.rows }, some id)

create_result : Start → Option String → CreateResult
create_result start (some id) = created id
create_result start none = if is_null start.delivery_id then no_row_returned else duplicate_delivery

unfoldable pub create_pending : String → Start → Db → Db × CreateResult
unfolding insert_row create_result
create_pending id start db =
    let (db', inserted) = insert_row id start (ensure_installation start.installation_id db) in
    (db', create_result start inserted)

abbrev update_found : String → (Row → Bool) → (Row → Row) → Db → Option Row → Db × Bool
update_found id where_ change db none = (db, false)
update_found id where_ change db (some r) =
    if where_ r then (record db { rows = put id (change r) db.rows }, true) else (db, false)

-- UPDATE scan_runs SET change WHERE id = id AND where_
abbrev pub update_row : String → (Row → Bool) → (Row → Row) → Db → Db × Bool
update_row id where_ change db = update_found id where_ change db (get id db.rows)

unfoldable pub mark_running : String → Db → Db
mark_running id db =
    (update_row id (λ r. is_pending r.status && is_null r.finished_at)
      (λ r. record r { status = running }) db).0

-- True if a row was updated.
unfoldable pub mark_retrying : String → Db → Db × Bool
mark_retrying id db =
    update_row id (λ r. is_first_attempt r.status && is_null r.finished_at)
      (λ r. record r { status = retrying }) db

abbrev pub closed_row : Outcome → ℕ → Row → Row
closed_row outcome finished_at r = record r {
  status = outcome.status;
  error_message = Option.map message outcome.code;
  total_findings = outcome.total_findings;
  findings_by_family = outcome.findings_by_family;
  fixes_generated = outcome.fixes_generated;
  cost_usd = outcome.cost_usd;
  finished_at = some finished_at;
}

unfoldable pub finish : String → Outcome → ℕ → Db → Db
finish id outcome finished_at db =
    (update_row id (λ r. is_null r.finished_at) (closed_row outcome finished_at) db).0

-- A selected row with its key.
abbrev pub Entry : Type 0
Entry = String × Row

insert_by_start : Entry → List Entry → List Entry
insert_by_start e [] = e ∷ []
insert_by_start e (f ∷ es) =
    if ltb f.1.started_at e.1.started_at then f ∷ insert_by_start e es else e ∷ f ∷ es

-- ORDER BY started_at
order_by_start : List Entry → List Entry
unfolding insert_by_start
order_by_start [] = []
order_by_start (e ∷ es) = insert_by_start e (order_by_start es)

abbrev pub is_stale : ℕ → Entry → Bool
is_stale before e =
    is_null e.1.finished_at && (is_unfinished e.1.status && ltb e.1.started_at before)

unfoldable pub list_unfinished : ℕ → ℕ → Db → List Entry
unfolding order_by_start
list_unfinished before limit db = take limit (order_by_start (filterb (is_stale before) db.rows))

length-take_le : (n : ℕ) (es : List Entry) → length (take n es) ≤ n
length-take_le zero es = omega arith
length-take_le (suc n) [] = omega arith
length-take_le (suc n) (e ∷ es) = omega (arith, length-take_le n es)

-- No more rows than asked for.
pub length-list_unfinished :
    (before limit : ℕ) (db : Db) → length (list_unfinished before limit db) ≤ limit
unfolding list_unfinished
length-list_unfinished before limit db = length-take_le limit _

abbrev is_later_run : Row → Entry → Bool
is_later_run r e =
    str_eq e.1.installation_id r.installation_id
    && (str_eq e.1.repo_full_name r.repo_full_name
        && (e.1.pull_number == r.pull_number && ltb r.started_at e.1.started_at))

unfoldable pub has_newer_run : Row → Db → Bool
has_newer_run r db = any (is_later_run r) db.rows

-- What handlers and sweepers do to the table, in any order. A new key is fresh: it is a random uuid.
pub data Step : Db → Db → Type 0 where
  creates :
      (db : Db) (id : String) (start : Start)
      → get id db.rows ≡ none
      → Step db (create_pending id start db).0
  marks_running : (db : Db) (id : String) → Step db (mark_running id db)
  marks_retrying : (db : Db) (id : String) → Step db (mark_retrying id db).0
  finishes : (db : Db) (id : String) (o : Outcome) (t : ℕ) → Step db (finish id o t db)

pub data Steps (db : Db) : Db → Type 0 where
  here : Steps db db
  next : {d e : Db} → Steps db d → Step d e → Steps db e
