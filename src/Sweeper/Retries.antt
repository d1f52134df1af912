-- ===== src/Sweeper/Retries.antt =====
-- A row is re-run at most once, over any number of sweeps and whatever happens in between.
use fixor.Prelude.{
  ℕ, ◌-◌, Bool, false, ◌≤◌, ◌≡◌, ◌≢◌, sym, inl, inr, true, Option, some, List, [], ◌∷◌, ◌++◌,
  String, arith, Bool-cases, All, All-append, get,
}
use fixor.ScanRun.{Row, is_retrying}
use fixor.ScanRun.Store.{
  Db, list_unfinished, mark_retrying, Entry, has_newer_run, marks_retrying, finishes, Steps, here,
  next,
}
use fixor.Sweeper.{
  Report, no_report, close, supersede, abandon, retry, handle, sweep_rows, sweep_listed, sweep,
}
use fixor.ScanRun.Store.Lifecycle.{stage, Steps-Follows, stage-mark_retrying, refused_at_stage}
use fixor.Sweeper.Database.{World, Callbacks, db_deps, unless_failed}

-- The callback changes the table only as handlers do.
abbrev pub IsTame : Callbacks → Type 0
IsTame c = (row : Entry) (db : Db) → Steps db (c.rerun_db row db)

-- id is not among ids.
abbrev pub Absent : String → List String → Type 0
Absent id [] = Unit
Absent id (j ∷ ids) = (id ≢ j) × Absent id ids

abbrev pub Unrepeated : List String → Type 0
Unrepeated [] = Unit
Unrepeated (id ∷ ids) = Absent id ids × Unrepeated ids

-- The row of id has been granted its retry.
abbrev Granted : Db → String → Type 0
Granted db id = (r : Row) × (get id db.rows ≡ some r) × (2 ≤ stage r)

record Once (db : Db) (reruns : List String) : Type 0 where
  granted : All (Granted db) reruns
  unrepeated : Unrepeated reruns

Granted-Steps :
    {db db' : Db} (ids : List String) → Steps db db' → All (Granted db) ids → All (Granted db') ids
Granted-Steps [] steps g = tt
Granted-Steps (id ∷ ids) steps ((r, found, late), g) =
    let (r', found', (rises, _)) = Steps-Follows id r steps found in
    ((r', found', omega arith), Granted-Steps ids steps g)

Once-Steps : {db db' : Db} {ids : List String} → Steps db db' → Once db ids → Once db' ids
Once-Steps {ids = ids} steps o = record {
  granted = Granted-Steps ids steps o.granted;
  unrepeated = o.unrepeated;
}

-- A row that is granted its retry now was not re-run before.
ungranted :
    (id : String) (db : Db) (ids : List String)
    → (mark_retrying id db).1 ≡ true
    → All (Granted db) ids
    → Absent id ids
ungranted id db [] marked g = tt
ungranted id db (j ∷ ids) marked ((r, found, late), g) =
    (λ e. cc (marked, refused_at_stage id db r (rw e found) late), ungranted id db ids marked g)

Absent-snoc :
    (j id : String) (ids : List String) → Absent j ids → j ≢ id → Absent j (ids ++ id ∷ [])
Absent-snoc j id [] a h = (h, tt)
Absent-snoc j id (k ∷ ids) a h = (a.0, Absent-snoc j id ids a.1 h)

Unrepeated-snoc :
    (id : String) (ids : List String) → Unrepeated ids → Absent id ids → Unrepeated (ids ++ id ∷ [])
Unrepeated-snoc id [] u a = (tt, tt)
Unrepeated-snoc id (j ∷ ids) u a =
    (Absent-snoc j id ids u.0 (λ e. a.0 (sym e)), Unrepeated-snoc id ids u.1 a.1)

-- What a row's `try` leaves.
abbrev OnceIn : Option (Unit {0}) × (Report × World) → Type 0
OnceIn (result, (report, w)) = Once w.db w.reruns

module _ (c : Callbacks) (tame : IsTame c) (row : Entry) (report : Report) (w : World)
    (o : Once w.db w.reruns) where
  supersede-Once : OnceIn (supersede (db_deps c) row (report, w))
  unfolding supersede close
  supersede-Once = elim (Bool-cases (c.finish_fails row.0)) [
    | inl fails ↦ rw fails o
    | inr done ↦ rw done (Once-Steps (next here (finishes w.db row.0 _ w.clock)) o)
  ]

  abandon-Once : OnceIn (abandon (db_deps c) row (report, w))
  unfolding abandon close
  abandon-Once = elim (Bool-cases (c.finish_fails row.0)) [
    | inl fails ↦ rw fails o
    | inr done ↦ rw done (Once-Steps (next here (finishes w.db row.0 _ w.clock)) o)
  ]

  retry-Once : OnceIn (retry (db_deps c) row (report, w))
  unfolding retry
  retry-Once =
      let marking : Steps w.db (mark_retrying row.0 w.db).0 =
        next here (marks_retrying w.db row.0) in
      elim (Bool-cases (c.marking_fails row.0)) [
        | inl fails ↦ rw fails o
        | inr done ↦ rw done (elim (Bool-cases (mark_retrying row.0 w.db).1) [
          | inl marked ↦ rw marked (
              Once-Steps (tame row (mark_retrying row.0 w.db).0) (record {
                granted =
                    All-append (Granted (mark_retrying row.0 w.db).0) w.reruns (row.0 ∷ [])
                      (Granted-Steps w.reruns marking o.granted)
                      (stage-mark_retrying row.0 w.db marked, tt);
                unrepeated =
                    Unrepeated-snoc row.0 w.reruns o.unrepeated
                      (ungranted row.0 w.db w.reruns marked o.granted);
              }))
          | inr refused ↦ rw refused (Once-Steps marking o)
        ])
      ]

  handle-Once : OnceIn (handle (db_deps c) row (report, w))
  unfolding handle
  handle-Once = elim (Bool-cases (c.newer_fails row)) [
    | inl fails ↦ rw fails o
    | inr read ↦ elim (Bool-cases (has_newer_run row.1 w.db)) [
      | inl newer ↦ rw (read, newer) supersede-Once
      | inr latest ↦ elim (Bool-cases (is_retrying row.1.status)) [
        | inl second ↦ rw (read, latest, second) abandon-Once
        | inr first ↦ rw (read, latest, first) retry-Once
      ]
    ]
  ]

module _ (c : Callbacks) (tame : IsTame c) where
  sweep_rows-Once :
      (rows : List Entry) (report : Report) (w : World)
      → Once w.db w.reruns
      → Once
          (sweep_rows (db_deps c) rows (report, w)).1.db
          (sweep_rows (db_deps c) rows (report, w)).1.reruns
  unfolding sweep_rows
  sweep_rows-Once [] report w o = o
  sweep_rows-Once (row ∷ rows) report w o =
      let (result, (report', w')) = handle (db_deps c) row (report, w) in
      sweep_rows-Once rows report' w' (handle-Once c tame row report w o)

  sweep-Once :
      (stale limit : ℕ) (w : World)
      → Once w.db w.reruns
      → Once (sweep (db_deps c) stale limit w).1.db (sweep (db_deps c) stale limit w).1.reruns
  unfolding sweep sweep_listed
  sweep-Once stale limit w o = by_listing c.listing_fails
    where
      rows : List Entry
      rows = list_unfinished (w.clock - stale) limit w.db

      after_listing : Bool → Report × World
      after_listing fails =
          let (got, w') = unless_failed fails w (some rows, w) in sweep_listed (db_deps c) got w'

      by_listing : (fails : Bool) → Once (after_listing fails).1.db (after_listing fails).1.reruns
      by_listing true = o
      by_listing false = sweep_rows-Once rows no_report w o

-- Sweeps, and between them whatever handlers do to the table while time passes.
pub data Runs (c : Callbacks) (start : World) : World → Type 0 where
  unswept : Runs c start start
  sweeps :
      {w : World} (stale limit : ℕ)
      → Runs c start w
      → Runs c start (sweep (db_deps c) stale limit w).1
  passes :
      {w : World} (db' : Db) (t : ℕ)
      → Runs c start w
      → Steps w.db db'
      → Runs c start (record w { db = db'; clock = t })

Runs-Once :
    {c : Callbacks} {start w : World}
    → IsTame c
    → start.reruns ≡ []
    → Runs c start w
    → Once w.db w.reruns
Runs-Once tame none_yet unswept = rw none_yet (record { granted = tt; unrepeated = tt })
Runs-Once {c} tame none_yet (sweeps {w} stale limit r) =
    sweep-Once c tame stale limit w (Runs-Once tame none_yet r)
Runs-Once tame none_yet (passes db' t r steps) = Once-Steps steps (Runs-Once tame none_yet r)

-- Over any number of sweeps, with any handler activity between and during them, no scan_runs row is
-- re-run twice: the rows that the sweeper re-ran are pairwise different.
pub rerun_at_most_once :
    (c : Callbacks) (start w : World)
    → IsTame c
    → start.reruns ≡ []
    → Runs c start w
    → Unrepeated w.reruns
rerun_at_most_once c start w tame none_yet r = (Runs-Once tame none_yet r).unrepeated
