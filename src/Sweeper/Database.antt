-- ===== src/Sweeper/Database.antt =====
-- The sweep over the Drizzle store: what it does to the table, which rows it re-runs and which pull
-- requests get a notice.
use fixor.Prelude.{
  ℕ, ◌+◌, ◌-◌, ◌≤◌, ◌≡◌, refl, sym, inl, inr, Bool, Option, none, some, List, [], ◌∷◌, ◌++◌, String,
  arith, if◌then◌else◌, Bool-cases, length, length-append, ◌||◌, true, ap, ◌∙◌, str_eq, false, All,
  All-append,
}
use fixor.ScanRun.{is_retrying}
use fixor.ScanRun.Store.{
  Db, mark_retrying, finish, Entry, list_unfinished, length-list_unfinished, has_newer_run,
}
use mathlib.Core.List.{append_assoc, append-nil}
use fixor.Sweeper.{
  Deps, Report, no_report, close, supersede, abandon, retry, handle, sweep_rows, sweep_listed,
  sweep,
}

-- The table, the clock, and the calls of `rerun` and `notify` so far.
pub record World : Type 0 where
  pub db : Db
  pub clock : ℕ
  pub reruns : List String
  pub notices : List String

-- A re-run may change the table and may throw; so may a notice, which leaves the table alone. A statement of the store
-- that fails throws and leaves the table alone as well.
pub record Callbacks : Type 0 where
  pub rerun_db : Entry → Db → Db
  pub rerun_returns : Entry → Db → Bool
  pub notice_posted : Entry → Bool
  pub listing_fails : Bool
  pub newer_fails : Entry → Bool
  pub marking_fails : String → Bool
  pub finish_fails : String → Bool

abbrev pub returns : Bool → Option (Unit {0})
returns b = if b then some tt else none

abbrev pub unless_failed : {A : Type 0} → Bool → World → Option A × World → Option A × World
unless_failed fails w done = if fails then (none, w) else done

abbrev pub db_deps : Callbacks → Deps World
db_deps c = record {
  now = λ w. w.clock;
  list_unfinished = λ before limit w.
      unless_failed c.listing_fails w (some (list_unfinished before limit w.db), w);
  has_newer_run = λ row w. unless_failed (c.newer_fails row) w (some (has_newer_run row.1 w.db), w);
  mark_retrying = λ id w.
      unless_failed (c.marking_fails id) w
        (some (mark_retrying id w.db).1, record w { db = (mark_retrying id w.db).0 });
  finish = λ id o t w.
      unless_failed (c.finish_fails id) w (some tt, record w { db = finish id o t w.db });
  rerun = λ row w. (
    returns (c.rerun_returns row w.db),
    record w { db = c.rerun_db row w.db; reruns = w.reruns ++ row.0 ∷ [] },
  );
  notify = λ row w. (returns (c.notice_posted row), record w { notices = w.notices ++ row.0 ∷ [] });
}

-- A statement on the row may fail.
abbrev pub may_fail : Callbacks → Entry → Bool
may_fail c row = c.newer_fails row || (c.marking_fails row.0 || c.finish_fails row.0)

abbrev pub bit : Bool → ℕ
bit b = if b then 1 else 0

-- How often an id stands in a list of ids, and among listed rows.
abbrev pub times : String → List String → ℕ
times id [] = 0
times id (j ∷ ids) = bit (str_eq id j) + times id ids

abbrev pub times_listed : String → List Entry → ℕ
times_listed id [] = 0
times_listed id (row ∷ rows) = bit (str_eq id row.0) + times_listed id rows

times-append : (id : String) (xs ys : List String) → times id (xs ++ ys) ≡ times id xs + times id ys
times-append id [] ys = omega arith
times-append id (x ∷ xs) ys = omega (arith, times-append id xs ys)

times_listed-append :
    (id : String) (xs ys : List Entry)
    → times_listed id (xs ++ ys) ≡ times_listed id xs + times_listed id ys
times_listed-append id [] ys = omega arith
times_listed-append id (x ∷ xs) ys = omega (arith, times_listed-append id xs ys)

-- How often a report names an id, in all four lists.
abbrev pub named : String → Report → ℕ
named id r = times id r.retried + times id r.abandoned + times id r.skipped + times id r.superseded

-- The rows that a report names.
abbrev pub total : Report → ℕ
total r = length r.retried + length r.abandoned + length r.skipped + length r.superseded

-- After the rows `handled` of a sweep that started in `before`: each of them is named once, or is one of the lost, whose
-- statements may fail; and the calls of the two callbacks follow the lists.
pub record Logged (c : Callbacks) (before : World) (handled : List Entry) (report : Report)
    (w : World) : Type 0 where
  pub lost : List Entry
  pub failing : All (λ row. may_fail c row ≡ true) lost
  pub accounted : (id : String) → named id report + times_listed id lost ≡ times_listed id handled
  pub counted : total report + length lost ≡ length handled
  pub reran : w.reruns ≡ before.reruns ++ report.retried
  pub noticed : w.notices ≡ before.notices ++ report.abandoned

module _ (c : Callbacks) (before : World) (row : Entry) (handled : List Entry) (report : Report)
    (w : World) (l : Logged c before handled report w) where
  -- The same, of what the row's `try` leaves.
  abbrev LoggedBy : Option (Unit {0}) × (Report × World) → Type 0
  LoggedBy (result, (report', w')) = Logged c before (handled ++ row ∷ []) report' w'

  lose : may_fail c row ≡ true → Logged c before (handled ++ row ∷ []) report w
  lose fails = record {
    lost = l.lost ++ row ∷ [];
    failing = All-append (λ r. may_fail c r ≡ true) l.lost (row ∷ []) l.failing (fails, tt);
    accounted = λ id. omega (
      arith,
      l.accounted id,
      times_listed-append id l.lost (row ∷ []),
      times_listed-append id handled (row ∷ []),
    );
    counted =
        omega (arith, l.counted, length-append l.lost (row ∷ []), length-append handled (row ∷ []));
    reran = l.reran;
    noticed = l.noticed;
  }

  supersede-Logged : LoggedBy (supersede (db_deps c) row (report, w))
  unfolding supersede close
  supersede-Logged = elim (Bool-cases (c.finish_fails row.0)) [
    | inl fails ↦ rw fails (lose (ground (arith, fails)))
    | inr done ↦ rw done (record {
      lost = l.lost;
      failing = l.failing;
      accounted = λ id. omega (
        arith,
        l.accounted id,
        times-append id report.superseded (row.0 ∷ []),
        times_listed-append id handled (row ∷ []),
      );
      counted = omega (
        arith,
        l.counted,
        length-append report.superseded (row.0 ∷ []),
        length-append handled (row ∷ []),
      );
      reran = l.reran;
      noticed = l.noticed;
    })
  ]

  abandon-Logged : LoggedBy (abandon (db_deps c) row (report, w))
  unfolding abandon close
  abandon-Logged = elim (Bool-cases (c.finish_fails row.0)) [
    | inl fails ↦ rw fails (lose (ground (arith, fails)))
    | inr done ↦ rw done (record {
      lost = l.lost;
      failing = l.failing;
      accounted = λ id. omega (
        arith,
        l.accounted id,
        times-append id report.abandoned (row.0 ∷ []),
        times_listed-append id handled (row ∷ []),
      );
      counted = omega (
        arith,
        l.counted,
        length-append report.abandoned (row.0 ∷ []),
        length-append handled (row ∷ []),
      );
      reran = l.reran;
      noticed =
          ap (λ ns. ns ++ row.0 ∷ []) l.noticed
          ∙ append_assoc before.notices report.abandoned (row.0 ∷ []);
    })
  ]

  marked-Logged :
      (db' : Db) (b : Bool)
      → Logged c before
          (handled ++ row ∷ [])
          (if b
            then record report { retried = report.retried ++ row.0 ∷ [] }
            else record report { skipped = report.skipped ++ row.0 ∷ [] })
          (record w { db = db'; reruns = if b then w.reruns ++ row.0 ∷ [] else w.reruns })
  marked-Logged db' true = record {
    lost = l.lost;
    failing = l.failing;
    accounted = λ id. omega (
      arith,
      l.accounted id,
      times-append id report.retried (row.0 ∷ []),
      times_listed-append id handled (row ∷ []),
    );
    counted = omega (
      arith,
      l.counted,
      length-append report.retried (row.0 ∷ []),
      length-append handled (row ∷ []),
    );
    reran =
        ap (λ rs. rs ++ row.0 ∷ []) l.reran
        ∙ append_assoc before.reruns report.retried (row.0 ∷ []);
    noticed = l.noticed;
  }
  marked-Logged db' false = record {
    lost = l.lost;
    failing = l.failing;
    accounted = λ id. omega (
      arith,
      l.accounted id,
      times-append id report.skipped (row.0 ∷ []),
      times_listed-append id handled (row ∷ []),
    );
    counted = omega (
      arith,
      l.counted,
      length-append report.skipped (row.0 ∷ []),
      length-append handled (row ∷ []),
    );
    reran = l.reran;
    noticed = l.noticed;
  }

  retry-Logged : LoggedBy (retry (db_deps c) row (report, w))
  unfolding retry
  retry-Logged = elim (Bool-cases (c.marking_fails row.0)) [
    | inl fails ↦ rw fails (lose (ground (arith, fails)))
    | inr done ↦ elim (Bool-cases (mark_retrying row.0 w.db).1) [
      | inl marked ↦ rw (done, marked) (marked-Logged _ true)
      | inr refused ↦ rw (done, refused) (marked-Logged _ false)
    ]
  ]

  handle-Logged : LoggedBy (handle (db_deps c) row (report, w))
  unfolding handle
  handle-Logged = elim (Bool-cases (c.newer_fails row)) [
    | inl fails ↦ rw fails (lose (ground (arith, fails)))
    | inr read ↦ elim (Bool-cases (has_newer_run row.1 w.db)) [
      | inl newer ↦ rw (read, newer) supersede-Logged
      | inr latest ↦ elim (Bool-cases (is_retrying row.1.status)) [
        | inl second ↦ rw (read, latest, second) abandon-Logged
        | inr first ↦ rw (read, latest, first) retry-Logged
      ]
    ]
  ]

snoc_append : (xs : List Entry) (y : Entry) (ys : List Entry) → (xs ++ y ∷ []) ++ ys ≡ xs ++ y ∷ ys
snoc_append [] y ys = refl
snoc_append (x ∷ xs) y ys = ap (λ zs. x ∷ zs) (snoc_append xs y ys)

module _ (c : Callbacks) (before : World) where
  sweep_rows-Logged :
      (rows handled : List Entry) (report : Report) (w : World)
      → Logged c before handled report w
      → Logged c before
          (handled ++ rows)
          (sweep_rows (db_deps c) rows (report, w)).0
          (sweep_rows (db_deps c) rows (report, w)).1
  unfolding sweep_rows
  sweep_rows-Logged [] handled report w l = rw (append-nil handled) l
  sweep_rows-Logged (row ∷ rows) handled report w l =
      let (result, (report', w')) = handle (db_deps c) row (report, w) in
      rw (← snoc_append handled row rows) (
        sweep_rows-Logged rows (handled ++ row ∷ []) report' w'
          (handle-Logged c before row handled report w l))

-- The rows that a sweep goes through: those listed, or none if the listing fails.
abbrev pub swept_rows : Callbacks → ℕ → ℕ → World → List Entry
swept_rows c stale limit w =
    if c.listing_fails then [] else list_unfinished (w.clock - stale) limit w.db

-- One sweep over the database names each row that it listed exactly once, in one of its four lists, but for rows whose
-- own statements may fail, which it names once or not at all; it names nothing else, and at most `limit` rows. It
-- calls `rerun` for exactly the rows that it reports as retried and `notify` for exactly those that it reports as
-- abandoned, in that order, whether or not the callbacks throw.
pub sweep_accounts :
    (c : Callbacks) (stale limit : ℕ) (w : World)
    → Logged c w
        (swept_rows c stale limit w)
        (sweep (db_deps c) stale limit w).0
        (sweep (db_deps c) stale limit w).1
      × (total (sweep (db_deps c) stale limit w).0 ≤ limit)
unfolding sweep sweep_listed
sweep_accounts c stale limit w = by_listing c.listing_fails
  where
    none_yet : Logged c w [] no_report w
    none_yet = record {
      lost = [];
      failing = tt;
      accounted = λ id. refl;
      counted = refl;
      reran = sym (append-nil _);
      noticed = sym (append-nil _);
    }

    rows : List Entry
    rows = list_unfinished (w.clock - stale) limit w.db

    all_rows :
        Logged c w rows
          (sweep_rows (db_deps c) rows (no_report, w)).0
          (sweep_rows (db_deps c) rows (no_report, w)).1
    all_rows = sweep_rows-Logged c w rows [] no_report w none_yet

    after_listing : Bool → Report × World
    after_listing fails =
        let (got, w') = unless_failed fails w (some rows, w) in sweep_listed (db_deps c) got w'

    by_listing :
        (fails : Bool)
        → Logged c w (if fails then [] else rows) (after_listing fails).0 (after_listing fails).1
          × (total (after_listing fails).0 ≤ limit)
    by_listing true = (none_yet, omega arith)
    by_listing false = (
      all_rows,
      omega (arith, all_rows.counted, length-list_unfinished (w.clock - stale) limit w.db),
    )
