-- ===== src/ScanRun/Store/Deliveries.antt =====
-- One row for one delivery.
use fixor.Prelude.{
  ◌≡◌, ◌∙◌, refl, sym, ap, ◌⊎◌, inl, inr, Bool, true, false, Option, none, some, [], ◌∷◌, String,
  arith, if◌then◌else◌, Bool-cases, Option-cases, eq_of_some, str_eq, Map, get, put, Distinct,
  get-put, put-Distinct, eq_iff, eq_refl,
}
use fixor.ScanRun.{Start, Row, is_null}
use fixor.ScanRun.Store.{
  Db, created, duplicate_delivery, no_row_returned, same_delivery, delivery_taken, pending_row,
  insert_row, create_pending, create_result, update_row, mark_running, mark_retrying, finish, Step,
  creates, marks_running, marks_retrying, finishes, Steps, here, next,
}
use fixor.ScanRun.Store.Lifecycle.{get-update_row, update_row_absent}

abbrev pub empty : Db
empty = record { rows = []; installations = [] }

-- Each key stands once, and no two rows share a delivery id.
pub record AreValid (rows : Map Row) : Type 0 where
  pub keys : Distinct rows
  pub deliveries :
      (i j : String) (r s : Row)
      → get i rows ≡ some r
      → get j rows ≡ some s
      → same_delivery r.delivery_id s.delivery_id ≡ true
      → i ≡ j

abbrev pub IsValid : Db → Type 0
IsValid db = AreValid db.rows

not_taken :
    (d : Option String) (rows : Map Row) (i : String) (r : Row)
    → delivery_taken d rows ≡ false
    → get i rows ≡ some r
    → same_delivery r.delivery_id d ≡ false
unfolding get
not_taken d [] i r free found = cc
not_taken d ((j, s) ∷ rows) i r free found = ground (arith, not_taken d rows i r)

taken :
    (d : Option String) (rows : Map Row)
    → Distinct rows
    → delivery_taken d rows ≡ true
    → (i : String) × (r : Row) × (get i rows ≡ some r) × (same_delivery r.delivery_id d ≡ true)
unfolding get
taken d [] keys h = cc
taken d ((j, s) ∷ rows) keys h = elim (Bool-cases (same_delivery s.delivery_id d)) [
  | inl here' ↦ (j, s, ground (arith, eq_refl j), here')
  | inr other ↦
      let (i, r, found, same) = taken d rows keys.1 (ground arith) in
      (
        i,
        r,
        elim (Bool-cases (str_eq j i)) [
          | inl clash ↦ cc (keys.0, found, ap (λ k. get k rows) ((eq_iff j i).0 clash))
          | inr apart ↦ rw apart found
        ],
        same,
      )
]

-- A NULL collides with nothing.
null_free : (rows : Map Row) → delivery_taken none rows ≡ false
null_free [] = refl
null_free ((j, s) ∷ rows) = go s.delivery_id refl (null_free rows)
  where
    go :
        (d : Option String)
        → s.delivery_id ≡ d
        → delivery_taken none rows ≡ false
        → delivery_taken none ((j, s) ∷ rows) ≡ false
    go none e ih = rw e ih
    go (some d) e ih = rw e ih

same_delivery_comm : (a b : Option String) → same_delivery a b ≡ same_delivery b a
same_delivery_comm none none = refl
same_delivery_comm none (some b) = refl
same_delivery_comm (some a) none = refl
same_delivery_comm (some a) (some b) = ground (arith, eq_iff a b, eq_iff b a)

-- An UPDATE that keeps the delivery ids finds each row where it was.
module _ (w : Row → Bool) (c : Row → Row) (keeps : (r : Row) → (c r).delivery_id ≡ r.delivery_id)
    (db : Db) (id : String) where
  updated_from :
      (j : String) (r' : Row)
      → get j (update_row id w c db).0.rows ≡ some r'
      → (r : Row) × (get j db.rows ≡ some r) × (r'.delivery_id ≡ r.delivery_id)
  updated_from j r' found' = elim (Option-cases (get j db.rows)) [
    | inl gone ↦ cc (update_row_absent w c db id j gone)
    | inr (r, found) ↦
        let (r₂, found₂, same) =
          get-update_row w c db id j r (λ x. x.delivery_id ≡ r.delivery_id) found refl
            (kept_if r) in
        (r, found, rw (eq_of_some (sym found' ∙ found₂)) same)
  ]
    where
      kept_if : (r : Row) → (if w r then c r else r).delivery_id ≡ r.delivery_id
      kept_if r = ground (arith, keeps r)

  update_row-Distinct : Distinct db.rows → Distinct (update_row id w c db).0.rows
  update_row-Distinct d = elim (Option-cases (get id db.rows)) [
    | inl gone ↦ rw (gone, update_row) d
    | inr (r, found) ↦ elim (Bool-cases (w r)) [
      | inl hit ↦ rw (found, update_row, hit) (put-Distinct id (c r) db.rows d)
      | inr miss ↦ rw (found, update_row, miss) d
    ]
  ]

  update_row-IsValid : IsValid db → IsValid (update_row id w c db).0
  update_row-IsValid v = record {
    keys = update_row-Distinct v.keys;
    deliveries = λ i j r s fi fj same.
        let (r₀, fi₀, er) = updated_from i r fi in
        let (s₀, fj₀, es) = updated_from j s fj in
        v.deliveries i j r₀ s₀ fi₀ fj₀ (rw (er, es) at same);
  }

put-AreValid :
    (id : String) (start : Start) (rows : Map Row)
    → delivery_taken start.delivery_id rows ≡ false
    → AreValid rows
    → AreValid (put id (pending_row start) rows)
put-AreValid id start rows free v = record {
  keys = put-Distinct id (pending_row start) rows v.keys;
  deliveries = λ i j r s fi fj same. ground (
    arith,
    get-put id i (pending_row start) rows,
    get-put id j (pending_row start) rows,
    eq_iff id i,
    eq_iff id j,
    v.deliveries i j r s,
    not_taken start.delivery_id rows i r free,
    not_taken start.delivery_id rows j s free,
    same_delivery_comm r.delivery_id s.delivery_id,
  );
}

module _ (id : String) (start : Start) (db : Db) where
  -- The rows after an INSERT.
  pub rows-create_pending : (create_pending id start db).0.rows ≡ (
      if delivery_taken start.delivery_id db.rows
      then db.rows
      else put id (pending_row start) db.rows)
  unfolding create_pending insert_row
  rows-create_pending = ground arith

  -- The answer.
  answer-create_pending : (create_pending id start db).1 ≡ (
      if delivery_taken start.delivery_id db.rows
      then (if is_null start.delivery_id then no_row_returned else duplicate_delivery)
      else created id)
  unfolding create_pending insert_row create_result
  answer-create_pending = ground arith

  answer_known :
      (d : Option String)
      → start.delivery_id ≡ d
      → delivery_taken start.delivery_id db.rows ≡ true
      → (create_pending id start db).1 ≡ duplicate_delivery
  answer_known none e known = cc (null_free db.rows, ap (λ d. delivery_taken d db.rows) e)
  answer_known (some d) e known = rw (answer-create_pending, known, e)

  create_pending-IsValid : IsValid db → IsValid (create_pending id start db).0
  create_pending-IsValid v =
      rw rows-create_pending (elim (Bool-cases (delivery_taken start.delivery_id db.rows)) [
        | inl known ↦ rw known v
        | inr free ↦ rw free (put-AreValid id start db.rows free v)
      ])

  -- In a valid table `createPending` answers with the new id exactly if no row has the delivery id, and
  -- then the new row is pending; it answers `duplicate_delivery` exactly if some row has it, and then
  -- the rows are as before. It never throws for want of a row.
  pub create_pending_iff :
      IsValid db
      → ((delivery_taken start.delivery_id db.rows ≡ false)
          × ((create_pending id start db).1 ≡ created id)
          × (get id (create_pending id start db).0.rows ≡ some (pending_row start)))
        ⊎ (((i : String) × (r : Row) × (get i db.rows ≡ some r)
              × (same_delivery r.delivery_id start.delivery_id ≡ true))
            × ((create_pending id start db).1 ≡ duplicate_delivery)
            × ((create_pending id start db).0.rows ≡ db.rows))
  create_pending_iff v = elim (Bool-cases (delivery_taken start.delivery_id db.rows)) [
    | inl known ↦ inr (
      taken start.delivery_id db.rows v.keys known,
      answer_known start.delivery_id refl known,
      rw (rows-create_pending, known),
    )
    | inr free ↦ inl (
      free,
      rw (answer-create_pending, free),
      rw (rows-create_pending, free) (simp (get-put, eq_refl)),
    )
  ]

Step-IsValid : {db db' : Db} → Step db db' → IsValid db → IsValid db'
unfolding mark_running mark_retrying finish
Step-IsValid (creates db id start fresh) v = create_pending-IsValid id start db v
Step-IsValid (marks_running db id) v = update_row-IsValid _ _ (λ r. refl) db id v
Step-IsValid (marks_retrying db id) v = update_row-IsValid _ _ (λ r. refl) db id v
Step-IsValid (finishes db id o t) v = update_row-IsValid _ _ (λ r. refl) db id v

pub Steps-IsValid : {db db' : Db} → Steps db db' → IsValid db → IsValid db'
Steps-IsValid here v = v
Steps-IsValid (next before last_step) v = Step-IsValid last_step (Steps-IsValid before v)

pub empty-IsValid : IsValid empty
unfolding get
empty-IsValid = record { keys = tt; deliveries = λ i j r s fi fj same. cc }

-- However deliveries and updates are mixed, from an empty table on, no two rows have the same delivery
-- id: a redelivered event never gets a second row.
pub delivery_unique :
    {db : Db} (i j : String) (r s : Row)
    → Steps empty db
    → get i db.rows ≡ some r
    → get j db.rows ≡ some s
    → same_delivery r.delivery_id s.delivery_id ≡ true
    → i ≡ j
delivery_unique i j r s steps = (Steps-IsValid steps empty-IsValid).deliveries i j r s
