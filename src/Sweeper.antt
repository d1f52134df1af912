-- ===== src/Sweeper.antt =====
-- The startup sweep over unfinished rows, src/services/scan-run-sweeper.ts, over any store: the client
-- of the store's interface.
pub mod Database
pub mod Retries
mod Tests
use fixor.Prelude.{
  ℕ, zero, suc, ◌+◌, ◌-◌, ◌*◌, ◌/◌, ◌%◌, ◌≤◌, ◌<◌, min, max, ◌≡◌, ◌≢◌, ◌∙◌, refl, sym, ap, ◌↔◌, ◌⊎◌,
  inl, inr, Bool, true, false, not, ◌&&◌, ◌||◌, Option, none, some, List, [], ◌∷◌, ◌++◌, map,
  String, arith, ltb, leb, ◌==◌, if◌then◌else◌, ltb→lt, leb→le, ==_iff, Bool-cases, Option-cases,
  or_else, eq_of_some, length, get_elem?, drop, take, any, all, filterb, length-append, All,
  All-append, str_eq, includes, Map, get, put, remove, retain, kept, Distinct, get-put, get-remove,
  get-empty, put-Distinct, get-retain, retain-Distinct, map_laws, eq_iff, eq_refl,
}
use fixor.ScanRun.{
  Status, pending, running, retrying, completed, incomplete, skipped, failed, Code, message, Start,
  Outcome, Row, is_pending, is_first_attempt, is_retrying, is_unfinished, is_null, empty_outcome,
}
use fixor.ScanRun.Store.{
  Db, CreateResult, created, duplicate_delivery, no_row_returned, ensure_installation,
  same_delivery, delivery_taken, pending_row, insert_row, create_pending, update_row, mark_running,
  mark_retrying, closed_row, finish, Entry, is_stale, list_unfinished, has_newer_run, Step, creates,
  marks_running, marks_retrying, finishes, Steps, here, next,
}

-- What one awaited call does to the world: its result, or `none` if it throws, and the world after it.
abbrev pub Call : Type 0 → Type 0 → Type 0
Call S A = S → Option A × S

-- ScanRunStore & ScanRunSweepStore, and the two callbacks of SweepDeps.
pub record Deps (S : Type 0) : Type 0 where
  pub now : S → ℕ
  pub list_unfinished : ℕ → ℕ → Call S (List Entry)
  pub has_newer_run : Entry → Call S Bool
  pub mark_retrying : String → Call S Bool
  pub finish : String → Outcome → ℕ → Call S (Unit {0})
  pub rerun : Entry → Call S (Unit {0})
  pub notify : Entry → Call S (Unit {0})

-- Row ids, in the order in which the source pushes them.
pub record Report : Type 0 where
  pub retried : List String
  pub abandoned : List String
  pub skipped : List String
  pub superseded : List String

abbrev pub no_report : Report
no_report = record { retried = []; abandoned = []; skipped = []; superseded = [] }

abbrev pub default_limit : ℕ
default_limit = 20

abbrev pub stale_after_ms : ℕ
stale_after_ms = 600_000

-- The statements of one row's `try`, on the report and the world; a throw ends them, and the `catch`
-- goes on to the next row with what was pushed and done before it.
abbrev Run : Type 0 → Type 0 → Type 0
Run S A = Report × S → Option A × (Report × S)

abbrev lift : {S A : Type 0} → Call S A → Run S A
lift call (report, s) = let (result, s') = call s in (result, (report, s'))

abbrev push : {S : Type 0} → (Report → Report) → Run S (Unit {0})
push change (report, s) = (some tt, (change report, s))

abbrev continue : {S A B : Type 0} → Option A → (A → Run S B) → Report × S → Option B × (Report × S)
continue none k w = (none, w)
continue (some a) k w = k a w

infixl 5 ◌>>=◌ ◌>>◌
abbrev ◌>>=◌ : {S A B : Type 0} → Run S A → (A → Run S B) → Run S B
◌>>=◌ m k w = let (result, w') = m w in continue result k w'

abbrev ◌>>◌ : {S B : Type 0} → Run S (Unit {0}) → Run S B → Run S B
◌>>◌ m k = m >>= λ _. k

module _ {S : Type 0} (deps : Deps S) where
  close : String → Outcome → Run S (Unit {0})
  close id outcome (report, s) = lift (deps.finish id outcome (deps.now s)) (report, s)

  supersede : Entry → Run S (Unit {0})
  supersede row = do
    close row.0 (empty_outcome Status.skipped (some Code.superseded))
    push (λ r. record r { superseded = r.superseded ++ row.0 ∷ [] })

  abandon : Entry → Run S (Unit {0})
  abandon row = do
    close row.0 (empty_outcome Status.failed (some Code.interrupted))
    push (λ r. record r { abandoned = r.abandoned ++ row.0 ∷ [] })
    lift (deps.notify row)

  retry : Entry → Run S (Unit {0})
  retry row = do
    marked ← lift (deps.mark_retrying row.0)
    if marked
        then (do push (λ r. record r { retried = r.retried ++ row.0 ∷ [] }); lift (deps.rerun row))
        else push (λ r. record r { skipped = r.skipped ++ row.0 ∷ [] })

  -- The body of the loop, with its `try`.
  handle : Entry → Run S (Unit {0})
  unfolding close supersede abandon retry
  handle row = do
    newer ← lift (deps.has_newer_run row)
    if newer then supersede row else if is_retrying row.1.status then abandon row else retry row

  sweep_rows : List Entry → Report × S → Report × S
  sweep_rows [] w = w
  sweep_rows (row ∷ rows) w = sweep_rows rows (handle row w).1

  pub sweep_listed : Option (List Entry) → S → Report × S
  sweep_listed none s = (no_report, s)
  sweep_listed (some rows) s = sweep_rows rows (no_report, s)

  -- `limit` and `stale` are the options; `default_limit` and `stale_after_ms` stand in for them.
  pub sweep : ℕ → ℕ → S → Report × S
  unfolding sweep_listed
  sweep stale limit s =
      let (rows, s') = deps.list_unfinished (deps.now s - stale) limit s in sweep_listed rows s'
