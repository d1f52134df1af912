-- ===== src/Budget/Ledger.antt =====
-- recordCost and sumSince of src/services/cost-store.ts.
use fixor.Prelude.{
  ℕ, ◌+◌, ◌*◌, ◌/◌, ◌≤◌, ◌≡◌, refl, inl, inr, Bool, ◌&&◌, List, [], ◌∷◌, ◌++◌, String, arith, leb,
  if◌then◌else◌, Bool-cases, str_eq, includes,
}

-- A cost_ledger row: the columns that the sums read.
pub record Entry : Type 0 where
  pub installation_id : String
  pub cost_usd : ℕ
  pub recorded_at : ℕ

-- The two tables that a priced call touches.
pub record CostDb : Type 0 where
  pub installations : List String
  pub entries : List Entry

-- `lastSeenAt` is not modelled.
upsert_installation : String → List String → List String
upsert_installation id ids = if includes id ids then ids else id ∷ ids

-- The column is NUMERIC(12, 6): a stored cost is rounded to millionths of a dollar, halves away from zero. That a
-- cost of a million dollars does not fit is not modelled.
unfoldable pub as_stored : ℕ → ℕ
as_stored cost = (cost + 500) / 1000 * 1000

pub as_stored-bounds : (cost : ℕ) → (as_stored cost ≤ cost + 500) × (cost ≤ as_stored cost + 500)
unfolding as_stored
as_stored-bounds cost = (omega arith, omega arith)

pub as_stored-zero : as_stored 0 ≡ 0
unfolding as_stored
as_stored-zero = refl

-- The row is written at `now`.
unfoldable pub record_cost : String → ℕ → ℕ → CostDb → CostDb
unfolding upsert_installation as_stored
record_cost id cost now db = if leb cost 0 then db else record {
  installations = upsert_installation id db.installations;
  entries =
      db.entries
      ++ record { installation_id = id; cost_usd = as_stored cost; recorded_at = now } ∷ [];
}

abbrev counts : String → ℕ → Entry → Bool
counts id since e = str_eq e.installation_id id && leb since e.recorded_at

unfoldable pub sum_since : String → ℕ → List Entry → ℕ
sum_since id since [] = 0
sum_since id since (e ∷ ledger) =
    (if counts id since e then e.cost_usd else 0) + sum_since id since ledger

sum_since-append :
    (id : String) (since : ℕ) (xs ys : List Entry)
    → sum_since id since (xs ++ ys) ≡ sum_since id since xs + sum_since id since ys
unfolding sum_since
sum_since-append id since [] ys = omega arith
sum_since-append id since (e ∷ xs) ys = ground (arith, sum_since-append id since xs ys)

one_entry :
    (id other : String) (cost now since : ℕ)
    → since ≤ now
    → sum_since other since
        (record { installation_id = id; cost_usd = cost; recorded_at = now } ∷ [])
      ≡ (if str_eq id other then cost else 0)
unfolding sum_since
one_entry id other cost now since h = ground arith

-- A recorded cost, zero or not, is in its own installation's sum from then on, as it is stored, and in no other
-- installation's.
pub sum_since-record_cost :
    (id other : String) (cost now since : ℕ) (db : CostDb)
    → since ≤ now
    → sum_since other since (record_cost id cost now db).entries
      ≡ sum_since other since db.entries + (if str_eq id other then as_stored cost else 0)
unfolding record_cost as_stored
sum_since-record_cost id other cost now since db h = elim (Bool-cases (leb cost 0)) [
  | inl free ↦ rw free (ground arith)
  | inr paid ↦ rw paid (
      ground (
        arith,
        sum_since-append other since db.entries
            (record { installation_id = id; cost_usd = as_stored cost; recorded_at = now } ∷ []),
        one_entry id other (as_stored cost) now since h,
      ))
]
