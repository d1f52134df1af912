-- ===== src/Budget/Spend.antt =====
-- The spend that the ledger holds after a scan that src/services/cost-store.ts let through.
use fixor.Prelude.{
  ℕ, ◌+◌, ◌*◌, ◌≤◌, ◌<◌, ◌≡◌, inl, inr, true, false, Option, List, [], ◌∷◌, String, arith, All,
  length, eq_iff, eq_refl,
}
use fixor.Budget.{Caps, Reads, Settled, resolved}
use fixor.Budget.Ledger.{CostDb, record_cost, sum_since, sum_since-record_cost, as_stored-bounds}
use fixor.Budget.Gate.{is_exempt, check_budget, org_cap}
use fixor.Budget.Verdicts.{within_budget_iff, outcome, Reading, at_once, at_second}

-- The priced calls of one scan, in the order in which they are recorded: cost and time.
abbrev pub record_all : String → List (ℕ × ℕ) → CostDb → CostDb
record_all id [] db = db
record_all id ((cost, now) ∷ calls) db = record_all id calls (record_cost id cost now db)

abbrev pub total : List (ℕ × ℕ) → ℕ
total [] = 0
total ((cost, now) ∷ calls) = cost + total calls

abbrev pub NotBefore : ℕ → ℕ × ℕ → Type 0
NotBefore since call = since ≤ call.1

sum_since-record_all :
    (id : String) (since : ℕ) (calls : List (ℕ × ℕ)) (db : CostDb)
    → All (NotBefore since) calls
    → sum_since id since (record_all id calls db).entries
      ≤ sum_since id since db.entries + (total calls + 500 * length calls)
sum_since-record_all id since [] db h = omega arith
sum_since-record_all id since ((cost, now) ∷ calls) db h = ground (
  arith,
  eq_iff id id,
  eq_refl id,
  sum_since-record_all id since calls (record_cost id cost now db) h.1,
  sum_since-record_cost id id cost now since db h.0,
  as_stored-bounds cost,
)

module _ (exempt_raw : String) (read : ℕ → Option (Settled Reads)) (provision : Option (Settled ℕ))
    (id : String) (caps : Caps) (month : ℕ) (db : CostDb) where
  -- The reads that succeed tell what the ledger holds.
  abbrev pub IsFaithful : Type 0
  IsFaithful =
      (n : ℕ) (r : Reads)
      → outcome read n ≡ resolved r
      → r.monthly_spend ≡ sum_since id month db.entries

  Reading-spend :
      {r : Reads} → IsFaithful → Reading read r → r.monthly_spend ≡ sum_since id month db.entries
  Reading-spend {r = r} faithful (at_once ok) = faithful 1 r ok
  Reading-spend {r = r} faithful (at_second bad again ok) = faithful 2 r ok

  -- If the reads tell what the ledger holds when the gate lets a scan of a charged installation through,
  -- and nothing but the scan's own calls is recorded meanwhile, then the month's sum after the scan is
  -- below the org's cap plus what the scan's calls cost and half a millionth of a dollar, which rounding may add,
  -- for each of them.
  pub overshoot_bound :
      (calls : List (ℕ × ℕ))
      → IsFaithful
      → All (NotBefore month) calls
      → is_exempt exempt_raw id ≡ false
      → (check_budget exempt_raw read provision id caps).within_budget ≡ true
      → (r : Reads) × (limit : ℕ) × Reading read r
        × (org_cap r.org_monthly_cap_usd provision ≡ resolved limit)
        × (sum_since id month (record_all id calls db).entries
            < limit + (total calls + 500 * length calls))
  overshoot_bound calls faithful later charged within =
      elim ((within_budget_iff exempt_raw read provision id caps).0 within) [
        | inl free ↦ absurd (ground (arith, free, charged))
        | inr (r, limit, reading, known, below, day) ↦ (
          r,
          limit,
          reading,
          known,
          ground (
            arith,
            below,
            Reading-spend faithful reading,
            sum_since-record_all id month calls db later,
          ),
        )
      ]
