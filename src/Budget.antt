-- ===== src/Budget.antt =====
-- The cost ledger and the budget gate, src/services/cost-store.ts. Money is in billionths of a dollar, so
-- the source's `Number.isFinite` tests hold; times are milliseconds.
pub mod Ledger
pub mod Failure
pub mod Gate
pub mod Verdicts
pub mod Spend
mod Tests
use fixor.Prelude.{
  ℕ, zero, suc, ◌+◌, ◌-◌, ◌*◌, ◌/◌, ◌%◌, ◌≤◌, ◌<◌, min, max, ◌≡◌, ◌≢◌, ◌∙◌, refl, sym, ap, subst,
  ◌↔◌, ◌⊎◌, inl, inr, Bool, true, false, not, ◌&&◌, ◌||◌, Option, none, some, List, [], ◌∷◌, ◌++◌,
  map, String, arith, ltb, leb, ◌==◌, if◌then◌else◌, ltb→lt, leb→le, ==_iff, Bool-cases,
  Option-cases, or_else, eq_of_some, length, get_elem?, drop, take, any, all, filterb,
  length-append, All, All-append, str_eq, includes, Map, get, put, remove, retain, kept, Distinct,
  get-put, get-remove, get-empty, put-Distinct, get-retain, retain-Distinct, map_laws, codes,
  codes_eq, starts_with, contains, to_lower, is_space, trim, split_from, is_empty, eq_iff, eq_refl,
}

pub record Caps : Type 0 where
  pub monthly_cap_usd : ℕ
  pub daily_cap_usd : ℕ

pub data FailureKind : Type 0 where
  connection timeout query config unknown : FailureKind

pub data Reason : Type 0 where
  monthly_exceeded daily_exceeded exempt budget_unverifiable : Reason

pub record BudgetCheck : Type 0 where
  pub within_budget : Bool
  pub reason : Option Reason
  pub monthly_spend : ℕ
  pub daily_spend : ℕ
  pub caps : Caps
  pub failure : Option (FailureKind × ℕ)

pub record Reads : Type 0 where
  pub monthly_spend : ℕ
  pub daily_spend : ℕ
  pub org_monthly_cap_usd : Option ℕ

-- A thrown value, as far as `classifyBudgetReadFailure` looks at it. `falsy` is undefined or null.
pub data Thrown : Type 0 where
  falsy : Thrown
  thrown :
      (is_budget_read_timeout : Bool)
      → (code : Option String) → (message : String) → (has_severity : Bool) → (has_errors : Bool)
      → (first_error cause : Thrown) → Thrown

-- What a promise comes to.
pub data Settled {ℓ} (A : Type ℓ) : Type ℓ where
  resolved : A → Settled A
  rejected : Thrown → Settled A
