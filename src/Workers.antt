-- ===== src/Workers.antt =====
-- runWithConcurrency of src/lib/concurrency.ts: workers that share a cursor.
--
-- Between two `await`s a worker runs to the end, so each stretch is one step: `start_pool` runs every worker up to its
-- first `await`, in order; `settle_call` goes on with a worker whose call has settled. What `worker(item, i)` comes to is
-- an argument; when it does is the choice of the step.
mod Invariant
mod Countdown
pub mod Order
mod Tests
use fixor.Prelude.{
  ℕ, zero, suc, ◌+◌, ◌-◌, ◌*◌, ◌/◌, ◌%◌, ◌≤◌, ◌<◌, min, max, ◌≡◌, ◌≢◌, ◌∙◌, refl, sym, ap, subst,
  ◌↔◌, ◌⊎◌, inl, inr, Bool, true, false, not, ◌&&◌, ◌||◌, Option, none, some, List, [], ◌∷◌, ◌++◌,
  map, String, arith, ◌^◌, ltb, leb, ◌==◌, if◌then◌else◌, ltb→lt, leb→le, ==_iff, Bool-cases,
  Option-cases, or_else, eq_of_some, length, get_elem?, drop, take, any, all, filterb,
  length-append, length-map, any-append, All, All-append, str_eq, includes, Map, get, put, remove,
  retain, kept, Distinct, get-put, get-remove, get-empty, put-Distinct, get-retain, retain-Distinct,
  map_laws, codes, codes_eq, starts_with, contains, to_lower, is_space, trim, trim_text, join,
  decimal, digits_from, is_digit, digits_from-decimal, split_from, is_empty, eq_iff, eq_refl,
}
use fixor.Workflow.{Settled, fulfilled, rejected}

-- A worker before its first claim, during a call, after its `return`, and after an exception.
pub data Worker : Type 0 where
  unstarted : Worker
  working : (index : ℕ) → Worker
  returned : Worker
  threw : (reason : String) → Worker

abbrev pub replace_at {ℓ} : {A : Type ℓ} → (ℕ → A) → ℕ → A → ℕ → A
replace_at f i v j = if j == i then v else f j

pub record Pool (A R : Type 0) : Type 0 where
  pub items : List A
  pub cursor : ℕ
  pub workers : ℕ → Worker
  pub results : ℕ → Option R

-- `Math.min(limit, items.length)`, with `limit = Math.max(1, concurrency)`
unfoldable pub width : {A : Type 0} → (concurrency : ℕ) → List A → ℕ
width concurrency items = min (max 1 concurrency) (length items)

-- `if (i >= items.length) return;`
abbrev pub claimed : (count cursor : ℕ) → Worker
claimed count cursor = if leb count cursor then returned else working cursor

module _ {A R : Type 0} where
  -- `const i = cursor++` and the test.
  unfoldable pub claim : ℕ → Pool A R → Pool A R
  claim w p = record p {
    cursor = p.cursor + 1;
    workers = replace_at p.workers w (claimed (length p.items) p.cursor);
  }

  -- The first `count` workers, in order.
  unfoldable pub start_workers : (count : ℕ) → Pool A R → Pool A R
  unfolding claim
  start_workers zero p = p
  start_workers (suc w) p = claim w (start_workers w p)

  abbrev pub unstarted_pool : List A → Pool A R
  unstarted_pool items = record {
    items = items;
    cursor = 0;
    workers = λ w. unstarted;
    results = λ i. none;
  }

  unfoldable pub start_pool : (concurrency : ℕ) → List A → Pool A R
  unfolding start_workers width
  start_pool concurrency items = start_workers (width concurrency items) (unstarted_pool items)

  abbrev pub set_result : ℕ → R → Pool A R → Pool A R
  set_result index r p = record p { results = replace_at p.results index (some r) }

  -- The worker's call of `index` has come to a value or an exception.
  unfoldable pub settle_call : ℕ → (index : ℕ) → Settled R → Pool A R → Pool A R
  unfolding claim
  settle_call w index (fulfilled r) p = claim w (set_result index r p)
  settle_call w index (rejected reason) p = record p {
    workers = replace_at p.workers w (threw reason);
  }

module _ {A R : Type 0} (worker : A → ℕ → Settled R) where
  pub data PoolStep : Pool A R → Pool A R → Type 0 where
    settles :
        (p : Pool A R) (w index : ℕ) (item : A)
        → p.workers w ≡ working index
        → get_elem? p.items index ≡ some item
        → PoolStep p (settle_call w index (worker item index) p)

  -- The states after a number of steps.
  pub data PoolReach (concurrency : ℕ) (items : List A) : ℕ → Pool A R → Type 0 where
    started : PoolReach concurrency items 0 (start_pool concurrency items)
    then_step :
        {k : ℕ} {p q : Pool A R}
        → PoolReach concurrency items k p
        → PoolStep p q
        → PoolReach concurrency items (k + 1) q

abbrev pub first_then {ℓ} : {R : Type ℓ} → Settled R → Settled (List R) → Settled (List R)
first_then (rejected reason) rest = rejected reason
first_then (fulfilled r) (rejected reason) = rejected reason
first_then (fulfilled r) (fulfilled rs) = fulfilled (r ∷ rs)

-- What the pool implements: one call after the other.
abbrev pub sequential : {A R : Type 0} → (A → ℕ → Settled R) → ℕ → List A → Settled (List R)
sequential worker i [] = fulfilled []
sequential worker i (x ∷ xs) = first_then (worker x i) (sequential worker (i + 1) xs)

abbrev pub both {ℓ} : {R : Type ℓ} → Option R → Option (List R) → Option (List R)
both (some r) (some rs) = some (r ∷ rs)
both (some r) none = none
both none rest = none

-- The array `results` from index `i` on, none while an entry is missing.
abbrev pub entries : {R : Type 0} → (ℕ → Option R) → ℕ → (count : ℕ) → Option (List R)
entries results i zero = some []
entries results i (suc n) = both (results i) (entries results (i + 1) n)
