-- ===== src/Workers/Tests.antt =====
-- The pool on three items and two workers.
use fixor.Prelude.{ℕ, ◌+◌, ◌<◌, ◌≡◌, refl, ◌⊎◌, some, List, [], ◌∷◌, length}
use fixor.Workflow.{Settled, fulfilled}
use fixor.Workers.{
  Pool, width, PoolReach, PoolStep, settles, started, then_step, sequential, entries, start_pool,
  settle_call, start_workers, claim,
}
use fixor.Workers.Order.{IsDone, pool_refines_sequential}

abbrev double : ℕ → ℕ → Settled ℕ
double x i = fulfilled (x + x + i)

abbrev three : List ℕ
three = 5 ∷ 6 ∷ 7 ∷ []

abbrev begun_pool : Pool ℕ ℕ
begun_pool = start_pool 2 three

-- The second worker's call settles first.
abbrev one_done : Pool ℕ ℕ
one_done = settle_call 1 1 (double 6 1) begun_pool

abbrev all_done : Pool ℕ ℕ
all_done = settle_call 1 2 (double 7 2) (settle_call 0 0 (double 5 0) one_done)

all_done-PoolReach : PoolReach double 2 three 3 all_done
unfolding start_pool settle_call start_workers claim width
all_done-PoolReach =
    then_step
      (then_step (then_step started (settles begun_pool 1 1 6 refl refl))
        (settles one_done 0 0 5 refl refl))
      (settles (settle_call 0 0 (double 5 0) one_done) 1 2 7 refl refl)

pool_refines_sequential_example :
    ((3 < length three) × ((q : Pool ℕ ℕ) × PoolStep double all_done q))
    ⊎ ((3 ≡ length three)
        × IsDone (width 2 three) all_done
        × ((rs : List ℕ) × (entries all_done.results 0 (length three) ≡ some rs)
            × (sequential double 0 three ≡ fulfilled rs)))
pool_refines_sequential_example =
    pool_refines_sequential double (λ x i. (x + x + i, refl)) 2 three 3 all_done all_done-PoolReach

in_order : sequential double 0 three ≡ fulfilled (10 ∷ 13 ∷ 16 ∷ [])
in_order = refl
