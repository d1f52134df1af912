-- ===== src/Queue/Tests.antt =====
-- A run of the scan queue with one slot, and the theorems at it.
use fixor.Prelude.{ℕ, ◌≤◌, ◌<◌, ◌≡◌, refl, true, false, [], arith, get, put}
use fixor.Queue.{
  holding, finished, Queue, is_holding, begin, settled, acquire, settle, begins, resumes, settles,
  Reach, made, then_step, new, fresh,
}
use fixor.Queue.Counting.{count}
use fixor.Queue.Exclusion.{running-le-max, earlier_finished, holder_unique}
use fixor.Queue.Progress.{CanMove, never_stuck}

-- Two calls for "a" and one for "b"; the first gets the slot, the third waits for it.
abbrev called : Queue
called = begin "b" (begin "a" (begin "a" (fresh 1)))

abbrev contended : Queue
contended = acquire 2 (acquire 0 called)

called-Reach : Reach 1 called
unfolding new
called-Reach =
    then_step (then_step (then_step (made (fresh 1) refl) (begins _ "a")) (begins _ "a"))
      (begins _ "b")

contended-Reach : Reach 1 contended
unfolding begin settled acquire get put
contended-Reach =
    then_step (then_step called-Reach (resumes called 0 refl refl))
      (resumes (acquire 0 called) 2 refl refl)

-- The holder settles: the waiting ticket takes over, and only then may the second "a" go on.
abbrev passed_on : Queue
passed_on = settle 0 contended

passed_on-Reach : Reach 1 passed_on
unfolding begin acquire
passed_on-Reach = then_step contended-Reach (settles contended 0 refl)

passed_on_test :
    (passed_on.running ≡ 1)
    × (passed_on.waiting ≡ [])
    × (passed_on.phase 2 ≡ holding)
    × (settled passed_on (passed_on.previous 1) ≡ true)
    × (settled contended (contended.previous 1) ≡ false)
unfolding begin acquire settle settled get put
passed_on_test = (refl, refl, refl, refl, refl)

running-le-max_example :
    (count is_holding contended.phase contended.next ≡ contended.running) × (contended.running ≤ 1)
running-le-max_example = running-le-max contended-Reach

-- The second ticket of "a" gets the slot after the first one is done.
abbrev second_turn : Queue
second_turn = acquire 1 passed_on

second_turn-Reach : Reach 1 second_turn
unfolding begin acquire settle settled get put
second_turn-Reach = then_step passed_on-Reach (resumes passed_on 1 refl refl)

earlier_finished_example : second_turn.phase 0 ≡ finished
unfolding begin acquire settle get put
earlier_finished_example = earlier_finished 0 1 second_turn-Reach (omega arith) refl refl

holder_unique_example : ◌≡◌ {A = ℕ} 2 2
unfolding begin acquire settle get put
holder_unique_example = holder_unique 2 2 passed_on-Reach refl refl refl

never_stuck_example : (j : ℕ) × CanMove contended j
unfolding begin acquire
never_stuck_example = never_stuck 1 contended-Reach (omega arith) (λ e. cc)

abbrev lone : Queue
lone = settle 0 (acquire 0 (begin "a" (fresh 2)))

lone-Reach : Reach 2 lone
unfolding new begin settled acquire get
lone-Reach =
    then_step (then_step (then_step (made (fresh 2) refl) (begins _ "a")) (resumes _ 0 refl refl))
      (settles _ 0 refl)

lone_over : (i : ℕ) → i < lone.next → lone.phase i ≡ finished
unfolding begin acquire settle get put
lone_over i h = ground arith
