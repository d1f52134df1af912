-- ===== src/Delivery/Deadline/Clock.antt =====
-- The caller is answered and the queue slot freed without the scan.
use fixor.Prelude.{◌≡◌, refl, Bool, true, false, ◌||◌, List, [], ◌∷◌, ◌++◌, arith, length}
use fixor.Delivery.{ScanRunState}
use fixor.Delivery.Deadline.{
  Work, waiting, Notice, due, awaiting, SlotResult, held, Race, Event, start, arm, hold_expires,
  deadline_fires, on_deadline, answer_deadline, end_write, is_awaited, land, new_race, finish_once,
  fire, close_row, expire, start_work, arm_timer, close_late, answer_timeout, react, play,
}
use fixor.Delivery.Deadline.Invariant.{play-Inv}

-- The queue's grant of the slot, the timers with their callbacks, and the end of the row's write, which is awaited
-- without a time limit: nothing that the scan does.
abbrev pub clock : Bool → List Event
clock written =
    start
    ∷ arm
    ∷ deadline_fires
    ∷ on_deadline
    ∷ end_write written
    ∷ answer_deadline
    ∷ hold_expires
    ∷ []

abbrev pub is_held : SlotResult → Bool
is_held held = true
is_held _ = false

abbrev is_waiting : Notice → Bool
is_waiting due = true
is_waiting awaiting = true
is_waiting _ = false

abbrev has_started : Work → Bool
has_started waiting = false
has_started _ = true

play-append :
    (s : Race) (es : List Event) (fs : List Event) → play s (es ++ fs) ≡ play (play s es) fs
unfolding play
play-append s [] fs = refl
play-append s (e ∷ es) fs = play-append (react s e) es fs

abbrev is_due : Notice → Bool
is_due due = true
is_due _ = false

started : (s : Race) → has_started (react s start).work ≡ true
unfolding react start_work
started s = ground arith

set :
    (s : Race)
    → has_started s.work ≡ true
    → (has_started (react s arm).work ≡ true) × ((react s arm).raced || (react s arm).armed ≡ true)
unfolding react arm_timer
set s w = ground arith

fired :
    (s : Race)
    → has_started s.work ≡ true
    → s.raced || s.armed ≡ true
    → (has_started (react s deadline_fires).work ≡ true) × ((react s deadline_fires).raced ≡ true)
unfolding react fire
fired s w r = ground arith

notified :
    (s : Race)
    → has_started s.work ≡ true
    → s.raced ≡ true
    → (has_started (react s on_deadline).work ≡ true)
      × ((react s on_deadline).raced ≡ true)
      × (is_due (react s on_deadline).notice ≡ false)
unfolding react close_late close_row finish_once
notified s w r = ground arith

landed :
    (written : Bool) (s : Race)
    → has_started s.work ≡ true
    → s.raced ≡ true
    → is_due s.notice ≡ false
    → (has_started (react s (end_write written)).work ≡ true)
      × ((react s (end_write written)).raced ≡ true)
      × (is_due (react s (end_write written)).notice ≡ false)
      × (is_awaited false (react s (end_write written)).writing ≡ false)
unfolding react land
landed written s w r d = ground arith

answered_lem :
    (s : Race)
    → has_started s.work ≡ true
    → s.raced ≡ true
    → is_due s.notice ≡ false
    → is_awaited false s.writing ≡ false
    → (has_started (react s answer_deadline).work ≡ true)
      × ((react s answer_deadline).raced ≡ true)
      × (is_waiting (react s answer_deadline).notice ≡ false)
unfolding react answer_timeout
answered_lem s w r d free = ground arith

freed :
    (s : Race)
    → has_started s.work ≡ true
    → s.raced ≡ true
    → is_waiting s.notice ≡ false
    → ((react s hold_expires).raced ≡ true)
      × (is_waiting (react s hold_expires).notice ≡ false)
      × (is_held (react s hold_expires).slot ≡ false)
unfolding react expire
freed s w r d = ground arith

clocked :
    (written : Bool) (s : Race)
    → ((play s (clock written)).raced ≡ true)
      × (is_waiting (play s (clock written)).notice ≡ false)
      × (is_held (play s (clock written)).slot ≡ false)
unfolding play
clocked written s =
    let s1 = react s start in
    let s2 = react s1 arm in
    let s3 = react s2 deadline_fires in
    let s4 = react s3 on_deadline in
    let s5 = react s4 (end_write written) in
    let s6 = react s5 answer_deadline in
    let b = set s1 (started s) in
    let c = fired s2 b.0 b.1 in
    let d = notified s3 c.0 c.1 in
    let l = landed written s4 d.0 d.1 d.2 in
    let e = answered_lem s5 l.0 l.1 l.2 l.3 in freed s6 e.0 e.1 e.2

-- From every state of every interleaving, the queue's grant of the slot, the timers, and the end of the row's write,
-- whether it succeeds or fails, answer the caller and free the queue slot, whether or not the scan ever goes on.
pub clock_answers :
    (run : ScanRunState) (es : List Event) (written : Bool)
    → run.finished ≡ false
    → (length (play (new_race run) (es ++ clock written)).answers ≡ 1)
      × (is_held (play (new_race run) (es ++ clock written)).slot ≡ false)
clock_answers run es written h =
    let i = play-Inv run (es ++ clock written) h in
    let c = clocked written (play (new_race run) es) in
    let same = play-append (new_race run) es (clock written) in ground (arith, i, c, same)
