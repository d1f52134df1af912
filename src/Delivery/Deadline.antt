-- ===== src/Delivery/Deadline.antt =====
-- The race of a scan with its deadline: runAccepted of src/integrations/github/pr-webhook-handler.ts with
-- withScanDeadline and holdSlotUntilSettled of src/lib/scan-deadline.ts.
--
-- One event is one turn of the event loop: a callback of a timer or of a promise, up to its next `await`. Whether an
-- event can happen is the guard of its case; an event that cannot happen leaves the state as it is, so every
-- interleaving is a list of events.
pub mod Invariant
pub mod Clock
use fixor.Prelude.{
  ℕ, zero, suc, ◌+◌, ◌-◌, ◌*◌, ◌/◌, ◌%◌, ◌≤◌, ◌<◌, min, max, ◌≡◌, ◌≢◌, ◌∙◌, refl, sym, ap, subst,
  ◌↔◌, ◌⊎◌, inl, inr, Bool, true, false, not, ◌&&◌, ◌||◌, Option, none, some, List, [], ◌∷◌, ◌++◌,
  map, String, arith, ◌^◌, ltb, leb, ◌==◌, if◌then◌else◌, ltb→lt, leb→le, ==_iff, Bool-cases,
  Option-cases, or_else, eq_of_some, length, get_elem?, drop, take, any, all, filterb,
  length-append, any-append, All, All-append, str_eq, includes, Map, get, put, remove, retain, kept,
  Distinct, get-put, get-remove, get-empty, put-Distinct, get-retain, retain-Distinct, map_laws,
  codes, codes_eq, starts_with, contains, to_lower, is_space, trim, trim_text, join, decimal,
  digits_from, is_digit, digits_from-decimal, split_from, is_empty, eq_iff, eq_refl,
}
use fixor.ScanRun.{Status, Code, Outcome, empty_outcome}
use fixor.Delivery.{ScanRunState}
use fixor.Delivery.Scan.{Exit, ScanResult, is_absent}

-- The queued work: not started, in `scanDelivery`, in the `finally` block, settled.
pub data Work : Type 0 where
  waiting scanning : Work
  closing settled : Exit ScanResult → Work

-- The callbacks of the deadline, after `fireDeadline`: `onDeadline` is due, awaits its `finishOnce`, has resolved.
pub data Notice : Type 0 where
  idle due awaiting given : Notice

-- What the task of the queue slot came to: `undefined`, or what the work came to.
pub data SlotResult : Type 0 where
  held leaked : SlotResult
  resolved : Exit ScanResult → SlotResult

pub data CallerAnswer : Type 0 where
  result : Exit ScanResult → CallerAnswer
  timed_out : CallerAnswer

-- The call of `store.finish`: not begun, awaited by the scan's `finally` block or by the deadline, over. A call that
-- fails is caught and is over as well.
pub data Writing : Type 0 where
  unbegun : Writing
  in_flight : (by_scan : Bool) → Writing
  over : (written : Bool) → Writing

pub record Race : Type 0 where
  pub run : ScanRunState
  pub work : Work
  -- the timer of `withScanDeadline` is set
  pub armed : Bool
  -- `settled` of `withScanDeadline`
  pub raced : Bool
  pub notice : Notice
  pub slot : SlotResult
  -- the calls of `store.finish`
  pub writes : List Outcome
  pub writing : Writing
  pub answers : List CallerAnswer

pub data Event : Type 0 where
  start arm : Event
  -- `scanDelivery` goes on: the fields of the run that it sets
  progress :
      (outcome : Option Outcome) (spend : ℕ) (unrecorded : Bool) (cost_ctx : Option Bool) → Event
  end_scan : Exit ScanResult → Event
  end_write : (written : Bool) → Event
  settle_work hold_expires deliver : Event
  deadline_fires on_deadline answer_deadline : Event

unfoldable pub new_race : ScanRunState → Race
new_race run = record {
  run = run;
  work = waiting;
  armed = false;
  raced = false;
  notice = idle;
  slot = held;
  writes = [];
  writing = unbegun;
  answers = [];
}

-- `run.outcome ?? emptyOutcome("failed", "internal_error")`
unfoldable pub final_outcome : ScanRunState → Outcome
final_outcome run = or_else run.outcome (empty_outcome Status.failed (some Code.internal_error))

unfoldable pub finish_once : (by_scan : Bool) → Race → Race
unfolding final_outcome
finish_once by_scan s = if is_absent s.run.id || s.run.finished then s else record s {
  run = record s.run { finished = true };
  writes = s.writes ++ final_outcome s.run ∷ [];
  writing = in_flight by_scan;
}

-- `run.costCtx?.ledgerWriteFailed === true`
abbrev pub has_failed_write : Option Bool → Bool
has_failed_write none = false
has_failed_write (some b) = b

-- The outcome that the deadline closes the row with.
unfoldable pub deadline_outcome : ScanRunState → Outcome
deadline_outcome run =
    record (if run.spend_unrecorded || has_failed_write run.cost_ctx
      then empty_outcome Status.incomplete (some Code.spend_unrecorded)
      else empty_outcome Status.failed (some Code.timed_out)) { cost_usd = run.spend }

-- The scan's own write, or the deadline's, is awaited.
abbrev pub is_awaited : (by_scan : Bool) → Writing → Bool
is_awaited true (in_flight b) = b
is_awaited false (in_flight b) = not b
is_awaited _ _ = false

unfoldable pub land : Bool → Writing → Race → Race
land written (in_flight b) s = record s { writing = over written }
land written _ s = s

-- `fireDeadline`
unfoldable pub fire : Race → Race
fire s =
    if s.raced
    then s
    else record s { raced = true; run = record s.run { cancelled = true }; notice = due }

unfoldable pub close_row : Race → Race
unfolding finish_once deadline_outcome
close_row s =
    if s.run.finished
    then s
    else finish_once false
        (record s { run = record s.run { outcome = some (deadline_outcome s.run) } })

-- The two callbacks of `scan.then`.
unfoldable pub deliver_result : SlotResult → Race → Race
unfolding fire
deliver_result held s = s
deliver_result leaked s = fire s
deliver_result (resolved exit) s =
    if s.raced then s else record s { raced = true; answers = s.answers ++ result exit ∷ [] }

unfoldable pub settle_slot : Work → SlotResult → Race → Race
settle_slot (closing exit) held s = record s { work = settled exit; slot = resolved exit }
settle_slot (closing exit) _ s = record s { work = settled exit }
settle_slot _ _ s = s

unfoldable pub expire : Work → SlotResult → Race → Race
expire waiting _ s = s
expire _ held s = record s { slot = leaked }
expire _ _ s = s

unfoldable pub start_work : Work → Race → Race
start_work waiting s = record s { work = scanning }
start_work _ s = s

unfoldable pub arm_timer : Work → Race → Race
arm_timer waiting s = s
arm_timer _ s = if s.raced then s else record s { armed = true }

unfoldable pub go_on : Work → (ScanRunState → ScanRunState) → Race → Race
go_on scanning change s = record s { run = change s.run }
go_on _ change s = s

-- The scan has returned or thrown: its `finally` block calls `finishOnce`.
unfoldable pub end_work : Work → Exit ScanResult → Race → Race
unfolding finish_once
end_work scanning exit s = record (finish_once true s) { work = closing exit }
end_work _ exit s = s

unfoldable pub close_late : Notice → Race → Race
unfolding close_row
close_late due s = record (close_row s) { notice = awaiting }
close_late _ s = s

unfoldable pub answer_timeout : Notice → Race → Race
answer_timeout awaiting s = record s { notice = given; answers = s.answers ++ timed_out ∷ [] }
answer_timeout _ s = s

unfoldable pub react : Race → Event → Race
unfolding start_work arm_timer go_on end_work settle_slot expire deliver_result fire close_late
    answer_timeout land
react s start = start_work s.work s
react s arm = arm_timer s.work s
react s (progress o n u c) =
    go_on s.work (λ r. record r { outcome = o; spend = n; spend_unrecorded = u; cost_ctx = c }) s
react s (end_scan exit) = end_work s.work exit s
react s (end_write written) = land written s.writing s
react s settle_work = if is_awaited true s.writing then s else settle_slot s.work s.slot s
react s hold_expires = expire s.work s.slot s
react s deliver = deliver_result s.slot s
react s deadline_fires = if s.armed then fire s else s
react s on_deadline = close_late s.notice s
react s answer_deadline = if is_awaited false s.writing then s else answer_timeout s.notice s

unfoldable pub play : Race → List Event → Race
unfolding react
play s [] = s
play s (e ∷ es) = play (react s e) es
