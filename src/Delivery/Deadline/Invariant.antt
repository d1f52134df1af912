-- ===== src/Delivery/Deadline/Invariant.antt =====
-- What holds of a scan and its deadline in every interleaving.
use fixor.Prelude.{
  ◌≤◌, ◌<◌, ◌≡◌, ◌∙◌, refl, inl, inr, Bool, true, false, not, ◌&&◌, ◌||◌, List, [], ◌∷◌, arith, ltb,
  if◌then◌else◌, Bool-cases, length, any, length-append, any-append,
}
use fixor.Delivery.{ScanRunState}
use fixor.Delivery.Scan.{Exit, ScanResult, is_absent}
use fixor.Delivery.Deadline.{
  Work, closing, settled, Notice, idle, awaiting, given, SlotResult, held, leaked, resolved, result,
  timed_out, CallerAnswer, Writing, unbegun, is_awaited, land, end_write, Race, Event, start, arm,
  progress, end_scan, settle_work, hold_expires, deliver, deadline_fires, on_deadline,
  answer_deadline, new_race, final_outcome, finish_once, deadline_outcome, fire, close_row,
  deliver_result, settle_slot, expire, start_work, arm_timer, go_on, end_work, close_late,
  answer_timeout, react, play,
}

-- The write of the row's final state has begun, or there is no row.
abbrev pub is_closed : Race → Bool
is_closed s = s.run.finished || is_absent s.run.id

abbrev has_ended : Work → Bool
has_ended (closing e) = true
has_ended (settled e) = true
has_ended _ = false

abbrev pub is_settled : Work → Bool
is_settled (settled e) = true
is_settled _ = false

abbrev is_resolved : SlotResult → Bool
is_resolved (resolved e) = true
is_resolved _ = false

abbrev is_idle : Notice → Bool
is_idle idle = true
is_idle _ = false

abbrev has_closed : Notice → Bool
has_closed awaiting = true
has_closed given = true
has_closed _ = false

abbrev is_given : Notice → Bool
is_given given = true
is_given _ = false

abbrev is_unbegun : Writing → Bool
is_unbegun unbegun = true
is_unbegun _ = false

abbrev is_ending : Work → Bool
is_ending (closing e) = true
is_ending _ = false

abbrev is_calling : Notice → Bool
is_calling awaiting = true
is_calling _ = false

abbrev pub is_result : CallerAnswer → Bool
is_result (result e) = true
is_result timed_out = false

pub record Inv (s : Race) : Type 0 where
  pub written : length s.writes ≡ (if s.run.finished then 1 else 0)
  pub rowless : is_absent s.run.id ≡ true → s.run.finished ≡ false
  pub ended_closed : has_ended s.work ≡ true → is_closed s ≡ true
  pub resolved_settled : is_resolved s.slot ≡ true → is_settled s.work ≡ true
  pub notified_closed : has_closed s.notice ≡ true → is_closed s ≡ true
  pub noticed_raced : is_idle s.notice ≡ false → (s.raced ≡ true) × (s.run.cancelled ≡ true)
  pub raced_settled : s.raced ≡ true → is_idle s.notice ≡ true → is_settled s.work ≡ true
  pub begun : is_unbegun s.writing ≡ not s.run.finished
  pub scan_awaits : is_awaited true s.writing ≡ true → is_ending s.work ≡ true
  pub deadline_awaits : is_awaited false s.writing ≡ true → is_calling s.notice ≡ true
  pub result_settled : any is_result s.answers ≡ true → is_settled s.work ≡ true
  pub answered :
      length s.answers ≡ (if s.raced && (is_idle s.notice || is_given s.notice) then 1 else 0)

new_race-Inv : (run : ScanRunState) → run.finished ≡ false → Inv (new_race run)
unfolding new_race
new_race-Inv run h = ground arith

start_work-Inv : (w : Work) (s : Race) → w ≡ s.work → Inv s → Inv (start_work w s)
unfolding start_work
start_work-Inv w s same h = ground arith

arm_timer-Inv : (w : Work) (s : Race) → w ≡ s.work → Inv s → Inv (arm_timer w s)
unfolding arm_timer
arm_timer-Inv w s same h = ground arith

end_work-Inv :
    (w : Work) (exit : Exit ScanResult) (s : Race) → w ≡ s.work → Inv s → Inv (end_work w exit s)
unfolding end_work finish_once
end_work-Inv w exit s same h = ground (arith, length-append s.writes (final_outcome s.run ∷ []))

settle_slot-Inv :
    (w : Work) (slot : SlotResult) (s : Race)
    → w ≡ s.work
    → slot ≡ s.slot
    → is_awaited true s.writing ≡ false
    → Inv s
    → Inv (settle_slot w slot s)
unfolding settle_slot
settle_slot-Inv w slot s same same' free h = ground arith

expire-Inv :
    (w : Work) (slot : SlotResult) (s : Race)
    → w ≡ s.work
    → slot ≡ s.slot
    → Inv s
    → Inv (expire w slot s)
unfolding expire
expire-Inv w slot s same same' h = ground arith

fire-Inv : (s : Race) → Inv s → Inv (fire s)
unfolding fire
fire-Inv s h = ground arith

deliver_result-Inv :
    (slot : SlotResult) (s : Race) → slot ≡ s.slot → Inv s → Inv (deliver_result slot s)
unfolding deliver_result
deliver_result-Inv held s same h = h
deliver_result-Inv leaked s same h = fire-Inv s h
deliver_result-Inv (resolved exit) s same h = ground (
  arith,
  length-append s.answers (result exit ∷ []),
  any-append is_result s.answers (result exit ∷ []),
)

close_late-Inv : (n : Notice) (s : Race) → n ≡ s.notice → Inv s → Inv (close_late n s)
unfolding close_late close_row finish_once
close_late-Inv n s same h = ground (arith, length-append s.writes (deadline_outcome s.run ∷ []))

answer_timeout-Inv :
    (n : Notice) (s : Race)
    → n ≡ s.notice
    → is_awaited false s.writing ≡ false
    → Inv s
    → Inv (answer_timeout n s)
unfolding answer_timeout
answer_timeout-Inv n s same free h = ground (
  arith,
  length-append s.answers (timed_out ∷ []),
  any-append is_result s.answers (timed_out ∷ []),
)

land-Inv :
    (written : Bool) (x : Writing) (s : Race) → x ≡ s.writing → Inv s → Inv (land written x s)
unfolding land
land-Inv written x s same h = ground arith

react-Inv : (s : Race) (e : Event) → Inv s → Inv (react s e)
unfolding react
react-Inv s start h = start_work-Inv s.work s refl h
react-Inv s arm h = arm_timer-Inv s.work s refl h
react-Inv s (progress o n u c) h = ground (arith, h)
react-Inv s (end_scan exit) h = end_work-Inv s.work exit s refl h
react-Inv s (end_write written) h = land-Inv written s.writing s refl h
react-Inv s settle_work h = elim (Bool-cases (is_awaited true s.writing)) [
  | inl locked ↦ rw locked h
  | inr free ↦ rw free (settle_slot-Inv s.work s.slot s refl refl free h)
]
react-Inv s hold_expires h = expire-Inv s.work s.slot s refl refl h
react-Inv s deliver h = deliver_result-Inv s.slot s refl h
react-Inv s deadline_fires h = elim s.armed as (λ b. Inv (if b then fire s else s)) [
  | true ↦ fire-Inv s h
  | false ↦ h
]
react-Inv s on_deadline h = close_late-Inv s.notice s refl h
react-Inv s answer_deadline h = elim (Bool-cases (is_awaited false s.writing)) [
  | inl locked ↦ rw locked h
  | inr free ↦ rw free (answer_timeout-Inv s.notice s refl free h)
]

play_from-Inv : (s : Race) (es : List Event) → Inv s → Inv (play s es)
unfolding play
play_from-Inv s [] h = h
play_from-Inv s (e ∷ es) h = play_from-Inv (react s e) es (react-Inv s e h)

pub play-Inv :
    (run : ScanRunState) (es : List Event) → run.finished ≡ false → Inv (play (new_race run) es)
play-Inv run es h = play_from-Inv (new_race run) es (new_race-Inv run h)

react-id : (s : Race) (e : Event) → (react s e).run.id ≡ s.run.id
unfolding react start_work arm_timer go_on end_work settle_slot expire deliver_result fire
    close_late close_row finish_once answer_timeout land
react-id s e = ground arith

pub play-id : (s : Race) (es : List Event) → (play s es).run.id ≡ s.run.id
unfolding play
play-id s [] = refl
play-id s (e ∷ es) = play-id (react s e) es ∙ react-id s e

-- In every interleaving of the scan, its deadline and its queue slot, the row's `finish` is called at most once, the
-- caller is answered at most once, and a run with a row is answered only after that call. The caller never gets the
-- scan's result while the scan's own call is under way, and no answer at all while the deadline's own call is.
pub written_once :
    (run : ScanRunState) (es : List Event)
    → run.finished ≡ false
    → (length (play (new_race run) es).writes ≤ 1)
      × (length (play (new_race run) es).answers ≤ 1)
      × (length (play (new_race run) es).answers
          ≤ (if is_absent run.id then 1 else length (play (new_race run) es).writes))
      × (any is_result (play (new_race run) es).answers
            && is_awaited true (play (new_race run) es).writing
          ≡ false)
      × (is_awaited false (play (new_race run) es).writing
            && ltb 0 (length (play (new_race run) es).answers)
          ≡ false)
unfolding new_race
written_once run es h = let i = play-Inv run es h in ground (arith, i, play-id (new_race run) es)

-- If the caller has been answered and the scan has not settled, the scan's later model calls are refused.
pub answered_cancelled :
    (run : ScanRunState) (es : List Event)
    → run.finished ≡ false
    → 0 < length (play (new_race run) es).answers
    → is_settled (play (new_race run) es).work ≡ false
    → (play (new_race run) es).run.cancelled ≡ true
answered_cancelled run es h a w = let i = play-Inv run es h in ground (arith, i)
