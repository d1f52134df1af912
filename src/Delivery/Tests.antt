-- ===== src/Delivery/Tests.antt =====
-- Deliveries from their acceptance to their rows, and the theorems of this part at concrete inputs.
use fixor.Prelude.{
  if◌then◌else◌, ◌&&◌, ltb, ℕ, ◌≤◌, ◌<◌, ◌≡◌, refl, true, false, none, some, List, [], ◌∷◌, ◌++◌,
  String, arith, length, any,
}
use fixor.ScanRun.{Status, Code, empty_outcome}
use fixor.ScanRun.Verdict.{WorkflowStatus, WorkflowResult}
use fixor.ScanRun.Store.Deliveries.{empty, empty-IsValid}
use fixor.Budget.{BudgetCheck}
use fixor.Webhook.{Json, text, number, object, no_members, member}
use fixor.Webhook.Payload.{ValidatedWebhook}
use fixor.Delivery.{unchecked, ScanRunState, DeliveryContext}
use fixor.Delivery.Accept.{Options, accept_delivery, context_of}
use fixor.Delivery.Recorded.{gives, db_create, Recorded, accept_delivery-Recorded}
use fixor.Delivery.Phases.{get_token, get_budget, fetch_unless, get_report, upload_reports}
use fixor.Delivery.Scan.{
  is_absent, has_budget_warning, ◌>>=◌, perform, pure, try_catch, modify, returned, threw,
  other_error, ScanState, structured, Env,
}
use fixor.Delivery.Handler.{scan_delivery, post_report}
use fixor.Delivery.Untouched.{is_priced}
use fixor.Delivery.Guard.{Granted, scan_guarded}
use fixor.Delivery.Outcomes.{Concluded, scan_delivery-Concluded}
use fixor.Delivery.Deadline.{
  Event, start, arm, progress, end_scan, settle_work, deliver, deadline_fires, on_deadline,
  answer_deadline, end_write, is_awaited, new_race, play,
}
use fixor.Delivery.Deadline.Invariant.{is_result, written_once, is_settled}
use fixor.Delivery.Deadline.Clock.{clock, is_held, clock_answers}

abbrev hmac : String → String → List ℕ
hmac secret raw = []

abbrev payload : Json
payload = object (
    member "repository"
      (object (
        member "owner" (object (member "login" (text "o") no_members))
          (member "name" (text "r") no_members)))
      (member "pull_request"
        (object (
          member "number" (number 3)
            (member "head" (object (member "sha" (text "abc") no_members)) no_members)))
        (member "installation" (object (member "id" (number 7) no_members)) no_members)))

abbrev options : Options
options = record {
  raw_body = "{}";
  payload = payload;
  signature_header = none;
  webhook_secret = none;
  skip_signature_verification = true;
  dry_run = false;
  delivery_id = some "d1";
  allow_unpriced_scan = false;
}

abbrev pull : ValidatedWebhook
pull = record { owner = "o"; repo = "r"; pull_number = 3; head_sha = "abc"; action = none }

abbrev ctx : DeliveryContext
ctx = context_of options unchecked (some 7) pull

abbrev run : ScanRunState
run = record {
  id = some "r1";
  outcome = none;
  spend = 0;
  pre_scan_write_failed = false;
  spend_unrecorded = false;
  finished = false;
  cancelled = false;
  cost_ctx = none;
}

abbrev budget : BudgetCheck
budget = record {
  within_budget = true;
  reason = none;
  monthly_spend = 1;
  daily_spend = 1;
  caps = record { monthly_cap_usd = 50; daily_cap_usd = 10 };
  failure = none;
}

abbrev workflow : WorkflowResult
workflow = record {
  status = WorkflowStatus.success;
  total_findings = 2;
  findings_by_detector = none;
  fixes_generated = 0;
  coverage_failed = some 0;
  detector_failures = some 0;
}

abbrev env : Env
env = record {
  token_option = "";
  minted = returned "t";
  env_token = "";
  budget = returned budget;
  resolver = none;
  use_pr_diff_fallback = false;
  diff_findings = returned 0;
  pr_diff = returned (structured 0 0);
  has_fetch_impl = false;
  scan_input_errors = returned 0;
  route_guard_errors = returned 0;
  marked = returned tt;
  work = record { result = workflow; has_fixes = false; spent = 4; write_failed = false };
  post_budget = returned budget;
  pdf = returned tt;
  sarif = returned tt;
  comment = returned tt;
}

abbrev before : ScanState
before = record { run = run; calls = [] }

accept_delivery-Recorded_example :
    Recorded hmac
      (gives "r1")
      options
      10
      empty
      (accept_delivery hmac (db_create (gives "r1")) options 10 empty)
accept_delivery-Recorded_example =
    accept_delivery-Recorded hmac (gives "r1") options 10 empty empty-IsValid

priced : any is_priced (scan_delivery env ctx before).1.calls ≡ true
unfolding scan_delivery ◌>>=◌ get_token perform pure get_budget fetch_unless try_catch get_report
    modify upload_reports post_report has_budget_warning
priced = refl

scan_guarded_example : Granted env ctx (some "r1") false
scan_guarded_example = scan_guarded env ctx run priced

scan_delivery-Concluded_example :
    Concluded env ctx (scan_delivery env ctx before).0 (scan_delivery env ctx before).1
scan_delivery-Concluded_example = scan_delivery-Concluded env ctx before

-- The deadline wins, and the scan ends after it.
abbrev late : List Event
late =
    start
    ∷ arm
    ∷ progress none 5 false (some false)
    ∷ deadline_fires
    ∷ on_deadline
    ∷ end_write false
    ∷ answer_deadline
    ∷ end_scan (threw other_error)
    ∷ settle_work
    ∷ deliver
    ∷ []

timed_out_row :
    (play (new_race run) late).writes
    ≡ record (empty_outcome Status.failed (some Code.timed_out)) { cost_usd = 5 } ∷ []
unfolding play new_race empty_outcome
timed_out_row = refl

written_once_example :
    (length (play (new_race run) late).writes ≤ 1)
    × (length (play (new_race run) late).answers ≤ 1)
    × (length (play (new_race run) late).answers
        ≤ (if is_absent run.id then 1 else length (play (new_race run) late).writes))
    × (any is_result (play (new_race run) late).answers
          && is_awaited true (play (new_race run) late).writing
        ≡ false)
    × (is_awaited false (play (new_race run) late).writing
          && ltb 0 (length (play (new_race run) late).answers)
        ≡ false)
written_once_example = written_once run late refl

abbrev hung : List Event
hung = start ∷ arm ∷ deadline_fires ∷ on_deadline ∷ end_write true ∷ answer_deadline ∷ []

hung_answered : 0 < length (play (new_race run) hung).answers
unfolding play new_race
hung_answered = omega arith

hung_unsettled : is_settled (play (new_race run) hung).work ≡ false
unfolding play new_race
hung_unsettled = refl

clock_answers_example :
    (length (play (new_race run) (late ++ clock true)).answers ≡ 1)
    × (is_held (play (new_race run) (late ++ clock true)).slot ≡ false)
clock_answers_example = clock_answers run late true refl
