-- ===== src/Api/Scan.antt =====
-- runApiScan of src/server/api-scan.ts. What the queue and the deadline make of the scan (Queue, Delivery.Deadline) is an
-- argument: whether the deadline answers first.
use fixor.Prelude.{
  ℕ, Bool, true, false, Option, none, some, List, [], ◌∷◌, String, if◌then◌else◌, str_eq,
}
use fixor.Budget.{BudgetCheck}
use fixor.Budget.Gate.{RefusalBody, BudgetRefusalHttp, budget_refusal_http}
use fixor.Workflow.{Settled, fulfilled, rejected, AuditResult}

-- The calls that a request makes.
pub data ApiCall : Type 0 where
  check_budget : (installation_id : String) → ApiCall
  run_workflow : (installation_id diff scan_id : String) → ApiCall
  mark_used : (token_id : String) → ApiCall

-- A response's body; an error by its text.
pub data ApiBody : Type 0 where
  error_body : String → ApiBody
  rate_limited : (retry_after_seconds : ℕ) → ApiBody
  refused_body : RefusalBody → ApiBody
  scan_body : AuditResult → ApiBody

pub record ApiScanResponse : Type 0 where
  pub status : ℕ
  pub ran : Bool
  pub body : ApiBody
  pub retry_after_seconds : Option ℕ

-- What the scan's calls come to. `ledger_write_failed` is that of the cost context when the scan has settled.
pub record ScanDeps : Type 0 where
  pub budget : String → Settled BudgetCheck
  pub workflow : String → String → Settled AuditResult
  pub timed_out : Bool
  pub ledger_write_failed : Bool

pub record ApiScanResult : Type 0 where
  pub response : Settled ApiScanResponse
  pub calls : List ApiCall

abbrev pub error_response : (status : ℕ) → (ran : Bool) → String → Option ℕ → ApiScanResponse
error_response status ran error retry = record {
  status = status;
  ran = ran;
  body = error_body error;
  retry_after_seconds = retry;
}

abbrev pub workflow_response : (ledger_write_failed : Bool) → AuditResult → ApiScanResponse
workflow_response ledger_write_failed r =
    if ledger_write_failed
    then error_response 503 true "spend_unrecorded" (some 60)
    else record { status = 200; ran = true; body = scan_body r; retry_after_seconds = none }

unfoldable pub finished_scan : ScanDeps → Settled AuditResult → Settled ApiScanResponse
finished_scan deps (fulfilled r) = fulfilled (workflow_response deps.ledger_write_failed r)
finished_scan deps (rejected reason) = rejected reason

abbrev pub or_timed_out : ScanDeps → Settled ApiScanResponse → Settled ApiScanResponse
or_timed_out deps response =
    if deps.timed_out then fulfilled (error_response 504 true "scan_timed_out" none) else response

module _ (deps : ScanDeps) (installation_id diff scan_id : String) where
  -- `work`, from the budget's answer on.
  unfoldable pub run_unless_refused : Option BudgetRefusalHttp → ApiScanResult
  unfolding finished_scan
  run_unless_refused (some h) = record {
    response = or_timed_out deps (
        fulfilled (record {
          status = h.status;
          ran = false;
          body = refused_body h.body;
          retry_after_seconds = h.retry_after_seconds;
        }));
    calls = check_budget installation_id ∷ [];
  }
  run_unless_refused none = record {
    response = or_timed_out deps (finished_scan deps (deps.workflow diff scan_id));
    calls = check_budget installation_id ∷ run_workflow installation_id diff scan_id ∷ [];
  }

  unfoldable pub gated : Settled BudgetCheck → ApiScanResult
  unfolding run_unless_refused
  gated (rejected reason) = record {
    response = or_timed_out deps (rejected reason);
    calls = check_budget installation_id ∷ [];
  }
  gated (fulfilled budget) = run_unless_refused (budget_refusal_http budget)

abbrev pub given_installation : Option String → Option String
given_installation none = none
given_installation (some s) = if str_eq s "" then none else some s

unfoldable pub scan_installation : ScanDeps → Option String → String → String → ApiScanResult
unfolding gated
scan_installation deps none diff scan_id = record {
  response = fulfilled (error_response 503 false "spend_unrecordable" none);
  calls = [];
}
scan_installation deps (some installation_id) diff scan_id =
    gated deps installation_id diff scan_id (deps.budget installation_id)

unfoldable pub run_api_scan : ScanDeps → Option String → String → String → ApiScanResult
unfolding scan_installation
run_api_scan deps installation_id diff scan_id =
    scan_installation deps (given_installation installation_id) diff scan_id
