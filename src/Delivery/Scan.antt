-- ===== src/Delivery/Scan.antt =====
-- scanDelivery of src/integrations/github/pr-webhook-handler.ts: every call that it awaits, in order, with what
-- each comes to as an argument. The state is the run and the calls made; an exception keeps both.
use fixor.Prelude.{
  ℕ, ◌+◌, ◌*◌, Bool, true, false, ◌&&◌, Option, none, some, List, [], ◌∷◌, ◌++◌, String, ltb, leb,
}
use fixor.ScanRun.{Outcome}
use fixor.ScanRun.Verdict.{WorkflowStatus, WorkflowResult}
use fixor.Budget.{BudgetCheck, Reason, monthly_exceeded, daily_exceeded}
use fixor.Delivery.{Failure, ScanRunState}

-- GitHubApiError, and any other exception.
pub data Fault : Type 0 where
  github_error other_error : Fault

pub data Exit {ℓ} (A : Type ℓ) : Type ℓ where
  returned : A → Exit A
  threw : Fault → Exit A

pub data ScanCall : Type 0 where
  mint_token read_budget resolve_semgrep analyze_pr_diff fetch_pr_diff : ScanCall
  build_whole_file resolve_route_guards : ScanCall
  mark_running : (id : String) → ScanCall
  run_workflow : (priced : Bool) → ScanCall
  reread_budget upload_pdf upload_sarif : ScanCall
  post_comment : WorkflowStatus → ScanCall
  first_scan_email limit_warning_email : ScanCall

pub record ScanState : Type 0 where
  pub run : ScanRunState
  pub calls : List ScanCall

abbrev pub M : Type 0 → Type 0
M A = ScanState → Exit A × ScanState

unfoldable pub pure : {A : Type 0} → A → M A
pure a s = (returned a, s)

unfoldable pub raise : {A : Type 0} → Fault → M A
raise e s = (threw e, s)

abbrev pub after : {A B : Type 0} → Exit A → (A → M B) → M B
after (returned a) k s = k a s
after (threw e) k s = (threw e, s)

infixl 5 ◌>>=◌ ◌>>◌
unfoldable pub ◌>>=◌ : {A B : Type 0} → M A → (A → M B) → M B
◌>>=◌ m k s = let (exit, s') = m s in after exit k s'

abbrev pub ◌>>◌ : {B : Type 0} → M (Unit {0}) → M B → M B
◌>>◌ m k = m >>= λ _. k

-- One awaited call.
unfoldable pub perform : {A : Type 0} → ScanCall → Exit A → M A
perform call exit s = (exit, record s { calls = s.calls ++ call ∷ [] })

unfoldable pub modify : (ScanRunState → ScanRunState) → M (Unit {0})
modify change s = (returned tt, record s { run = change s.run })

abbrev pub recover : {A : Type 0} → Exit A → (Fault → M A) → M A
recover (returned a) k s = (returned a, s)
recover (threw e) k s = k e s

-- `try m catch (e) k`
unfoldable pub try_catch : {A : Type 0} → M A → (Fault → M A) → M A
try_catch m k s = let (exit, s') = m s in recover exit k s'

-- What the handler finds in the payload of a scan.
pub data ScanInput : Type 0 where
  no_input : ScanInput
  raw_text : (is_diff : Bool) → ScanInput
  structured : (scan_input_errors route_guard_errors : ℕ) → ScanInput

-- What runAuditorWorkflow comes to, with the spend of its model calls and whether a ledger write failed.
pub record WorkflowRun : Type 0 where
  pub result : WorkflowResult
  pub has_fixes : Bool
  pub spent : ℕ
  pub write_failed : Bool

-- The options that the scan reads, and what its calls come to.
pub record Env : Type 0 where
  pub token_option : String
  pub minted : Exit String
  pub env_token : String
  pub budget : Exit BudgetCheck
  pub resolver : Option (Exit ScanInput)
  pub use_pr_diff_fallback : Bool
  pub diff_findings : Exit ℕ
  pub pr_diff : Exit ScanInput
  pub has_fetch_impl : Bool
  pub scan_input_errors : Exit ℕ
  pub route_guard_errors : Exit ℕ
  pub marked : Exit (Unit {0})
  pub work : WorkflowRun
  pub post_budget : Exit BudgetCheck
  pub pdf : Exit (Unit {0})
  pub sarif : Exit (Unit {0})
  pub comment : Exit (Unit {0})

-- HandlePullRequestWebhookResult
pub data ScanResult : Type 0 where
  scan_ok : WorkflowResult → ScanResult
  scan_failed : Failure → ScanResult

-- A workflow as the handler goes on with it.
pub record ScanReport : Type 0 where
  pub result : WorkflowResult
  pub has_fixes : Bool
  pub has_warning : Bool

-- scanInputDegraded
unfoldable pub scan_input_degraded : ScanInput → Bool
scan_input_degraded (structured a b) = ltb 0 (a + b)
scan_input_degraded _ = false

-- notRunWorkflow with a status
unfoldable pub not_run_workflow : WorkflowStatus → ScanReport
not_run_workflow status = record {
  result = record {
    status = status;
    total_findings = 0;
    findings_by_detector = none;
    fixes_generated = 0;
    coverage_failed = none;
    detector_failures = none;
  };
  has_fixes = false;
  has_warning = false;
}

-- computeBudgetWarning of src/services/scan-limit-warning.ts: from 80% of the cap to below it.
unfoldable pub has_budget_warning : BudgetCheck → Bool
has_budget_warning b =
    leb (8 * b.caps.monthly_cap_usd) (10 * b.monthly_spend)
    && ltb b.monthly_spend b.caps.monthly_cap_usd

unfoldable pub refused_status : Option Reason → WorkflowStatus
refused_status (some monthly_exceeded) = WorkflowStatus.budget_exceeded
refused_status (some daily_exceeded) = WorkflowStatus.budget_exceeded
refused_status _ = WorkflowStatus.budget_unverifiable

abbrev pub set_outcome : Outcome → ScanRunState → ScanRunState
set_outcome o r = record r { outcome = some o }

abbrev pub is_absent {ℓ} : {A : Type ℓ} → Option A → Bool
is_absent none = true
is_absent (some a) = false
