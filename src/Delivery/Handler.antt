-- ===== src/Delivery/Handler.antt =====
-- The end of scanDelivery of src/integrations/github/pr-webhook-handler.ts, its comment, mails and outcome, and the
-- whole of it.
use fixor.Prelude.{
  ℕ, ◌⊎◌, inl, inr, Bool, true, false, not, ◌&&◌, Option, none, some, ◌==◌, if◌then◌else◌,
}
use fixor.ScanRun.{Status, Code, Outcome}
use fixor.ScanRun.Verdict.{WorkflowStatus, WorkflowResult, scanned_outcome, is_skipped}
use fixor.Budget.{BudgetCheck}
use fixor.Delivery.{Failure, github_refused, ScanRunState, DeliveryContext}
use fixor.Delivery.Scan.{
  Fault, github_error, other_error, returned, ScanCall, post_comment, first_scan_email,
  limit_warning_email, M, pure, raise, ◌>>=◌, ◌>>◌, perform, modify, try_catch, ScanInput, Env,
  ScanResult, scan_ok, scan_failed, ScanReport, scan_input_degraded, set_outcome,
}
use fixor.Delivery.Phases.{get_token, get_budget, fetch_unless, get_report, upload_reports}

-- `scannedOutcome(run, workflow, inputDegraded)`
unfoldable pub verdict_of : ScanRunState → WorkflowResult → Bool → Outcome
verdict_of r w degraded = scanned_outcome r.spend_unrecorded r.spend w degraded

-- A skipped delivery stays skipped; any other whose comment was refused has failed.
unfoldable pub refused_outcome : Outcome → Outcome
refused_outcome o =
    if is_skipped o.status
    then o
    else record o { status = Status.failed; code = some Code.comment_refused }

-- `installationId` in a condition: not null and not 0.
abbrev pub is_truthy : Option ℕ → Bool
is_truthy none = false
is_truthy (some n) = not (n == 0)

-- The statuses of a scan that was refused for want of a known budget or a ledger.
abbrev pub is_unannounced : WorkflowStatus → Bool
is_unannounced WorkflowStatus.budget_unverifiable = true
is_unannounced WorkflowStatus.spend_unrecordable = true
is_unannounced _ = false

module _ (env : Env) (ctx : DeliveryContext) where
  -- Mails are sent and not awaited.
  unfoldable pub send_if : Bool → ScanCall → M (Unit {0})
  send_if wanted call = if wanted then perform call (returned tt) else pure tt

  unfoldable pub set_verdict :
      (WorkflowResult → ScanRunState → Outcome) → WorkflowResult → M (Unit {0})
  set_verdict outcome w = modify (λ r. set_outcome (outcome w r) r)

  unfoldable pub posted : ScanReport → Bool → M ScanResult
  unfolding send_if set_verdict
  posted report degraded = do
    perform (post_comment report.result.status) env.comment
    send_if
        (not ctx.dry_run
          && (is_truthy ctx.installation_id && not (is_unannounced report.result.status)))
        first_scan_email
    send_if (not ctx.dry_run && (is_truthy ctx.installation_id && report.has_warning))
        limit_warning_email
    set_verdict (λ w r. verdict_of r w degraded) report.result
    pure (scan_ok report.result)

  unfoldable pub not_posted : ScanReport → Bool → Fault → M ScanResult
  unfolding set_verdict
  not_posted report degraded github_error = do
    set_verdict (λ w r. refused_outcome (verdict_of r w degraded)) report.result
    pure (scan_failed github_refused)
  not_posted report degraded other_error = raise other_error

  unfoldable pub post_report : ScanReport → Bool → M ScanResult
  unfolding posted not_posted
  post_report report degraded = try_catch (posted report degraded) (not_posted report degraded)

  unfoldable pub conclude : ScanInput → ScanReport → M ScanResult
  conclude input report = do
    upload_reports env ctx report.has_fixes
    post_report report (scan_input_degraded input)

  unfoldable pub with_input : Option BudgetCheck → ScanInput ⊎ Failure → M ScanResult
  with_input budget (inr failure) = pure (scan_failed failure)
  with_input budget (inl input) = do report ← get_report env ctx budget; conclude input report

  abbrev pub is_refused : Option BudgetCheck → Bool
  is_refused none = false
  is_refused (some b) = not b.within_budget

  unfoldable pub scan_delivery : M ScanResult
  unfolding with_input conclude
  scan_delivery = do
    token ← get_token env ctx
    budget ← get_budget env ctx
    input ← fetch_unless env ctx (is_refused budget) token
    with_input budget input
