-- ===== src/Delivery/Phases.antt =====
-- The phases of scanDelivery of src/integrations/github/pr-webhook-handler.ts, in order, and the whole.
use fixor.Prelude.{
  ℕ, ◌+◌, ◌⊎◌, inl, inr, Bool, true, false, not, ◌&&◌, ◌||◌, Option, none, some, String, ltb,
  if◌then◌else◌, str_eq, trim_text,
}
use fixor.ScanRun.{Status, Code, empty_outcome}
use fixor.ScanRun.Verdict.{WorkflowStatus}
use fixor.Budget.{BudgetCheck}
use fixor.Delivery.{Failure, token_missing, github_refused, ScanRunState, DeliveryContext}
use fixor.Delivery.Scan.{
  Fault, github_error, other_error, Exit, returned, mint_token, read_budget, resolve_semgrep,
  analyze_pr_diff, fetch_pr_diff, build_whole_file, resolve_route_guards, mark_running,
  run_workflow, reread_budget, upload_pdf, upload_sarif, M, pure, raise, ◌>>=◌, ◌>>◌, perform,
  modify, try_catch, ScanInput, no_input, raw_text, structured, Env, ScanReport, not_run_workflow,
  has_budget_warning, refused_status, set_outcome, is_absent,
}

module _ (env : Env) (ctx : DeliveryContext) where
  -- The token: the option's, else one minted for the installation, else that of the environment.
  unfoldable pub or_env : String → M String
  or_env token = pure (if str_eq token "" then trim_text env.env_token else token)

  unfoldable pub mint : Option ℕ → M String
  unfolding or_env
  mint none = or_env ""
  mint (some installation) = perform mint_token env.minted >>= or_env

  unfoldable pub get_token : M String
  unfolding mint
  get_token =
      if str_eq (trim_text env.token_option) ""
      then mint ctx.installation_id
      else pure (trim_text env.token_option)

  unfoldable pub read_if : Option ℕ → M (Option BudgetCheck)
  read_if none = pure none
  read_if (some installation) = perform read_budget env.budget >>= λ b. pure (some b)

  -- The gate, before anything is fetched.
  unfoldable pub get_budget : M (Option BudgetCheck)
  unfolding read_if
  get_budget = read_if ctx.installation_id

  -- The scan ends before there is anything to analyse.
  unfoldable pub fail_with : Code → Failure → M (ScanInput ⊎ Failure)
  fail_with code failure = do
    modify (set_outcome (empty_outcome Status.failed (some code)))
    pure (inr failure)

  -- The diff's findings where the resolver has none.
  unfoldable pub fall_back : String → ScanInput → M ScanInput
  fall_back token no_input =
      if env.use_pr_diff_fallback && not (str_eq token "")
      then (do
        found ← perform analyze_pr_diff env.diff_findings
        pure (if ltb 0 found then structured 0 0 else no_input))
      else pure no_input
  fall_back token input = pure input

  unfoldable pub fetched : String → Option (Exit ScanInput) → M (ScanInput ⊎ Failure)
  unfolding fall_back
  fetched token (some resolved) = do
    input ← perform resolve_semgrep resolved
    input' ← fall_back token input
    pure (inl input')
  fetched token none =
      if str_eq token ""
      then fail_with Code.internal_error token_missing
      else (perform fetch_pr_diff env.pr_diff >>= λ input. pure (inl input))

  -- A raw diff becomes whole-file input.
  unfoldable pub enrich : ScanInput ⊎ Failure → M (ScanInput ⊎ Failure)
  enrich (inl (raw_text true)) =
      if is_absent env.resolver || env.has_fetch_impl
      then (do
        errors ← perform build_whole_file env.scan_input_errors
        guards ← perform resolve_route_guards env.route_guard_errors
        pure (inl (structured errors guards)))
      else pure (inl (raw_text true))
  enrich input = pure input

  unfoldable pub refused_fetch : Fault → M (ScanInput ⊎ Failure)
  refused_fetch github_error = fail_with Code.pr_fetch_refused github_refused
  refused_fetch other_error = raise other_error

  unfoldable pub fetch_input : String → M (ScanInput ⊎ Failure)
  unfolding fetched enrich refused_fetch
  fetch_input token = try_catch (fetched token env.resolver >>= enrich) refused_fetch

  -- A refused budget fetches nothing.
  unfoldable pub fetch_unless : Bool → String → M (ScanInput ⊎ Failure)
  unfolding fetch_input
  fetch_unless refused token = if refused then pure (inl no_input) else fetch_input token

  -- runAuditorWorkflow, with what it adds to the run.
  unfoldable pub run_work : Bool → M ScanReport
  run_work priced = do
    perform (run_workflow priced) (returned tt)
    pure (record { result = env.work.result; has_fixes = env.work.has_fixes; has_warning = false })

  unfoldable pub note_work : ScanRunState → ScanRunState
  note_work r = record r {
    spend = r.spend + env.work.spent;
    cost_ctx = some env.work.write_failed;
    spend_unrecorded = env.work.write_failed || r.spend_unrecorded;
  }

  -- The budget after the scan; a failure to read it is only logged.
  unfoldable pub warned : ScanReport → M ScanReport
  warned report =
      try_catch
        (perform reread_budget env.post_budget >>= λ b.
          pure (record report { has_warning = has_budget_warning b }))
        (λ e. pure report)

  unfoldable pub priced_work : M ScanReport
  unfolding run_work note_work warned
  priced_work = do
    modify (λ r. record r { cost_ctx = some false })
    report ← run_work true
    modify note_work
    warned report

  unfoldable pub work_unless : Bool → M ScanReport
  unfolding priced_work
  work_unless failed =
      if failed then pure (not_run_workflow WorkflowStatus.spend_unrecordable) else priced_work

  -- The run's row says running before the first model call.
  unfoldable pub mark_row : Option String → M (Unit {0})
  mark_row none = pure tt
  mark_row (some id) =
      try_catch (perform (mark_running id) env.marked)
        (λ e. modify (λ r. record r { pre_scan_write_failed = true }))

  unfoldable pub mark : M (Unit {0})
  unfolding mark_row
  mark s = (if s.run.pre_scan_write_failed then pure tt else mark_row s.run.id) s

  unfoldable pub get_failed : M Bool
  get_failed s = (returned s.run.pre_scan_write_failed, s)

  unfoldable pub work_within : M ScanReport
  unfolding mark get_failed work_unless
  work_within = do mark; failed ← get_failed; work_unless failed

  -- The scan of an installation is priced and guarded; any other is neither.
  unfoldable pub get_report : Option BudgetCheck → M ScanReport
  unfolding run_work work_within
  get_report none = run_work false
  get_report (some b) =
      if b.within_budget then work_within else pure (not_run_workflow (refused_status b.reason))

  -- The two uploads, whose failures are only logged.
  unfoldable pub upload_reports : Bool → M (Unit {0})
  upload_reports has_fixes =
      if has_fixes
      then (do
        try_catch (perform upload_pdf env.pdf) (λ e. pure tt)
        try_catch (perform upload_sarif env.sarif) (λ e. pure tt))
      else pure tt
