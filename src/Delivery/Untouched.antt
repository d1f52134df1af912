-- ===== src/Delivery/Untouched.antt =====
-- What every phase of scanDelivery of src/integrations/github/pr-webhook-handler.ts but the priced scan leaves
-- as it was.
use fixor.Prelude.{
  ℕ, ◌≡◌, refl, ◌⊎◌, inl, inr, Bool, true, false, Option, none, some, [], ◌∷◌, ◌++◌, String,
}
use fixor.ScanRun.{Code, Outcome}
use fixor.ScanRun.Verdict.{WorkflowResult}
use fixor.Delivery.{Failure, token_missing, github_refused, ScanRunState, DeliveryContext}
use fixor.Delivery.Scan.{
  Fault, github_error, other_error, Exit, ScanCall, mint_token, resolve_semgrep, analyze_pr_diff,
  fetch_pr_diff, build_whole_file, resolve_route_guards, run_workflow, upload_pdf, upload_sarif,
  post_comment, first_scan_email, limit_warning_email, ScanState, pure, perform, try_catch,
  ScanInput, no_input, raw_text, structured, Env, ScanReport, set_outcome,
}
use fixor.Delivery.Phases.{
  get_token, mint, or_env, fail_with, fetch_unless, fetch_input, fetched, fall_back, enrich,
  refused_fetch, run_work, upload_reports,
}
use fixor.Delivery.Handler.{
  post_report, posted, not_posted, send_if, set_verdict, verdict_of, refused_outcome, conclude,
}
use fixor.Delivery.Triples.{
  Keeps, Keeps-pure, Keeps-if, Keeps-raise, Keeps-perform, Keeps-bind, Keeps-try, Keeps-modify,
}

-- A workflow whose model calls are priced and go to the ledger.
abbrev pub is_priced : ScanCall → Bool
is_priced (run_workflow priced) = priced
is_priced _ = false

-- A predicate that neither a call without priced work nor a change of the outcome ends.
pub record Untouched (P : ScanState → Type 0) : Type 0 where
  pub call :
      (s : ScanState) (call : ScanCall)
      → is_priced call ≡ false
      → P s
      → P (record s { calls = s.calls ++ call ∷ [] })
  pub outcome : (s : ScanState) (o : Outcome) → P s → P (record s { run = set_outcome o s.run })

module _ (env : Env) (ctx : DeliveryContext) {P : ScanState → Type 0} (u : Untouched P) where
  pub free :
      {A : Type 0} (call : ScanCall) (exit : Exit A)
      → is_priced call ≡ false
      → Keeps P (perform call exit)
  free call exit h = Keeps-perform call exit λ s p. u.call s call h p

  free_try :
      {A : Type 0} (call : ScanCall) (exit : Exit A) (a : A)
      → is_priced call ≡ false
      → Keeps P (try_catch (perform call exit) (λ e. pure a))
  free_try call exit a h = Keeps-try (free call exit h) λ e. Keeps-pure a

  mint-Keeps : (installation : Option ℕ) → Keeps P (mint env ctx installation)
  unfolding mint or_env
  mint-Keeps none = Keeps-pure _
  mint-Keeps (some n) = Keeps-bind (free mint_token env.minted refl) λ t. Keeps-pure _

  pub get_token-Keeps : Keeps P (get_token env ctx)
  unfolding get_token
  get_token-Keeps = Keeps-if _ (mint-Keeps ctx.installation_id) (Keeps-pure _)

  fall_back-Keeps : (token : String) (input : ScanInput) → Keeps P (fall_back env ctx token input)
  unfolding fall_back
  fall_back-Keeps token no_input =
      Keeps-if _ (Keeps-bind (free analyze_pr_diff env.diff_findings refl) λ n. Keeps-pure _)
        (Keeps-pure _)
  fall_back-Keeps token (raw_text b) = Keeps-pure _
  fall_back-Keeps token (structured a b) = Keeps-pure _

  fail_with-Keeps : (code : Code) (failure : Failure) → Keeps P (fail_with env ctx code failure)
  unfolding fail_with
  fail_with-Keeps code failure =
      Keeps-bind (Keeps-modify _ λ s p. u.outcome s _ p) λ x. Keeps-pure _

  fetched-Keeps : (token : String) (r : Option (Exit ScanInput)) → Keeps P (fetched env ctx token r)
  unfolding fetched
  fetched-Keeps token (some r) =
      Keeps-bind (free resolve_semgrep r refl)
        λ i. Keeps-bind (fall_back-Keeps token i) λ j. Keeps-pure _
  fetched-Keeps token none =
      Keeps-if _ (fail_with-Keeps Code.internal_error token_missing)
        (Keeps-bind (free fetch_pr_diff env.pr_diff refl) λ i. Keeps-pure _)

  enrich-Keeps : (input : ScanInput ⊎ Failure) → Keeps P (enrich env ctx input)
  unfolding enrich
  enrich-Keeps (inl (raw_text true)) =
      Keeps-if _
        (Keeps-bind (free build_whole_file env.scan_input_errors refl)
          λ a. Keeps-bind (free resolve_route_guards env.route_guard_errors refl) λ b. Keeps-pure _)
        (Keeps-pure _)
  enrich-Keeps (inl (raw_text false)) = Keeps-pure _
  enrich-Keeps (inl no_input) = Keeps-pure _
  enrich-Keeps (inl (structured a b)) = Keeps-pure _
  enrich-Keeps (inr f) = Keeps-pure _

  refused_fetch-Keeps : (e : Fault) → Keeps P (refused_fetch env ctx e)
  unfolding refused_fetch
  refused_fetch-Keeps github_error = fail_with-Keeps Code.pr_fetch_refused github_refused
  refused_fetch-Keeps other_error = Keeps-raise _

  pub fetch_unless-Keeps :
      (refused : Bool) (token : String) → Keeps P (fetch_unless env ctx refused token)
  unfolding fetch_unless fetch_input
  fetch_unless-Keeps refused token =
      Keeps-if _ (Keeps-pure _)
        (Keeps-try (Keeps-bind (fetched-Keeps token env.resolver) enrich-Keeps) refused_fetch-Keeps)

  upload_reports-Keeps : (has_fixes : Bool) → Keeps P (upload_reports env ctx has_fixes)
  unfolding upload_reports
  upload_reports-Keeps has_fixes =
      Keeps-if _
        (Keeps-bind (free_try upload_pdf env.pdf tt refl)
          λ x. free_try upload_sarif env.sarif tt refl)
        (Keeps-pure _)

  send_if-Keeps :
      (wanted : Bool) (call : ScanCall)
      → is_priced call ≡ false
      → Keeps P (send_if env ctx wanted call)
  unfolding send_if
  send_if-Keeps wanted call h = Keeps-if wanted (free call _ h) (Keeps-pure _)

  set_verdict-Keeps :
      (f : WorkflowResult → ScanRunState → Outcome) (w : WorkflowResult)
      → Keeps P (set_verdict env ctx f w)
  unfolding set_verdict
  set_verdict-Keeps f w = Keeps-modify _ λ s p. u.outcome s _ p

  posted-Keeps : (report : ScanReport) (degraded : Bool) → Keeps P (posted env ctx report degraded)
  unfolding posted
  posted-Keeps report degraded = Keeps-bind (free (post_comment _) env.comment refl) λ x.
      Keeps-bind (send_if-Keeps _ first_scan_email refl) λ y.
        Keeps-bind (send_if-Keeps _ limit_warning_email refl) λ z.
          Keeps-bind (set_verdict-Keeps (λ w r. verdict_of r w degraded) report.result)
            λ w. Keeps-pure _

  not_posted-Keeps :
      (report : ScanReport) (degraded : Bool) (e : Fault)
      → Keeps P (not_posted env ctx report degraded e)
  unfolding not_posted
  not_posted-Keeps report degraded github_error =
      Keeps-bind
        (set_verdict-Keeps (λ w r. refused_outcome (verdict_of r w degraded)) report.result)
        λ w. Keeps-pure _
  not_posted-Keeps report degraded other_error = Keeps-raise _

  pub conclude-Keeps :
      (input : ScanInput) (report : ScanReport) → Keeps P (conclude env ctx input report)
  unfolding conclude post_report
  conclude-Keeps input report =
      Keeps-bind (upload_reports-Keeps report.has_fixes)
        λ x. Keeps-try (posted-Keeps report _) (not_posted-Keeps report _)

  pub unpriced-Keeps : Keeps P (run_work env ctx false)
  unfolding run_work
  unpriced-Keeps = Keeps-bind (free (run_workflow false) _ refl) λ x. Keeps-pure _
