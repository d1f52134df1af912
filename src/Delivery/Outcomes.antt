-- ===== src/Delivery/Outcomes.antt =====
-- How a scan of src/integrations/github/pr-webhook-handler.ts ends: the outcome that its row will get.
use fixor.Prelude.{
  ℕ, ◌+◌, ◌≡◌, ◌∙◌, refl, sym, ap, subst, ◌⊎◌, inl, inr, Bool, true, false, not, ◌&&◌, ◌||◌, Option,
  none, some, String, ltb, if◌then◌else◌, or_else, str_eq,
}
use fixor.ScanRun.{Status, Code, Outcome, empty_outcome}
use fixor.ScanRun.Verdict.{scanned_outcome, is_skipped}
use fixor.Budget.{BudgetCheck}
use fixor.Delivery.{Failure, token_missing, github_refused, DeliveryContext}
use fixor.Delivery.Scan.{
  pure, ◌>>=◌, analyze_pr_diff, Fault, github_error, other_error, Exit, returned, threw,
  fetch_pr_diff, ScanState, M, perform, ScanInput, Env, ScanResult, scan_ok, scan_failed,
  ScanReport, scan_input_degraded, is_absent, raw_text, structured, no_input,
}
use fixor.Delivery.Phases.{
  fall_back, get_budget, read_if, fetch_input, fail_with, fetch_unless, fetched, enrich,
  refused_fetch,
}
use fixor.Delivery.Handler.{
  post_report, posted, not_posted, set_verdict, verdict_of, refused_outcome, conclude, with_input,
  scan_delivery, is_refused,
}
use fixor.Delivery.Triples.{
  Runs, Post, Keeps-Runs, Runs-bind, Runs-pure, Runs-if, Runs-perform, Runs-modify, Runs-try,
  Runs-raise,
}

abbrev pub is_completed : Status → Bool
is_completed Status.completed = true
is_completed _ = false

-- The run has an outcome, and it is not `completed`.
abbrev pub Unfinished : ScanState → Type 0
Unfinished s = (o : Outcome) × (s.run.outcome ≡ some o) × (is_completed o.status ≡ false)

abbrev count : Exit ℕ → ℕ
count (returned n) = n
count (threw e) = 0

abbrev refuses : Exit BudgetCheck → Bool
refuses (returned b) = not b.within_budget
refuses (threw e) = false

module _ (env : Env) (ctx : DeliveryContext) where
  -- The payload's input loses files or guards: its own errors, or those of the whole-file input that replaces a diff.
  abbrev pub loses : ScanInput → Bool
  loses no_input = false
  loses (raw_text false) = false
  loses (raw_text true) =
      (is_absent env.resolver || env.has_fetch_impl)
      && ltb 0 (count env.scan_input_errors + count env.route_guard_errors)
  loses (structured a b) = ltb 0 (a + b)

  abbrev pub loses_any : Exit ScanInput → Bool
  loses_any (returned input) = loses input
  loses_any (threw e) = false

  abbrev pub is_over_budget : Option ℕ → Bool
  is_over_budget none = false
  is_over_budget (some installation) = refuses env.budget

  -- Within budget, the input that the resolver gives, or else the pull request's diff, loses something.
  abbrev pub is_degraded : Bool
  is_degraded =
      not (is_over_budget ctx.installation_id) && loses_any (or_else env.resolver env.pr_diff)

  -- A delivery that answers with success has posted its comment and decided its outcome from the workflow; one that
  -- answers with a failure has decided an outcome that is not `completed`.
  abbrev pub Concluded : Exit ScanResult → ScanState → Type 0
  Concluded (returned (scan_ok w)) s =
      (env.comment ≡ returned tt)
      × (s.run.outcome ≡ some (scanned_outcome s.run.spend_unrecorded s.run.spend w is_degraded))
  Concluded (returned (scan_failed f)) s = Unfinished s
  Concluded (threw e) s = Unit {0}

  abbrev Ends : M ScanResult → Type 0
  Ends m = Runs (λ _. Unit {0}) m (λ r. Concluded (returned r)) (λ _ _. Unit {0})

  any_state : {A : Type 0} (m : M A) → Runs (λ _. Unit {0}) m (λ _ _. Unit {0}) (λ _ _. Unit {0})
  any_state m =
      Keeps-Runs {P = λ _. Unit {0}} (record { kept = λ s p. tt }) (λ s p. tt) (λ a s p. tt)
        (λ e s p. tt)

  keep_fact : {A : Type 0} {F : Type 0} (m : M A) → Runs (λ _. F) m (λ _ _. F) (λ _ _. Unit {0})
  keep_fact {F = F} m =
      Keeps-Runs {P = λ _. F} (record { kept = λ s p. p }) (λ s p. p) (λ a s p. p) (λ e s p. tt)

  posted-Ends :
      (report : ScanReport) (degraded : Bool)
      → degraded ≡ is_degraded
      → Ends (posted env ctx report degraded)
  unfolding posted set_verdict verdict_of
  posted-Ends report degraded same =
      Runs-bind {Q = λ _ _. env.comment ≡ returned tt}
        (Runs-perform _ _ (λ s p a h. h) (λ s p e h. tt))
        λ x. Runs-bind (keep_fact _) λ y. Runs-bind (keep_fact _) λ z.
          Runs-bind
            {Q = λ _ s.
              (env.comment ≡ returned tt)
              × (s.run.outcome
                  ≡ some
                      (scanned_outcome s.run.spend_unrecorded s.run.spend report.result degraded))}
            (Runs-modify _ λ s p. (p, refl))
            λ w. Runs-pure (scan_ok report.result) λ s p. (
              p.0,
              p.1
                  ∙ ap
                      (λ d.
                        some (scanned_outcome s.run.spend_unrecorded s.run.spend report.result d))
                      same,
            )

  by_status :
      (s : Status) (o : Outcome)
      → s ≡ o.status
      → is_completed
          (if is_skipped s
            then o
            else record o { status = Status.failed; code = some Code.comment_refused }).status
        ≡ false
  by_status Status.skipped o same = subst (λ t. is_completed t ≡ false) same refl
  by_status _ o same = refl

  refused_unfinished : (o : Outcome) → is_completed (refused_outcome o).status ≡ false
  unfolding refused_outcome
  refused_unfinished o = by_status o.status o refl

  not_posted-Ends :
      (report : ScanReport) (degraded : Bool) (e : Fault)
      → Ends (not_posted env ctx report degraded e)
  unfolding not_posted set_verdict
  not_posted-Ends report degraded github_error =
      Runs-bind {Q = λ _. Unfinished} (Runs-modify _ λ s p. (_, refl, refused_unfinished _))
        λ x. Runs-pure (scan_failed github_refused) λ s p. p
  not_posted-Ends report degraded other_error = Runs-raise _ λ s p. tt

  conclude-Ends :
      (input : ScanInput) (report : ScanReport)
      → scan_input_degraded input ≡ is_degraded
      → Ends (conclude env ctx input report)
  unfolding conclude post_report
  conclude-Ends input report same =
      Runs-bind (any_state _)
        λ x. Runs-try {F = λ _ _. Unit {0}} (posted-Ends report _ same) (not_posted-Ends report _)

  -- What the fetch leaves: an input that is as degraded as it should be, or a failure and its outcome.
  abbrev Fetched : ScanInput ⊎ Failure → ScanState → Type 0
  Fetched (inl input) s = scan_input_degraded input ≡ is_degraded
  Fetched (inr failure) s = Unfinished s

  -- The same before a raw diff is replaced.
  abbrev Sourced : ScanInput ⊎ Failure → ScanState → Type 0
  Sourced (inl input) s = loses input ≡ loses_any (or_else env.resolver env.pr_diff)
  Sourced (inr failure) s = Unfinished s

  fail_with-ends :
      {Q : ScanInput ⊎ Failure → ScanState → Type 0} (code : Code) (failure : Failure)
      → ((s : ScanState) → Unfinished s → Q (inr failure) s)
      → Runs (λ _. Unit {0}) (fail_with env ctx code failure) Q (λ _ _. Unit {0})
  unfolding fail_with empty_outcome
  fail_with-ends code failure q =
      Runs-bind {Q = λ _. Unfinished} (Runs-modify _ λ s p. (_, refl, refl))
        λ x. Runs-pure (inr failure) q

  -- The findings of the diff, where the resolver has none, lose nothing.
  fall_back-loses :
      (token : String) (input : ScanInput) (lost : Bool)
      → Runs
          (λ _. loses input ≡ lost)
          (fall_back env ctx token input)
          (λ i _. loses i ≡ lost)
          (λ _ _. Unit {0})
  unfolding fall_back
  fall_back-loses token no_input lost =
      Runs-if {n = pure no_input} (env.use_pr_diff_fallback && not (str_eq token ""))
        (λ y.
          Runs-bind {Q = λ _ _. false ≡ lost}
            (keep_fact (perform analyze_pr_diff env.diff_findings))
            λ found.
              Runs-pure (if ltb 0 found then structured 0 0 else no_input)
                λ s p. by_count (ltb 0 found) p)
        (λ n. Runs-pure no_input λ s p. p)
    where
      by_count : (b : Bool) → false ≡ lost → loses (if b then structured 0 0 else no_input) ≡ lost
      by_count true p = p
      by_count false p = p
  fall_back-loses token (raw_text d) lost = Runs-pure _ λ s p. p
  fall_back-loses token (structured a b) lost = Runs-pure _ λ s p. p

  fetched-Sourced :
      (token : String) (r : Option (Exit ScanInput))
      → r ≡ env.resolver
      → Runs (λ _. Unit {0}) (fetched env ctx token r) Sourced (λ _ _. Unit {0})
  unfolding fetched
  fetched-Sourced token (some r) same =
      let source : loses_any (or_else env.resolver env.pr_diff) ≡ loses_any r =
        ap (λ o. loses_any (or_else o env.pr_diff)) (sym same) in
      Runs-bind {Q = λ i _. loses i ≡ loses_any r}
        (Runs-perform _ _ (λ s p a h. ap loses_any (sym h)) (λ s p e h. tt))
        λ i.
          Runs-bind (fall_back-loses token i (loses_any r))
            λ j. Runs-pure (inl j) λ s p. p ∙ sym source
  fetched-Sourced token none same =
      let source : loses_any (or_else env.resolver env.pr_diff) ≡ loses_any env.pr_diff =
        ap (λ o. loses_any (or_else o env.pr_diff)) (sym same) in
      Runs-if {n = perform fetch_pr_diff env.pr_diff >>= λ i. pure (inl i)} (str_eq token "")
        (λ y. fail_with-ends Code.internal_error token_missing λ s u. u)
        (λ n.
          Runs-bind {Q = λ i _. loses i ≡ loses_any env.pr_diff}
            (Runs-perform fetch_pr_diff env.pr_diff (λ s p a h. ap loses_any (sym h))
              (λ s p e h. tt))
            λ i. Runs-pure (inl i) λ s p. p ∙ sym source)

  -- Within budget the fetch is not skipped.
  Charged : Type 0
  Charged = is_over_budget ctx.installation_id ≡ false

  sourced_degraded :
      {lost : Bool}
      → Charged
      → lost ≡ loses_any (or_else env.resolver env.pr_diff)
      → lost ≡ is_degraded
  unfolding Charged
  sourced_degraded charged e = rw charged e

  loses_no_files : (b : Bool) (n m : ℕ) → b ≡ true → (b && ltb 0 (n + m)) ≡ ltb 0 (n + m)
  loses_no_files b n m h = rw h refl

  kept_diff : (b c : Bool) → b ≡ false → b && c ≡ false
  kept_diff b c h = rw h refl

  enrich-Fetched :
      (input : ScanInput ⊎ Failure)
      → Charged
      → Runs (Sourced input) (enrich env ctx input) Fetched (λ _ _. Unit {0})
  unfolding enrich scan_input_degraded
  enrich-Fetched (inl (raw_text true)) charged =
      Runs-if _
        (λ whole.
          Runs-bind
            {Q = λ a _.
              (loses (raw_text true) ≡ loses_any (or_else env.resolver env.pr_diff))
              × (count env.scan_input_errors ≡ a)}
            (Runs-perform _ _ (λ s p a h. (p, ap count h)) (λ s p e h. tt))
            λ a.
              Runs-bind
                {Q = λ b _.
                  (loses (raw_text true) ≡ loses_any (or_else env.resolver env.pr_diff))
                  × (count env.scan_input_errors ≡ a)
                  × (count env.route_guard_errors ≡ b)}
                (Runs-perform _ _ (λ s p b h. (p.0, p.1, ap count h)) (λ s p e h. tt))
                λ b. Runs-pure (inl (structured a b)) λ s p.
                  rw (← p.1, ← p.2)
                    (sym (
                        loses_no_files _ (count env.scan_input_errors)
                          (count env.route_guard_errors) whole)
                      ∙ sourced_degraded charged p.0))
        (λ plain.
          Runs-pure (inl (raw_text true))
            λ s p. sym (kept_diff _ _ plain) ∙ sourced_degraded charged p)
  enrich-Fetched (inl (raw_text false)) charged =
      Runs-pure (inl (raw_text false)) λ s p. sourced_degraded charged p
  enrich-Fetched (inl no_input) charged = Runs-pure (inl no_input) λ s p. sourced_degraded charged p
  enrich-Fetched (inl (structured a b)) charged =
      Runs-pure (inl (structured a b)) λ s p. sourced_degraded charged p
  enrich-Fetched (inr f) charged = Runs-pure (inr f) λ s p. p

  refused_fetch-Fetched :
      (e : Fault) → Runs (λ _. Unit {0}) (refused_fetch env ctx e) Fetched (λ _ _. Unit {0})
  unfolding refused_fetch
  refused_fetch-Fetched github_error = fail_with-ends Code.pr_fetch_refused github_refused λ s u. u
  refused_fetch-Fetched other_error = Runs-raise _ λ s p. tt

  -- Nothing is fetched over budget, and nothing is degraded then.
  fetch_unless-Fetched :
      (over : Bool) (token : String)
      → over ≡ is_over_budget ctx.installation_id
      → Runs (λ _. Unit {0}) (fetch_unless env ctx over token) Fetched (λ _ _. Unit {0})
  unfolding fetch_unless fetch_input Charged scan_input_degraded
  fetch_unless-Fetched true token same = Runs-pure (inl no_input) λ s p. rw (← same) refl
  fetch_unless-Fetched false token same =
      Runs-try {F = λ _ _. Unit {0}}
        (Runs-bind (fetched-Sourced token env.resolver refl) λ i. enrich-Fetched i (sym same))
        refused_fetch-Fetched

  with_input-Ends :
      (budget : Option BudgetCheck) (input : ScanInput ⊎ Failure)
      → Runs
          (Fetched input)
          (with_input env ctx budget input)
          (λ r. Concluded (returned r))
          (λ _ _. Unit {0})
  unfolding with_input
  with_input-Ends budget (inr failure) = Runs-pure (scan_failed failure) λ s p. p
  with_input-Ends budget (inl input) =
      Runs-bind (keep_fact _)
        λ report. record { at = λ s p. (conclude-Ends input report p).at s tt }

  read_if-Refused :
      (installation : Option ℕ)
      → Runs
          (λ _. Unit {0})
          (read_if env ctx installation)
          (λ b _. is_refused env ctx b ≡ is_over_budget installation)
          (λ _ _. Unit {0})
  unfolding read_if
  read_if-Refused none = Runs-pure none λ s p. refl
  read_if-Refused (some installation) =
      Runs-bind {Q = λ b _. not b.within_budget ≡ refuses env.budget}
        (Runs-perform _ _ (λ s p b h. ap refuses (sym h)) (λ s p e h. tt))
        λ b. Runs-pure (some b) λ s p. p

  scan-Ends : Ends (scan_delivery env ctx)
  unfolding scan_delivery get_budget
  scan-Ends = Runs-bind (any_state _) λ token.
      Runs-bind (read_if-Refused ctx.installation_id) λ budget. record {
        at = λ s p. (Runs-bind (fetch_unless-Fetched _ token p) (with_input-Ends budget)).at s tt;
      }

  answer_end :
      (out : Exit ScanResult × ScanState)
      → Post (λ r. Concluded (returned r)) (λ _ _. Unit {0}) out
      → Concluded out.0 out.1
  answer_end (returned a, s) p = p
  answer_end (threw e, s) p = tt

-- A delivery that answers with success has posted its comment, and its outcome is the verdict on the workflow with
-- the spend recorded so far and with whether the fetch lost files or guards; one that answers with a failure has an outcome, and it is not `completed`.
pub scan_delivery-Concluded :
    (env : Env) (ctx : DeliveryContext) (s : ScanState)
    → Concluded env ctx (scan_delivery env ctx s).0 (scan_delivery env ctx s).1
scan_delivery-Concluded env ctx s =
    answer_end env ctx (scan_delivery env ctx s) ((scan-Ends env ctx).at s tt)
