-- ===== src/Api/Calls.antt =====
-- What a request makes the server call.
use fixor.Prelude.{
  ◌≡◌, ◌∙◌, refl, sym, ap, subst, ◌⊎◌, inl, inr, true, false, Option, none, some, List, [], ◌∷◌,
  ◌++◌, String, Bool-cases, All, All-append,
}
use fixor.Limiter.{allow}
use fixor.Budget.{BudgetCheck}
use fixor.Budget.Gate.{BudgetRefusalHttp, budget_refusal_http}
use fixor.Workflow.{Settled, fulfilled, rejected}
use fixor.Api.{VerifiedToken}
use fixor.Api.Tokens.{verify_api_token, get_installation_id_for_org}
use fixor.Api.Scan.{
  ApiCall, mark_used, check_budget, run_workflow, ApiScanResponse, ScanDeps, run_api_scan,
  scan_installation, given_installation, gated, run_unless_refused,
}
use fixor.Api.Handler.{
  ApiRequest, ApiState, ApiEnv, bearer_token, diff_of, handle_api_scan, check_token, check_verified,
  check_rate, check_body, scan_diff, conclude_scan,
}
use fixor.Api.Results.{no_refusal}
use fixor.Api.Guard.{Admitted}

-- A call for the installation, with a budget that is left where the workflow is run.
abbrev pub IsFor : ScanDeps → Option String → (diff token_id : String) → ApiCall → Type 0
IsFor deps inst diff id (check_budget i) = inst ≡ some i
IsFor deps inst diff id (run_workflow i d j) =
    (inst ≡ some i)
    × (d ≡ diff)
    × (j ≡ id)
    × ((b : BudgetCheck) × (deps.budget i ≡ fulfilled b) × (b.within_budget ≡ true))
IsFor deps inst diff id (mark_used j) = j ≡ id

module _ (deps : ScanDeps) (diff id : String) where
  unless_refused-IsFor :
      (i : String) (b : BudgetCheck) (h : Option BudgetRefusalHttp)
      → budget_refusal_http b ≡ h
      → deps.budget i ≡ fulfilled b
      → All (IsFor deps (some i) diff id) (run_unless_refused deps i diff id h).calls
  unfolding run_unless_refused
  unless_refused-IsFor i b none e read = (refl, ((refl, refl, refl, (b, read, no_refusal b e)), tt))
  unless_refused-IsFor i b (some h) e read = (refl, tt)

  gated-IsFor :
      (i : String) (b : Settled BudgetCheck)
      → deps.budget i ≡ b
      → All (IsFor deps (some i) diff id) (gated deps i diff id b).calls
  unfolding gated
  gated-IsFor i (fulfilled b) e = unless_refused-IsFor i b (budget_refusal_http b) refl e
  gated-IsFor i (rejected reason) e = (refl, tt)

  scan_installation-IsFor :
      (inst : Option String)
      → All (IsFor deps inst diff id) (scan_installation deps inst diff id).calls
  unfolding scan_installation
  scan_installation-IsFor none = tt
  scan_installation-IsFor (some i) = gated-IsFor i (deps.budget i) refl

append_assoc {ℓ} : {A : Type ℓ} (xs ys zs : List A) → (xs ++ ys) ++ zs ≡ xs ++ (ys ++ zs)
append_assoc [] ys zs = refl
append_assoc (x ∷ xs) ys zs = ap (λ r. x ∷ r) (append_assoc xs ys zs)

module _ (env : ApiEnv) (req : ApiRequest) (s : ApiState) where
  -- The calls are as before, or those of one admitted request are added.
  abbrev pub Explained : List ApiCall → Type 0
  Explained calls =
      (calls ≡ s.calls)
      ⊎ ((v : VerifiedToken) × (diff : String) × (added : List ApiCall) × Admitted env req s v diff
          × (calls ≡ s.calls ++ added)
          × All
              (IsFor env.deps (given_installation (get_installation_id_for_org s.db v.org_id)) diff
                v.token_id)
              added)

  conclude_scan-calls :
      (inst : Option String) (diff id : String) (x : Settled ApiScanResponse) (t : ApiState)
      (added : List ApiCall)
      → t.calls ≡ s.calls ++ added
      → All (IsFor env.deps inst diff id) added
      → (added' : List ApiCall) × ((conclude_scan env id x t).1.calls ≡ s.calls ++ added')
        × All (IsFor env.deps inst diff id) added'
  unfolding conclude_scan
  conclude_scan-calls inst diff id (rejected reason) t added e all' = (added, e, all')
  conclude_scan-calls inst diff id (fulfilled r) t added e all' = elim (Bool-cases r.ran) [
    | inl ran ↦ (
      added ++ mark_used id ∷ [],
      rw ran
          (ap (λ cs. cs ++ mark_used id ∷ []) e ∙ append_assoc s.calls added (mark_used id ∷ [])),
      All-append (IsFor env.deps inst diff id) added (mark_used id ∷ []) all' (refl, tt),
    )
    | inr not_run ↦ (added, rw not_run e, all')
  ]

  scan_diff-open :
      (v : VerifiedToken) (diff : String) (t : ApiState)
      → env.org_read_fails ≡ false
      → let scan =
          run_api_scan env.deps (get_installation_id_for_org t.db v.org_id) diff v.token_id in
        scan_diff env v diff t
        ≡ conclude_scan env v.token_id scan.response (record t { calls = t.calls ++ scan.calls })
  unfolding scan_diff
  scan_diff-open v diff t up = rw up refl

  check_token-open :
      (plain : String)
      → env.token_read_fails ≡ false
      → check_token env req (some plain) s
        ≡ check_verified env req (verify_api_token env.hash_token s.db plain) s
  unfolding check_token
  check_token-open plain up = rw up refl

  body-Explained :
      (v : VerifiedToken) (t : ApiState) (d : Option String)
      → t.calls ≡ s.calls
      → t.db ≡ s.db
      → ((diff : String) → d ≡ some diff → Admitted env req s v diff)
      → Explained (check_body env v req.body d t).1.calls
  unfolding check_body scan_diff run_api_scan
  body-Explained v t none e f admit = inl e
  body-Explained v t (some diff) e f admit = elim (Bool-cases env.org_read_fails) [
    | inl down ↦ inl (rw down e)
    | inr up ↦
        let inst = given_installation (get_installation_id_for_org t.db v.org_id) in
        let scan = scan_installation env.deps inst diff v.token_id in
        let (added, calls, all') =
          conclude_scan-calls inst diff v.token_id scan.response
            (record t { calls = t.calls ++ scan.calls }) scan.calls (ap (λ cs. cs ++ scan.calls) e)
            (scan_installation-IsFor env.deps diff v.token_id inst) in
        inr (
          v,
          diff,
          added,
          admit diff refl,
          ap (λ x. x.1.calls) (scan_diff-open v diff t up) ∙ calls,
          subst
              (λ db.
                All
                  (IsFor env.deps (given_installation (get_installation_id_for_org db v.org_id))
                    diff v.token_id)
                  added)
              f all',
        )
  ]

  rate-Explained :
      (plain : String) (v : Option VerifiedToken)
      → bearer_token req.authorization ≡ some plain
      → env.token_read_fails ≡ false
      → verify_api_token env.hash_token s.db plain ≡ v
      → Explained (check_verified env req v s).1.calls
  unfolding check_verified check_rate
  rate-Explained plain none bears up e = inl refl
  rate-Explained plain (some v) bears up e =
      elim (Bool-cases ((allow s.limiter v.token_id env.allowed_at).1)) [
        | inl rate ↦ rw rate (
            body-Explained v (record s { limiter = (allow s.limiter v.token_id env.allowed_at).0 })
              (diff_of req.body) refl refl
              (λ diff has_diff. ((plain, bears, e), up, rate, has_diff)))
        | inr over ↦ rw over (inl refl)
      ]

  token-Explained :
      (o : Option String)
      → bearer_token req.authorization ≡ o
      → Explained (check_token env req o s).1.calls
  unfolding check_token
  token-Explained none e = inl refl
  token-Explained (some plain) e = elim (Bool-cases env.token_read_fails) [
    | inl down ↦ rw down (inl refl)
    | inr up ↦
        subst (λ x. Explained x.1.calls) (sym (check_token-open plain up))
          (rate-Explained plain (verify_api_token env.hash_token s.db plain) e up refl)
  ]

  -- A request makes the server read a budget, run the workflow or mark a token only if it carries a live token, under its
  -- rate, with a diff; and then every such call is for that token, that diff and the installation of the token's
  -- organisation, and the workflow runs only on a budget that was read and is not used up.
  pub calls-Explained : Explained (handle_api_scan env req s).1.calls
  unfolding handle_api_scan
  calls-Explained = token-Explained (bearer_token req.authorization) refl
