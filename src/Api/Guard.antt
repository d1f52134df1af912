-- ===== src/Api/Guard.antt =====
-- What has to hold for a request to get a scan.
use fixor.Prelude.{
  ◌≡◌, ◌∙◌, refl, sym, ap, ◌↔◌, inl, inr, true, false, Option, none, some, ◌++◌, String, arith,
  Bool-cases,
}
use fixor.Limiter.{allow}
use fixor.Workflow.{Settled, fulfilled, rejected}
use fixor.Api.{VerifiedToken}
use fixor.Api.Tokens.{verify_api_token, get_installation_id_for_org}
use fixor.Api.Scan.{ApiScanResponse, run_api_scan, scan_installation, given_installation}
use fixor.Api.Handler.{
  ApiRequest, ApiState, ApiEnv, bearer_token, diff_of, handle_api_scan, check_token, check_verified,
  check_rate, check_body, scan_diff, conclude_scan,
}
use fixor.Api.Results.{status_of, scan_status, Scanned, scan_installation-200, Scanned-200}

module _ (env : ApiEnv) (req : ApiRequest) (s : ApiState) where
  -- The request carries a live token, under its rate, with a diff.
  abbrev pub Admitted : VerifiedToken → String → Type 0
  Admitted v diff =
      ((plain : String) × (bearer_token req.authorization ≡ some plain)
        × (verify_api_token env.hash_token s.db plain ≡ some v))
      × (env.token_read_fails ≡ false)
      × ((allow s.limiter v.token_id env.allowed_at).1 ≡ true)
      × (diff_of req.body ≡ some diff)

  abbrev pub Accepted : Type 0
  Accepted =
      (v : VerifiedToken) × (diff : String) × (inst : String) × Admitted v diff
      × (env.org_read_fails ≡ false)
      × (given_installation (get_installation_id_for_org s.db v.org_id) ≡ some inst)
      × Scanned env.deps inst diff v.token_id

  conclude_scan-status :
      (id : String) (x : Settled ApiScanResponse) (t : ApiState)
      → status_of (conclude_scan env id x t).0 ≡ scan_status x
  unfolding conclude_scan
  conclude_scan-status id (fulfilled r) t = refl
  conclude_scan-status id (rejected reason) t = refl

  scan_diff-status :
      (v : VerifiedToken) (diff : String) (t : ApiState)
      → env.org_read_fails ≡ false
      → status_of (scan_diff env v diff t).0
        ≡ scan_status
            (run_api_scan env.deps
              (get_installation_id_for_org t.db v.org_id)
              diff
              v.token_id).response
  unfolding scan_diff
  scan_diff-status v diff t up =
      let scan =
        run_api_scan env.deps (get_installation_id_for_org t.db v.org_id) diff v.token_id in
      rw up
        (conclude_scan-status v.token_id scan.response (record t { calls = t.calls ++ scan.calls }))

  diff-200 :
      (v : VerifiedToken) (t : ApiState) (d : Option String)
      → diff_of req.body ≡ d
      → status_of (check_body env v req.body d t).0 ≡ 200
      → (diff : String) × (inst : String) × (diff_of req.body ≡ some diff)
        × (env.org_read_fails ≡ false)
        × (given_installation (get_installation_id_for_org t.db v.org_id) ≡ some inst)
        × Scanned env.deps inst diff v.token_id
  unfolding check_body scan_diff run_api_scan
  diff-200 v t none e ok = absurd (omega (arith, ok))
  diff-200 v t (some diff) e ok = elim (Bool-cases env.org_read_fails) [
    | inl down ↦ absurd (omega (arith, rw down at ok))
    | inr up ↦
        let installed = given_installation (get_installation_id_for_org t.db v.org_id) in
        let (inst, found, scanned) =
          scan_installation-200 env.deps installed diff v.token_id
            (sym (scan_diff-status v diff t up) ∙ ok) in
        (diff, inst, e, up, found, scanned)
  ]

  rate-200 :
      (plain : String) (v : Option VerifiedToken)
      → bearer_token req.authorization ≡ some plain
      → env.token_read_fails ≡ false
      → verify_api_token env.hash_token s.db plain ≡ v
      → status_of (check_verified env req v s).0 ≡ 200
      → Accepted
  unfolding check_verified check_rate
  rate-200 plain none bears up e ok = absurd (omega (arith, ok))
  rate-200 plain (some v) bears up e ok =
      elim (Bool-cases ((allow s.limiter v.token_id env.allowed_at).1)) [
        | inl rate ↦
            let (diff, inst, has_diff, read, found, scanned) =
              diff-200 v (record s { limiter = (allow s.limiter v.token_id env.allowed_at).0 })
                (diff_of req.body) refl (rw rate at ok) in
            (v, diff, inst, ((plain, bears, e), up, rate, has_diff), read, found, scanned)
        | inr over ↦ absurd (omega (arith, rw over at ok))
      ]

  token-200 :
      (o : Option String)
      → bearer_token req.authorization ≡ o
      → status_of (check_token env req o s).0 ≡ 200
      → Accepted
  unfolding check_token
  token-200 none e ok = absurd (omega (arith, ok))
  token-200 (some plain) e ok = elim (Bool-cases env.token_read_fails) [
    | inl down ↦ absurd (omega (arith, rw down at ok))
    | inr up ↦ rate-200 plain (verify_api_token env.hash_token s.db plain) e up refl (rw up at ok)
  ]

  -- `POST /api/v1/scan` is answered with 200 exactly if the request carries a bearer token that is some live row's, the
  -- token's rate allows it, its body has a diff that is not blank, the token's organisation has an installation, the
  -- budget of that installation is read and not used up, the workflow comes to a result before the deadline and no write
  -- to the ledger failed meanwhile. Every refusal, time-out and unrecorded scan is answered with another status.
  pub accepted_iff : (status_of (handle_api_scan env req s).0 ≡ 200) ↔ Accepted
  unfolding handle_api_scan check_token check_verified check_rate check_body scan_diff run_api_scan
  accepted_iff = (
    token-200 (bearer_token req.authorization) refl,
    (λ (v, diff, inst, ((plain, bears, verifies), up, rate, has_diff), read, installed, scanned).
        rw (bears, up, verifies, rate, has_diff)
          (scan_diff-status v diff
              (record s { limiter = (allow s.limiter v.token_id env.allowed_at).0 }) read
            ∙ ap (λ i. scan_status (scan_installation env.deps i diff v.token_id).response)
                installed
            ∙ Scanned-200 env.deps inst diff v.token_id scanned)),
  )
