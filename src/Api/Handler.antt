-- ===== src/Api/Handler.antt =====
-- handleApiScan of src/server/webhook-server.ts. The limiter is that of Limiter; each read of the clock is an argument.
use fixor.Prelude.{
  ℕ, Bool, Option, none, some, List, [], ◌∷◌, ◌++◌, String, if◌then◌else◌, codes, starts_with,
  trim_text, is_empty,
}
use fixor.Limiter.{Limiter, allow, retry_after_seconds}
use fixor.Workflow.{Settled, fulfilled, rejected}
use fixor.Api.{ApiDb, VerifiedToken}
use fixor.Api.Tokens.{verify_api_token, get_installation_id_for_org, mark_token_used}
use fixor.Api.Scan.{
  ApiCall, mark_used, ApiBody, error_body, rate_limited, ApiScanResponse, ScanDeps, run_api_scan,
}

-- A request. The body is none where reading or parsing fails; of what is parsed, `diff` is some if it is a string.
pub record ApiRequest : Type 0 where
  pub authorization : Option String
  pub body : Option (Option String)

pub record ApiState : Type 0 where
  pub db : ApiDb
  pub limiter : Limiter
  pub calls : List ApiCall

pub record ApiResponse : Type 0 where
  pub status : ℕ
  pub body : ApiBody
  pub retry_after : Option ℕ

-- What the handler is run with. The reads of the tables may fail.
pub record ApiEnv : Type 0 where
  pub hash_token : String → String
  pub token_read_fails : Bool
  pub org_read_fails : Bool
  pub allowed_at : ℕ
  pub hinted_at : ℕ
  pub marked_at : ℕ
  pub mark_fails : Bool
  pub deps : ScanDeps

-- A thrown exception, which the server answers with 500, or a response.
abbrev pub Answered : Type 0
Answered = Settled ApiResponse × ApiState

abbrev pub respond : (status : ℕ) → String → ApiState → Answered
respond status error s =
    (fulfilled (record { status = status; body = error_body error; retry_after = none }), s)

abbrev pub from_text : List ℕ → String → String
from_text [] s = s
from_text (c ∷ cs) String.[] = String.[]
from_text (c ∷ cs) (String.◌∷◌ d s) = from_text cs s

-- `authHeader.slice("Bearer ".length).trim()`, if it starts so
unfoldable pub bearer_token : Option String → Option String
bearer_token none = none
bearer_token (some header) =
    if starts_with (codes "Bearer ") (codes header)
    then some (trim_text (from_text (codes "Bearer ") header))
    else none

-- The `diff` of a body that is parsed, if it is not blank.
unfoldable pub diff_of : Option (Option String) → Option String
diff_of (some (some diff)) = if is_empty (codes (trim_text diff)) then none else some diff
diff_of _ = none

abbrev pub body_error : Option (Option String) → String
body_error none = "invalid JSON body"
body_error (some diff) = "diff is required (string)"

module _ (env : ApiEnv) where
  abbrev pub note_use : (ran : Bool) → String → ApiState → ApiState
  note_use ran id s =
      if ran
      then record s {
        db = if env.mark_fails then s.db else mark_token_used id env.marked_at s.db;
        calls = s.calls ++ mark_used id ∷ [];
      }
      else s

  unfoldable pub conclude_scan : String → Settled ApiScanResponse → ApiState → Answered
  conclude_scan id (rejected reason) s = (rejected reason, s)
  conclude_scan id (fulfilled r) s = (
    fulfilled (record { status = r.status; body = r.body; retry_after = r.retry_after_seconds }),
    note_use r.ran id s,
  )

  unfoldable pub scan_diff : VerifiedToken → String → ApiState → Answered
  unfolding conclude_scan
  scan_diff v diff s =
      let scan =
        run_api_scan env.deps (get_installation_id_for_org s.db v.org_id) diff v.token_id in
      if env.org_read_fails
      then (rejected "org lookup failed", s)
      else conclude_scan v.token_id scan.response (record s { calls = s.calls ++ scan.calls })

  unfoldable pub check_body :
      VerifiedToken → Option (Option String) → Option String → ApiState → Answered
  unfolding scan_diff
  check_body v body none s = respond 400 (body_error body) s
  check_body v body (some diff) s = scan_diff v diff s

  unfoldable pub check_rate : ApiRequest → VerifiedToken → ApiState → Answered
  unfolding check_body
  check_rate req v s =
      let (limiter, ok) = allow s.limiter v.token_id env.allowed_at in
      let s' = record s { limiter = limiter } in
      let seconds = retry_after_seconds limiter v.token_id env.hinted_at in
      if ok then check_body v req.body (diff_of req.body) s' else (
        fulfilled
            (record { status = 429; body = rate_limited seconds; retry_after = some seconds }),
        s',
      )

  unfoldable pub check_verified : ApiRequest → Option VerifiedToken → ApiState → Answered
  unfolding check_rate
  check_verified req none s = respond 401 "invalid or revoked token" s
  check_verified req (some v) s = check_rate req v s

  unfoldable pub check_token : ApiRequest → Option String → ApiState → Answered
  unfolding check_verified
  check_token req none s = respond 401 "missing bearer token" s
  check_token req (some plain) s =
      if env.token_read_fails
      then respond 503 "auth backend unavailable" s
      else check_verified req (verify_api_token env.hash_token s.db plain) s

  unfoldable pub handle_api_scan : ApiRequest → ApiState → Answered
  unfolding check_token
  handle_api_scan req s = check_token req (bearer_token req.authorization) s
