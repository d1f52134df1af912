-- ===== src/Api/Results.antt =====
-- When the scan behind `POST /api/v1/scan` is answered with 200.
use fixor.Prelude.{
  ℕ, ◌≡◌, ◌≢◌, refl, ap, inl, inr, true, false, Option, none, some, String, arith, Bool-cases,
  eq_of_some, kept,
}
use fixor.Budget.{BudgetCheck}
use fixor.Budget.Gate.{BudgetRefusalHttp, budget_refusal_http, is_exceeded}
use fixor.Workflow.{Settled, fulfilled, rejected, AuditResult}
use fixor.Api.Scan.{
  ApiScanResponse, ScanDeps, scan_installation, gated, run_unless_refused, finished_scan,
}
use fixor.Api.Handler.{ApiResponse}

-- The status that the server answers with: 500 for an exception.
abbrev pub status_of : Settled ApiResponse → ℕ
status_of (fulfilled r) = r.status
status_of (rejected reason) = 500

abbrev pub scan_status : Settled ApiScanResponse → ℕ
scan_status (fulfilled r) = r.status
scan_status (rejected reason) = 500

-- The scan of an installation came to a result: the budget allowed it, it ended in time and its spend was recorded.
abbrev pub Scanned : ScanDeps → String → String → String → Type 0
Scanned deps installation_id diff scan_id =
    (deps.timed_out ≡ false)
    × (deps.ledger_write_failed ≡ false)
    × ((b : BudgetCheck) × (deps.budget installation_id ≡ fulfilled b) × (b.within_budget ≡ true))
    × ((r : AuditResult) × (deps.workflow diff scan_id ≡ fulfilled r))

refusal-status :
    (b : BudgetCheck) (h : BudgetRefusalHttp) → budget_refusal_http b ≡ some h → h.status ≢ 200
unfolding budget_refusal_http
refusal-status b h e ok = elim (Bool-cases b.within_budget) [
  | inl yes' ↦ ground (arith, rw yes' at e)
  | inr no' ↦ elim (Bool-cases (is_exceeded b.reason)) [
    | inl spent ↦ omega (arith, ap (λ x. x.status) (eq_of_some (rw (no', spent) at e)), ok)
    | inr unread ↦ omega (arith, ap (λ x. x.status) (eq_of_some (rw (no', unread) at e)), ok)
  ]
]

pub no_refusal : (b : BudgetCheck) → budget_refusal_http b ≡ none → b.within_budget ≡ true
unfolding budget_refusal_http
no_refusal b e = ground (arith, e)

module _ (deps : ScanDeps) (inst diff id : String) where
  finished-200 :
      (w : Settled AuditResult)
      → deps.workflow diff id ≡ w
      → scan_status (finished_scan deps w) ≡ 200
      → (deps.ledger_write_failed ≡ false)
        × ((r : AuditResult) × (deps.workflow diff id ≡ fulfilled r))
  unfolding finished_scan
  finished-200 (fulfilled r) e ok = (ground (arith, ok), (r, e))
  finished-200 (rejected reason) e ok = absurd (omega (arith, ok))

  unless_refused-200 :
      (b : BudgetCheck) (h : Option BudgetRefusalHttp)
      → budget_refusal_http b ≡ h
      → deps.budget inst ≡ fulfilled b
      → deps.timed_out ≡ false
      → scan_status (run_unless_refused deps inst diff id h).response ≡ 200
      → Scanned deps inst diff id
  unfolding run_unless_refused
  unless_refused-200 b (some h) e read in_time ok = absurd (refusal-status b h e (rw in_time at ok))
  unless_refused-200 b none e read in_time ok =
      let (kept, done) = finished-200 (deps.workflow diff id) refl (rw in_time at ok) in
      (in_time, kept, (b, read, no_refusal b e), done)

  gated-200 :
      (b : Settled BudgetCheck)
      → deps.budget inst ≡ b
      → deps.timed_out ≡ false
      → scan_status (gated deps inst diff id b).response ≡ 200
      → Scanned deps inst diff id
  unfolding gated
  gated-200 (fulfilled b) e in_time ok =
      unless_refused-200 b (budget_refusal_http b) refl e in_time ok
  gated-200 (rejected reason) e in_time ok = absurd (omega (arith, rw in_time at ok))

  gated-timed_out :
      (b : Settled BudgetCheck)
      → deps.timed_out ≡ true
      → scan_status (gated deps inst diff id b).response ≡ 504
  unfolding gated
  gated-timed_out (rejected reason) late = rw late refl
  gated-timed_out (fulfilled b) late = unless_refused-timed_out (budget_refusal_http b) late
    where
      unless_refused-timed_out :
          (h : Option BudgetRefusalHttp)
          → deps.timed_out ≡ true
          → scan_status (run_unless_refused deps inst diff id h).response ≡ 504
      unless_refused-timed_out none late = rw late refl
      unless_refused-timed_out (some h) late = rw late refl

pub scan_installation-200 :
    (deps : ScanDeps) (inst : Option String) (diff id : String)
    → scan_status (scan_installation deps inst diff id).response ≡ 200
    → (i : String) × (inst ≡ some i) × Scanned deps i diff id
unfolding scan_installation
scan_installation-200 deps none diff id ok = absurd (omega (arith, ok))
scan_installation-200 deps (some i) diff id ok = elim (Bool-cases deps.timed_out) [
  | inl late ↦ absurd (omega (arith, ok, gated-timed_out deps i diff id (deps.budget i) late))
  | inr in_time ↦ (i, refl, gated-200 deps i diff id (deps.budget i) refl in_time ok)
]

no_refusal-within : (b : BudgetCheck) → b.within_budget ≡ true → budget_refusal_http b ≡ none
unfolding budget_refusal_http
no_refusal-within b within = rw within refl

pub Scanned-200 :
    (deps : ScanDeps) (i diff id : String)
    → Scanned deps i diff id
    → scan_status (scan_installation deps (some i) diff id).response ≡ 200
unfolding scan_installation gated run_unless_refused finished_scan
Scanned-200 deps i diff id (in_time, kept, (b, read, within), (r, done)) =
    rw (read, no_refusal-within b within, in_time, done, kept) refl
