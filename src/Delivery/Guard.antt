-- ===== src/Delivery/Guard.antt =====
-- Which deliveries reach the model: the guards of scanDelivery of
-- src/integrations/github/pr-webhook-handler.ts.
use fixor.Prelude.{
  ℕ, ◌≡◌, ◌∙◌, refl, sym, ◌⊎◌, inl, inr, Bool, true, false, Option, none, some, List, [], ◌∷◌, ◌++◌,
  String, arith, any, any-append,
}
use fixor.Budget.{BudgetCheck}
use fixor.Delivery.{Failure, ScanRunState, DeliveryContext}
use fixor.Delivery.Scan.{
  Exit, returned, threw, ScanCall, read_budget, ScanState, M, ScanInput, Env, ScanResult,
}
use fixor.Delivery.Phases.{
  get_budget, read_if, get_report, work_within, mark, mark_row, get_failed, work_unless,
}
use fixor.Delivery.Handler.{with_input, scan_delivery, is_refused}
use fixor.Delivery.Untouched.{
  Untouched, is_priced, get_token-Keeps, fetch_unless-Keeps, conclude-Keeps, unpriced-Keeps,
}
use fixor.Delivery.Triples.{
  Runs, Post, Keeps-Runs, Runs-bind, Runs-pure, Runs-if, Runs-perform, Runs-modify, Runs-try,
  Runs-read, Runs-fact,
}

module _ (env : Env) (ctx : DeliveryContext) (id : Option String) (failed : Bool) where
  -- The budget was read and is not reached, and the database took every write that precedes the scan.
  abbrev pub Granted : Type 0
  Granted =
      (b : BudgetCheck) × (env.budget ≡ returned b)
      × (b.within_budget ≡ true)
      × (failed ≡ false)
      × ((id ≡ none) ⊎ (env.marked ≡ returned tt))

  -- No priced workflow has run, and the run is as it was accepted.
  abbrev pub Before : ScanState → Type 0
  Before s =
      (s.run.id ≡ id) × (s.run.pre_scan_write_failed ≡ failed) × (any is_priced s.calls ≡ false)

  abbrev pub Guarded : ScanState → Type 0
  Guarded s = any is_priced s.calls ≡ true → Granted

  any_free :
      (cs : List ScanCall) (call : ScanCall)
      → is_priced call ≡ false
      → any is_priced (cs ++ call ∷ []) ≡ any is_priced cs
  any_free cs call h = rw (any-append is_priced cs (call ∷ []), h) (ground arith)

  before : Untouched Before
  before = record {
    call = λ s call h p. (p.0, p.1, any_free s.calls call h ∙ p.2);
    outcome = λ s o p. p;
  }

  guarded : Untouched Guarded
  guarded = record {
    call = λ s call h p q. p (sym (any_free s.calls call h) ∙ q);
    outcome = λ s o p. p;
  }

  none_priced : (s : ScanState) → any is_priced s.calls ≡ false → Guarded s
  none_priced s h = λ q. ground arith

  Before-Guarded : (s : ScanState) → Before s → Guarded s
  Before-Guarded s p = none_priced s p.2

  -- What holds once the row has been marked.
  abbrev Marked : ScanState → Type 0
  Marked s =
      (any is_priced s.calls ≡ false)
      × (s.run.pre_scan_write_failed ≡ false
          → (failed ≡ false) × ((id ≡ none) ⊎ (env.marked ≡ returned tt)))

  mark_row-Marked :
      (row : Option String) (b : Bool)
      → b ≡ false
      → Runs
          (λ s. Before s × (s.run.pre_scan_write_failed ≡ b) × (row ≡ id))
          (mark_row env ctx row)
          (λ _. Marked)
          (λ _. Guarded)
  unfolding mark_row
  mark_row-Marked none b n = Runs-pure _ λ s p. (p.0.2, λ h. (sym p.0.1 ∙ h, inl (sym p.2)))
  mark_row-Marked (some i) b n =
      Runs-try {F = λ _ s. any is_priced s.calls ≡ false}
        (Runs-perform _ _
          (λ s p a h. (any_free s.calls _ refl ∙ p.0.2, λ q. (sym p.0.1 ∙ q, inr h)))
          (λ s p e h. any_free s.calls _ refl ∙ p.0.2))
        λ e. Runs-modify _ λ s p. (p, λ q. ground arith)

  mark-Marked : Runs Before (mark env ctx) (λ _. Marked) (λ _. Guarded)
  unfolding mark
  mark-Marked =
      Runs-read
        (λ s t.
          Before t × (t.run.pre_scan_write_failed ≡ s.run.pre_scan_write_failed) × (s.run.id ≡ id))
        (λ s p. (p, refl, p.0))
        λ s.
          Runs-if s.run.pre_scan_write_failed (λ y. Runs-pure tt λ t q. (q.0.2, λ h. ground arith))
            (mark_row-Marked s.run.id s.run.pre_scan_write_failed)

  get_failed_rule :
      Runs Marked
        (get_failed env ctx)
        (λ b s. Marked s × (s.run.pre_scan_write_failed ≡ b))
        (λ _. Guarded)
  unfolding get_failed
  get_failed_rule = record { at = λ s p. (p, refl) }

  -- With the gate passed, anything may run.
  granted_rule :
      {A : Type 0} {P : ScanState → Type 0} {m : M A}
      → ((s : ScanState) → P s → Granted)
      → Runs P m (λ _. Guarded) (λ _. Guarded)
  granted_rule {m = m} g = record {
    at = λ s p.
        (Keeps-Runs {P = Guarded} {R = Guarded} {m = m} (record { kept = λ t o q. g s p })
            (λ t o. o) (λ a t o. o) (λ e t o. o)).at
          s (λ q. g s p);
  }

  work_within-Guarded :
      (b : BudgetCheck)
      → env.budget ≡ returned b
      → b.within_budget ≡ true
      → Runs Before (work_within env ctx) (λ _. Guarded) (λ _. Guarded)
  unfolding work_within work_unless
  work_within-Guarded b read within = Runs-bind mark-Marked λ x.
      Runs-bind get_failed_rule λ failed'.
        Runs-if failed' (λ y. Runs-pure _ λ s p. none_priced s p.0.0)
          λ n. granted_rule λ s p. (b, read, within, (p.0.1 (p.1 ∙ n)).0, (p.0.1 (p.1 ∙ n)).1)

  -- The budget that the gate has answered with.
  IsRead : Option BudgetCheck → Type 0
  IsRead none = Unit {0}
  IsRead (some b) = env.budget ≡ returned b

  get_report-Guarded :
      (budget : Option BudgetCheck)
      → IsRead budget
      → Runs Before (get_report env ctx budget) (λ _. Guarded) (λ _. Guarded)
  unfolding get_report IsRead
  get_report-Guarded none read =
      Keeps-Runs (unpriced-Keeps env ctx before) (λ s p. p) (λ a. Before-Guarded)
        (λ e. Before-Guarded)
  get_report-Guarded (some b) read =
      Runs-if b.within_budget (work_within-Guarded b read) λ n. Runs-pure _ Before-Guarded

  gate_rule :
      (installation : Option ℕ)
      → Runs Before
          (read_if env ctx installation)
          (λ budget s. IsRead budget × Before s)
          (λ _. Guarded)
  unfolding read_if IsRead
  gate_rule none = Runs-pure _ λ s p. (tt, p)
  gate_rule (some n) =
      Runs-bind
        (Runs-perform {Q = λ b s. (env.budget ≡ returned b) × Before s} _ _
          (λ s p b h. (h, before.call s _ refl p))
          λ s p e h.
            none_priced (record s { calls = s.calls ++ read_budget ∷ [] })
              (before.call s read_budget refl p).2)
        λ b. Runs-pure _ λ s p. p

  with_input-Guarded :
      (budget : Option BudgetCheck)
      → IsRead budget
      → (input : ScanInput ⊎ Failure)
      → Runs Before (with_input env ctx budget input) (λ _. Guarded) (λ _. Guarded)
  unfolding with_input
  with_input-Guarded budget read (inr failure) = Runs-pure _ Before-Guarded
  with_input-Guarded budget read (inl input) = Runs-bind (get_report-Guarded budget read) λ report.
      Keeps-Runs (conclude-Keeps env ctx guarded input report) (λ s p. p) (λ a s p. p) (λ e s p. p)

  scan_rule : Runs Before (scan_delivery env ctx) (λ _. Guarded) (λ _. Guarded)
  unfolding scan_delivery get_budget
  scan_rule =
      Runs-bind
        (Keeps-Runs (get_token-Keeps env ctx before) (λ s p. p) (λ a s p. p) (λ e. Before-Guarded))
        λ token. Runs-bind (gate_rule ctx.installation_id) λ budget. Runs-fact λ read.
          Runs-bind
            (Keeps-Runs (fetch_unless-Keeps env ctx before (is_refused env ctx budget) token)
              (λ s p. p) (λ a s p. p) λ e. Before-Guarded)
            (with_input-Guarded budget read)

  either_end :
      (out : Exit ScanResult × ScanState) → Post (λ _. Guarded) (λ _. Guarded) out → Guarded out.1
  either_end (returned a, s) p = p
  either_end (threw e, s) p = p

  pub run-Guarded : (s : ScanState) → Before s → Guarded (scan_delivery env ctx s).1
  run-Guarded s p = either_end (scan_delivery env ctx s) (scan_rule.at s p)

-- A delivery runs a priced workflow only if the installation's budget was read and is not reached, every write before
-- the scan was taken, and the run's row, where there is one, was marked running.
pub scan_guarded :
    (env : Env) (ctx : DeliveryContext) (run : ScanRunState)
    → any is_priced (scan_delivery env ctx (record { run = run; calls = [] })).1.calls ≡ true
    → Granted env ctx run.id run.pre_scan_write_failed
scan_guarded env ctx run h =
    run-Guarded env ctx run.id run.pre_scan_write_failed (record { run = run; calls = [] })
      (refl, refl, refl) h
