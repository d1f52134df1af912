-- ===== src/Workflow/Tallied.antt =====
-- The counters of fix generation while executeWorkflow goes on.
use fixor.Prelude.{
  ℕ, ◌+◌, ◌≡◌, refl, subst, inl, inr, Bool, true, false, List, [], ◌∷◌, ◌++◌, map, arith, ltb,
  if◌then◌else◌, Bool-cases, length, length-append,
}
use fixor.Findings.{Finding}
use fixor.Client.Tally.{Delta}
use fixor.Workflow.{
  Settled, fulfilled, rejected, Fix, PatchQuality, WorkflowError, fix_failed, input_degraded,
  guard_unresolved, calls_failed, detectors_threw, InputError, GuardError, DetectorFailure,
  AuditResult,
}
use fixor.Workflow.Fixes.{FixResult, count_quality, record_fix, record_fixes}
use fixor.Workflow.Status.{push_errors, push_coverage, push_detectors, push_degradation}

abbrev pub is_fix_failure : WorkflowError → Bool
is_fix_failure (fix_failed id details) = true
is_fix_failure _ = false

abbrev pub fix_failures : List WorkflowError → ℕ
fix_failures [] = 0
fix_failures (e ∷ es) = let rest = fix_failures es in if is_fix_failure e then rest + 1 else rest

abbrev pub is_low : PatchQuality → Bool
is_low PatchQuality.low = true
is_low _ = false

abbrev pub low_fixes : List Fix → ℕ
low_fixes [] = 0
low_fixes (x ∷ xs) = let rest = low_fixes xs in if is_low x.patch_quality then rest + 1 else rest

-- `done` findings went through fix generation.
pub record IsTallied (done : ℕ) (r : AuditResult) : Type 0 where
  pub generated : r.fixes_generated ≡ length r.fixes
  pub qualities :
      r.high_quality_patches + r.medium_quality_patches + r.low_quality_patches ≡ r.fixes_generated
  pub lows : r.low_quality_patches ≡ low_fixes r.fixes
  pub outcomes : done ≡ r.fixes_generated + fix_failures r.errors

pub fix_failures-append :
    (xs ys : List WorkflowError) → fix_failures (xs ++ ys) ≡ fix_failures xs + fix_failures ys
fix_failures-append [] ys = omega arith
fix_failures-append (x ∷ xs) ys = ground (arith, fix_failures-append xs ys)

low_fixes-append : (xs ys : List Fix) → low_fixes (xs ++ ys) ≡ low_fixes xs + low_fixes ys
low_fixes-append [] ys = omega arith
low_fixes-append (x ∷ xs) ys = ground (arith, low_fixes-append xs ys)

count_quality_lem :
    (q : PatchQuality) (r : AuditResult)
    → let r' = count_quality q r in
      (r'.high_quality_patches + r'.medium_quality_patches + r'.low_quality_patches
        ≡ r.high_quality_patches + r.medium_quality_patches + r.low_quality_patches + 1)
      × (r'.low_quality_patches ≡ r.low_quality_patches + (if is_low q then 1 else 0))
      × (r'.fixes ≡ r.fixes)
      × (r'.fixes_generated ≡ r.fixes_generated)
      × (r'.errors ≡ r.errors)
unfolding count_quality
count_quality_lem PatchQuality.high r = (omega arith, omega arith, refl, refl, refl)
count_quality_lem PatchQuality.medium r = (omega arith, omega arith, refl, refl, refl)
count_quality_lem PatchQuality.low r = (omega arith, omega arith, refl, refl, refl)

record_fix-IsTallied :
    (f : Finding) (x : Settled Fix) (done : ℕ) (r : AuditResult)
    → IsTallied done r
    → IsTallied (done + 1) (record_fix f x r)
unfolding record_fix
record_fix-IsTallied f (fulfilled x) done r t =
    let r0 = record r { fixes = r.fixes ++ x ∷ []; fixes_generated = r.fixes_generated + 1 } in
    let (sum, low, fixes, generated, errors) = count_quality_lem x.patch_quality r0 in
    record {
      generated = ground (arith, generated, fixes, t.generated, length-append r.fixes (x ∷ []));
      qualities = ground (arith, sum, generated, t.qualities);
      lows = ground (arith, low, fixes, t.lows, low_fixes-append r.fixes (x ∷ []));
      outcomes = ground (arith, errors, generated, t.outcomes);
    }
record_fix-IsTallied f (rejected message) done r t = record {
  generated = t.generated;
  qualities = t.qualities;
  lows = t.lows;
  outcomes = omega (arith, t.outcomes, fix_failures-append r.errors (fix_failed _ message ∷ []));
}

pub record_fixes-IsTallied :
    (xs : List FixResult) (done : ℕ) (r : AuditResult)
    → IsTallied done r
    → IsTallied (done + length xs) (record_fixes xs r)
unfolding record_fixes
record_fixes-IsTallied [] done r t = subst (λ n. IsTallied n r) (omega arith) t
record_fixes-IsTallied (x ∷ xs) done r t =
    subst (λ n. IsTallied n (record_fixes (x ∷ xs) r)) (omega arith)
      (record_fixes-IsTallied xs (done + 1) (record_fix x.finding x.result r)
        (record_fix-IsTallied x.finding x.result done r t))

push_errors-IsTallied :
    (done : ℕ) (es : List WorkflowError) (r : AuditResult)
    → fix_failures es ≡ 0
    → IsTallied done r
    → IsTallied done (push_errors es r)
unfolding push_errors
push_errors-IsTallied done es r none' t = record {
  generated = t.generated;
  qualities = t.qualities;
  lows = t.lows;
  outcomes = omega (arith, t.outcomes, fix_failures-append r.errors es, none');
}

pub no_fix_failures {ℓ} :
    {A : Type ℓ} (g : A → WorkflowError) (xs : List A)
    → ((x : A) → is_fix_failure (g x) ≡ false)
    → fix_failures (map g xs) ≡ 0
no_fix_failures g [] h = refl
no_fix_failures g (x ∷ xs) h = ground (arith, h x, no_fix_failures g xs h)

push_coverage-IsTallied :
    (done : ℕ) (delta : Delta) (r : AuditResult)
    → IsTallied done r
    → IsTallied done (push_coverage delta r)
unfolding push_coverage push_errors
push_coverage-IsTallied done delta r t = elim (Bool-cases (ltb 0 delta.failed)) [
  | inl yes' ↦ rw yes' (record {
    generated = t.generated;
    qualities = t.qualities;
    lows = t.lows;
    outcomes = omega (arith, t.outcomes, fix_failures-append r.errors (calls_failed delta ∷ []));
  })
  | inr no' ↦ rw no' (record {
    generated = t.generated;
    qualities = t.qualities;
    lows = t.lows;
    outcomes = t.outcomes;
  })
]

push_detectors-IsTallied :
    (done : ℕ) (fs : List DetectorFailure) (r : AuditResult)
    → IsTallied done r
    → IsTallied done (push_detectors fs r)
unfolding push_detectors
push_detectors-IsTallied done [] r t = t
push_detectors-IsTallied done (f ∷ fs) r t = record {
  generated = t.generated;
  qualities = t.qualities;
  lows = t.lows;
  outcomes =
      omega (arith, t.outcomes, fix_failures-append r.errors (detectors_threw (f ∷ fs) ∷ []));
}

pub push_degradation-IsTallied :
    (done : ℕ) (inputs : List InputError) (guards : List GuardError) (delta : Delta)
    (fs : List DetectorFailure) (r : AuditResult)
    → IsTallied done r
    → IsTallied done (push_degradation inputs guards delta fs r)
unfolding push_degradation
push_degradation-IsTallied done inputs guards delta fs r t = push_detectors-IsTallied done fs _ (
    push_coverage-IsTallied done delta _ (
      push_errors-IsTallied done _ _ (no_fix_failures guard_unresolved guards (λ x. refl))
        (push_errors-IsTallied done _ _ (no_fix_failures input_degraded inputs (λ x. refl)) t)))
