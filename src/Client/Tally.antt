-- ===== src/Client/Tally.antt =====
-- The two process-wide tallies: src/lib/llm-coverage.ts and src/lib/llm-call-ledger.ts.
use fixor.Prelude.{
  ℕ, ◌+◌, ◌-◌, ◌≡◌, ◌∙◌, refl, sym, ap, Option, none, some, List, [], ◌∷◌, ◌++◌, String, arith, ltb,
  if◌then◌else◌, or_else, length, drop, Map, get, put,
}
use fixor.Client.{FailReason, LlmCallFailure, Coverage, Calls}

-- recordLlmDetectionCall: `none` is a call that succeeded.
unfoldable pub record_llm_detection_call : Option LlmCallFailure → Coverage → Coverage
record_llm_detection_call none t = record t { attempted = t.attempted + 1 }
record_llm_detection_call (some failure) t = record {
  attempted = t.attempted + 1;
  failures = t.failures ++ failure ∷ [];
}

-- LlmCoverageSnapshot.
pub record Snapshot : Type 0 where
  pub attempted : ℕ
  pub failure_index : ℕ

pub snapshot_llm_coverage : Coverage → Snapshot
snapshot_llm_coverage t = record { attempted = t.attempted; failure_index = length t.failures }

-- LlmCoverageDelta. A reason or a caller is a text here.
pub record Delta : Type 0 where
  pub attempted : ℕ
  pub failed : ℕ
  pub by_reason : Map ℕ
  pub by_caller : Map ℕ

unfoldable pub count_by : (LlmCallFailure → String) → Map ℕ → List LlmCallFailure → Map ℕ
count_by key counts [] = counts
count_by key counts (f ∷ slice) =
    count_by key (put (key f) (or_else (get (key f) counts) 0 + 1) counts) slice

reason_name : FailReason → String
reason_name FailReason.no_api_key = "no_api_key"
reason_name FailReason.timed_out = "timeout"
reason_name FailReason.http_error = "http_error"
reason_name FailReason.spend_unrecorded = "spend_unrecorded"
reason_name FailReason.scan_cancelled = "scan_cancelled"

pub llm_coverage_since : Snapshot → Coverage → Delta
unfolding count_by snapshot_llm_coverage
llm_coverage_since snap t =
    let slice = drop snap.failure_index t.failures in
    record {
      attempted = t.attempted - snap.attempted;
      failed = length slice;
      by_reason = count_by (λ f. reason_name f.reason) [] slice;
      by_caller = count_by (λ f. f.caller) [] slice;
    }

-- coverageExitCode
pub coverage_exit_code : ℕ → ℕ
coverage_exit_code failed = if ltb 0 failed then 2 else 0

-- recordLlmCall: the cost of a call that was priced.
unfoldable pub record_llm_call : Option ℕ → Calls → Calls
record_llm_call none c = record c { calls = c.calls + 1 }
record_llm_call (some cost) c = record {
  calls = c.calls + 1;
  priced_calls = c.priced_calls + 1;
  cost_usd = c.cost_usd + cost;
}

-- What a run of calls records, one after the other.
abbrev pub record_outcomes : List (Option LlmCallFailure) → Coverage → Coverage
record_outcomes [] t = t
record_outcomes (o ∷ os) t = record_outcomes os (record_llm_detection_call o t)

abbrev pub failures_of : List (Option LlmCallFailure) → List LlmCallFailure
failures_of [] = []
failures_of (none ∷ os) = failures_of os
failures_of (some f ∷ os) = f ∷ failures_of os

append_assoc {ℓ} : {A : Type ℓ} (xs ys zs : List A) → (xs ++ ys) ++ zs ≡ xs ++ (ys ++ zs)
append_assoc [] ys zs = refl
append_assoc (x ∷ xs) ys zs = ap (λ r. x ∷ r) (append_assoc xs ys zs)

append_nil {ℓ} : {A : Type ℓ} (xs : List A) → xs ++ [] ≡ xs
append_nil [] = refl
append_nil (x ∷ xs) = ap (λ r. x ∷ r) (append_nil xs)

drop-length-append {ℓ} : {A : Type ℓ} (xs ys : List A) → drop (length xs) (xs ++ ys) ≡ ys
drop-length-append [] ys = refl
drop-length-append (x ∷ xs) ys = drop-length-append xs ys

record_outcomes_lem :
    (os : List (Option LlmCallFailure)) (t : Coverage)
    → ((record_outcomes os t).attempted ≡ t.attempted + length os)
      × ((record_outcomes os t).failures ≡ t.failures ++ failures_of os)
unfolding record_llm_detection_call
record_outcomes_lem [] t = (omega arith, sym (append_nil t.failures))
record_outcomes_lem (none ∷ os) t =
    let rest = record_outcomes_lem os (record_llm_detection_call none t) in
    (omega (arith, rest.0), rest.1)
record_outcomes_lem (some f ∷ os) t =
    let rest = record_outcomes_lem os (record_llm_detection_call (some f) t) in
    (omega (arith, rest.0), rest.1 ∙ append_assoc t.failures (f ∷ []) (failures_of os))

-- All counts of a map.
abbrev pub total_count : Map ℕ → ℕ
total_count [] = 0
total_count ((k, n) ∷ m) = n + total_count m

pub total_count-put :
    (k : String) (n : ℕ) (m : Map ℕ)
    → total_count (put k n m) + or_else (get k m) 0 ≡ total_count m + n
unfolding put get
total_count-put k n [] = omega arith
total_count-put k n ((j, i) ∷ m) = ground (arith, total_count-put k n m)

total_count-count_by :
    (key : LlmCallFailure → String) (counts : Map ℕ) (slice : List LlmCallFailure)
    → total_count (count_by key counts slice) ≡ total_count counts + length slice
unfolding count_by
total_count-count_by key counts [] = omega arith
total_count-count_by key counts (f ∷ slice) = ground (
  arith,
  total_count-put (key f) (or_else (get (key f) counts) 0 + 1) counts,
  total_count-count_by key (put (key f) (or_else (get (key f) counts) 0 + 1) counts) slice,
)

-- What is read since a snapshot is what was recorded since: the number of calls, the number of failures, and
-- counts by reason and by caller that each sum up to the failures.
pub coverage_since_lem :
    (os : List (Option LlmCallFailure)) (t : Coverage)
    → let delta = llm_coverage_since (snapshot_llm_coverage t) (record_outcomes os t) in
      (delta.attempted ≡ length os)
      × (delta.failed ≡ length (failures_of os))
      × (total_count delta.by_reason ≡ delta.failed)
      × (total_count delta.by_caller ≡ delta.failed)
unfolding llm_coverage_since snapshot_llm_coverage
coverage_since_lem os t =
    let both = record_outcomes_lem os t in
    let slice =
      ap (drop (length t.failures)) both.1 ∙ drop-length-append t.failures (failures_of os) in
    let found = drop (length t.failures) (record_outcomes os t).failures in
    (
      omega (arith, both.0),
      ap length slice,
      omega (arith, total_count-count_by (λ f. reason_name f.reason) [] found),
      omega (arith, total_count-count_by (λ f. f.caller) [] found),
    )
