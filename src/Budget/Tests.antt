-- ===== src/Budget/Tests.antt =====
-- Runs of the gate and of the ledger, and the theorems of this part at concrete inputs.
use fixor.Prelude.{
  ℕ, ◌+◌, ◌*◌, length, ◌<◌, ◌≡◌, refl, ◌↔◌, ◌⊎◌, true, false, Option, none, some, List, [], ◌∷◌,
  arith, ◌==◌, if◌then◌else◌,
}
use fixor.Budget.{
  Caps, connection, exempt, Reads, Thrown, falsy, thrown, Settled, resolved, rejected,
}
use fixor.Budget.Failure.{classify, verdict, is_connection_code, mentions_connection}
use fixor.Budget.Ledger.{CostDb, sum_since}
use fixor.Budget.Gate.{is_exempt, check_budget, org_cap, with_budget_timeout}
use fixor.Budget.Verdicts.{within_budget_iff, refusal_by_cause, Affordable, Response, Reading}
use fixor.Budget.Spend.{overshoot_bound, record_all, total}

abbrev caps : Caps
caps = record { monthly_cap_usd = 100; daily_cap_usd = 50 }

abbrev spent : Reads
spent = record { monthly_spend = 30; daily_spend = 10; org_monthly_cap_usd = some 60 }

-- The first read is refused by the network, the second succeeds.
abbrev refused : Thrown
refused =
    thrown false none "fetch failed" false false falsy
      (thrown false (some "ECONNREFUSED") "" false false falsy falsy)

abbrev flaky : ℕ → Option (Settled Reads)
flaky n = if n == 1 then some (rejected refused) else some (resolved spent)

refused_kind : classify refused ≡ connection
unfolding classify verdict is_connection_code mentions_connection
refused_kind = refl

flaky_check : (check_budget "7, 8" flaky none "42" caps).within_budget ≡ true
unfolding check_budget is_exempt classify verdict is_connection_code mentions_connection
flaky_check = refl

exempt_reason : (check_budget "7, 42 ," flaky none "42" caps).reason ≡ some exempt
unfolding check_budget is_exempt classify verdict is_connection_code mentions_connection
exempt_reason = refl

not_exempt : is_exempt "" "42" ≡ false
unfolding is_exempt
not_exempt = refl

within_budget_iff_example :
    ((check_budget "" flaky none "42" caps).within_budget ≡ true)
    ↔ ((is_exempt "" "42" ≡ true) ⊎ Affordable "" flaky none "42" caps)
within_budget_iff_example = within_budget_iff "" flaky none "42" caps

refusal_by_cause_example : Response "" flaky none "42" caps (check_budget "" flaky none "42" caps)
refusal_by_cause_example = refusal_by_cause "" flaky none "42" caps not_exempt

-- A ledger that holds what the reads say, and a scan with two calls.
abbrev ledger : CostDb
ledger = record {
  installations = "42" ∷ [];
  entries = record { installation_id = "42"; cost_usd = 30; recorded_at = 1 } ∷ [];
}

abbrev steady : ℕ → Option (Settled Reads)
steady n = some (resolved spent)

abbrev two_calls : List (ℕ × ℕ)
two_calls = (4, 2) ∷ (5, 3) ∷ []

steady_check : (check_budget "" steady none "42" caps).within_budget ≡ true
unfolding check_budget is_exempt classify verdict is_connection_code mentions_connection
steady_check = refl

steady_faithful :
    (n : ℕ) (r : Reads)
    → with_budget_timeout (steady n) ≡ resolved r
    → r.monthly_spend ≡ sum_since "42" 0 ledger.entries
unfolding with_budget_timeout sum_since
steady_faithful n r h = ground (arith, h)

overshoot_bound_example :
    (r : Reads) × (limit : ℕ) × Reading steady r
    × (org_cap r.org_monthly_cap_usd none ≡ resolved limit)
    × (sum_since "42" 0 (record_all "42" two_calls ledger).entries
        < limit + (total two_calls + 500 * length two_calls))
overshoot_bound_example =
    overshoot_bound "" steady none "42" caps 0 ledger two_calls steady_faithful (ground arith)
      not_exempt steady_check
