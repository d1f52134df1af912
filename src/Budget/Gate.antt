-- ===== src/Budget/Gate.antt =====
-- checkBudget and budgetRefusalHttp of src/services/cost-store.ts. The environment variable, the database
-- reads and the provisioning of an org are arguments: each read and the provisioning comes to a result
-- within the timeout or not at all.
use fixor.Prelude.{
  ℕ, zero, suc, ◌+◌, Bool, true, false, not, ◌||◌, Option, none, some, List, [], map, String, leb,
  if◌then◌else◌, any, filterb, codes, codes_eq, trim, split_from, is_empty,
}
use fixor.Budget.{
  Caps, FailureKind, connection, timeout, unknown, Reason, monthly_exceeded, daily_exceeded, exempt,
  budget_unverifiable, BudgetCheck, Reads, falsy, thrown, Settled, resolved, rejected,
}
use fixor.Budget.Failure.{classify}

-- isExempt: `raw` is FIXOR_BUDGET_EXEMPT_INSTALLATIONS, "" where it is not set.
abbrev nonempty_ids : List (List ℕ) → List (List ℕ)
nonempty_ids pieces = filterb (λ p. not (is_empty p)) (map trim pieces)

unfoldable pub is_exempt : String → String → Bool
is_exempt raw installation_id =
    if is_empty (trim (codes raw))
    then false
    else any (codes_eq (codes installation_id)) (nonempty_ids (split_from b',' [] (codes raw)))

-- withBudgetTimeout: `none` is a step that has not settled in time.
unfoldable pub with_budget_timeout {ℓ} : {A : Type ℓ} → Option (Settled A) → Settled A
with_budget_timeout none =
    rejected (thrown true none "budget read timed out" false false falsy falsy)
with_budget_timeout (some s) = s

abbrev pub max_budget_read_attempts : ℕ
max_budget_read_attempts = 2

unfoldable pub is_transient : FailureKind → Bool
is_transient connection = true
is_transient timeout = true
is_transient _ = false

-- What the loop leaves: the reads, the kind of the last failure, the attempts.
pub record ReadState : Type 0 where
  pub reads : Option Reads
  pub kind : FailureKind
  pub attempts : ℕ

module _ (read : ℕ → Option (Settled Reads)) where
  -- One round, with the rest of the loop.
  unfoldable pub attempt : ℕ → Settled Reads → ReadState → ReadState
  unfolding is_transient
  attempt attempts (resolved r) rest = record {
    reads = some r;
    kind = unknown;
    attempts = attempts;
  }
  attempt attempts (rejected err) rest =
      if not (is_transient (classify err)) || leb max_budget_read_attempts attempts
      then record { reads = none; kind = classify err; attempts = attempts }
      else rest

  -- `rounds` are those left; the next one is attempt `attempts + 1`.
  unfoldable pub read_loop : ℕ → ℕ → ReadState
  unfolding attempt with_budget_timeout
  read_loop zero attempts = record { reads = none; kind = unknown; attempts = attempts }
  read_loop (suc rounds) attempts =
      let rest = read_loop rounds (attempts + 1) in
      attempt (attempts + 1) (with_budget_timeout (read (attempts + 1))) rest

unfoldable pub refusal : ℕ → ℕ → Caps → FailureKind → ℕ → BudgetCheck
refusal monthly daily caps kind attempts = record {
  within_budget = false;
  reason = some budget_unverifiable;
  monthly_spend = monthly;
  daily_spend = daily;
  caps = caps;
  failure = some (kind, attempts);
}

-- The comparison with the caps that apply.
unfoldable pub decide : Reads → Caps → BudgetCheck
decide r caps =
    if leb caps.monthly_cap_usd r.monthly_spend
    then record {
      within_budget = false;
      reason = some monthly_exceeded;
      monthly_spend = r.monthly_spend;
      daily_spend = r.daily_spend;
      caps = caps;
      failure = none;
    }
    else if leb caps.daily_cap_usd r.daily_spend
    then record {
      within_budget = false;
      reason = some daily_exceeded;
      monthly_spend = r.monthly_spend;
      daily_spend = r.daily_spend;
      caps = caps;
      failure = none;
    }
    else record {
      within_budget = true;
      reason = none;
      monthly_spend = r.monthly_spend;
      daily_spend = r.daily_spend;
      caps = caps;
      failure = none;
    }

-- With the cap of the org, which is provisioned where there is none.
unfoldable pub with_cap : Settled ℕ → Reads → Caps → ℕ → BudgetCheck
unfolding decide
with_cap (resolved cap) r caps attempts = decide r (record caps { monthly_cap_usd = cap })
with_cap (rejected err) r caps attempts =
    refusal r.monthly_spend r.daily_spend caps (classify err) attempts

unfoldable pub org_cap : Option ℕ → Option (Settled ℕ) → Settled ℕ
unfolding with_budget_timeout
org_cap (some cap) provision = resolved cap
org_cap none provision = with_budget_timeout provision

unfoldable pub after_reads : Option Reads → ReadState → Option (Settled ℕ) → Caps → BudgetCheck
unfolding with_cap org_cap refusal
after_reads none st provision caps = refusal 0 0 caps st.kind st.attempts
after_reads (some r) st provision caps =
    with_cap (org_cap r.org_monthly_cap_usd provision) r caps st.attempts

unfoldable pub exempt_check : Caps → BudgetCheck
exempt_check caps = record {
  within_budget = true;
  reason = some exempt;
  monthly_spend = 0;
  daily_spend = 0;
  caps = caps;
  failure = none;
}

unfoldable pub check_budget :
    (exempt_raw : String)
    → (read : ℕ → Option (Settled Reads)) → (provision : Option (Settled ℕ)) → String
    → Caps
    → BudgetCheck
unfolding after_reads read_loop exempt_check
check_budget exempt_raw read provision installation_id caps =
    let st = read_loop read max_budget_read_attempts 0 in
    if is_exempt exempt_raw installation_id
    then exempt_check caps
    else after_reads st.reads st provision caps

-- The body's `error` with, for an exceeded cap, the reason and the figures.
pub data RefusalBody : Type 0 where
  monthly_budget_exceeded : Option Reason → (monthly_spend daily_spend : ℕ) → Caps → RefusalBody
  budget_unverifiable_body : RefusalBody

pub record BudgetRefusalHttp : Type 0 where
  pub status : ℕ
  pub body : RefusalBody
  pub retry_after_seconds : Option ℕ

pub is_exceeded : Option Reason → Bool
is_exceeded (some monthly_exceeded) = true
is_exceeded (some daily_exceeded) = true
is_exceeded _ = false

unfoldable pub budget_refusal_http : BudgetCheck → Option BudgetRefusalHttp
unfolding is_exceeded
budget_refusal_http b =
    if b.within_budget
    then none
    else if is_exceeded b.reason
    then some (record {
      status = 402;
      body = monthly_budget_exceeded b.reason b.monthly_spend b.daily_spend b.caps;
      retry_after_seconds = none;
    })
    else some
        (record { status = 503; body = budget_unverifiable_body; retry_after_seconds = some 60 })
