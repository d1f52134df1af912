-- ===== src/Client/Tests.antt =====
-- Runs of calls of the model, and the theorems of this part at concrete inputs.
use fixor.Prelude.{
  List, Option, ℕ, ◌+◌, ◌≤◌, ◌≡◌, refl, ◌⊎◌, inr, true, false, none, some, [], ◌∷◌, arith, ◌==◌,
  if◌then◌else◌,
}
use fixor.Client.{
  sonnet_4_6, http_error, spend_unrecorded, scan_cancelled, Usage, tool_use, SdkError, Response,
  answered, threw, Reply, Context, LlmCallFailure, World, CallOptions,
}
use fixor.Budget.Ledger.{sum_since}
use fixor.Client.Prices.{calculate_cost}
use fixor.Client.Retry.{is_retryable, backoff_delay_ms}
use fixor.Client.Call.{failed, live, account, book, call_claude}
use fixor.Client.Stops.{is_stopped, stops_at, stops_in_time}
use fixor.Client.Spend.{IsUnspent, IsBalanced, call_claude-IsBalanced}
use fixor.Client.Escalation.{ToolInput, object}

abbrev scan : Context
scan = record {
  installation_id = "42";
  scan_spend = some 0;
  ledger_write_failed = false;
  cancelled = false;
}

abbrev start : World
start = record {
  context = some scan;
  coverage = record { attempted = 0; failures = [] };
  call_ledger = record { calls = 0; priced_calls = 0; cost_usd = 0 };
  db = record { installations = []; entries = [] };
  requests = 0;
}

abbrev detection : CallOptions
detection = record { model = sonnet_4_6; caller_id = some "idor"; is_auxiliary = false }

abbrev overloaded : SdkError
overloaded = record {
  is_error = true;
  is_abort = false;
  is_connection_error = false;
  status = some 529;
  code = none;
  cause_code = none;
  retry_after = none;
}

abbrev usage : Usage
usage = record {
  input_tokens = 1000;
  output_tokens = 100;
  cache_creation_input_tokens = 0;
  cache_read_input_tokens = 0;
}

abbrev promoted : Response ToolInput
promoted = answered (tool_use (object (some "promote_to_high") none) ∷ []) (some usage)

-- The first attempt is refused, and the deadline passes while the second is out.
abbrev replies : ℕ → Reply ToolInput
replies n = record {
  response = if n == 0 then threw overloaded else promoted;
  now = 10;
  write_fails = false;
  deadline_passed = n == 1;
  other_write_failed = false;
}

second_attempt : (call_claude detection replies live true start).1.requests ≡ 2
unfolding call_claude is_retryable account book
second_attempt = refl

price_of_call : calculate_cost sonnet_4_6 usage ≡ 4500000
unfolding calculate_cost
price_of_call = refl

-- A success and a failure.
abbrev two_outcomes : List (Option LlmCallFailure)
two_outcomes =
    none ∷ some (record { caller = "idor"; reason = http_error; model = sonnet_4_6 }) ∷ []

stops_in_time_example :
    let out = call_claude detection replies live true start in
    (is_stopped start ≡ true
      → (out.1.requests ≡ start.requests)
        × ((out.0 ≡ failed spend_unrecorded) ⊎ (out.0 ≡ failed scan_cancelled)))
    × ((n : ℕ) → stops_at detection replies n ≡ true → out.1.requests ≤ start.requests + n + 1)
stops_in_time_example = stops_in_time detection replies true start scan refl

start-IsUnspent : IsUnspent "42" 5 0 0 start
unfolding sum_since
start-IsUnspent = (scan, refl, refl, inr (refl, refl))

call_claude-IsBalanced_example :
    IsBalanced "42" 5 0 0 (call_claude detection replies live true start).1
call_claude-IsBalanced_example =
    call_claude-IsBalanced "42" 5 0 0 detection replies true start (λ n. omega arith)
      start-IsUnspent

asked_for_two_minutes : backoff_delay_ms (λ h. none) 1 (some " 120") 3 10 ≡ 30000
unfolding backoff_delay_ms
asked_for_two_minutes = refl
