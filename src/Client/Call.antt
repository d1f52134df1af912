-- ===== src/Client/Call.antt =====
-- callClaude of src/analysis-engine/anthropic-client.ts. The replay mode, the client and the replies are
-- arguments; the reply of attempt `n` is `replies n`. Logging, Sentry and the writing of a fixture in record
-- mode are left out.
use fixor.Prelude.{
  ℕ, zero, suc, ◌+◌, Bool, true, false, not, ◌&&◌, ◌||◌, Option, none, some, List, [], ◌∷◌, String,
  ltb, leb, if◌then◌else◌, or_else,
}
use fixor.Client.{
  Model, FailReason, no_api_key, timed_out, http_error, spend_unrecorded, scan_cancelled, Usage,
  Block, tool_use, text_block, Response, answered, threw, Reply, Context, LlmCallFailure, World,
  CallOptions,
}
use fixor.Client.Prices.{calculate_cost}
use fixor.Client.Retry.{max_retries, is_retryable}
use fixor.Client.Tally.{record_llm_detection_call, record_llm_call}
use fixor.Budget.Ledger.{record_cost}

-- MessagesCallResult; a missing fixture in replay mode throws.
pub data CallResult (Input : Type 0) : Type 0 where
  ok : (tool_input : Option Input) → (text : List String) → Option Usage → CallResult Input
  failed : FailReason → CallResult Input
  fixture_missing : CallResult Input

-- resolveReplayMode; `replay` with the recorded response, if there is one.
pub data Mode (Input : Type 0) : Type 0 where
  live : Mode Input
  replay : Option (Option Input × List String) → Mode Input

abbrev pub on_context : (Context → Context) → Option Context → Option Context
on_context f none = none
on_context f (some c) = some (f c)

abbrev flag : (Context → Bool) → Option Context → Bool
flag f none = false
flag f (some c) = f c

abbrev pub ledger_write_failed : World → Bool
ledger_write_failed w = flag (λ c. c.ledger_write_failed) w.context

abbrev pub is_scan_cancelled : World → Bool
is_scan_cancelled w = flag (λ c. c.cancelled) w.context

abbrev pub outcome_of : CallOptions → Option FailReason → Option LlmCallFailure
outcome_of opts none = none
outcome_of opts (some reason) =
    some
      (record { caller = or_else opts.caller_id "untagged"; reason = reason; model = opts.model })

-- The closure `tally`.
unfoldable pub tally : CallOptions → Option FailReason → World → World
tally opts reason w =
    if opts.is_auxiliary
    then w
    else record w { coverage = record_llm_detection_call (outcome_of opts reason) w.coverage }

-- The end of every path: `tally(reason); recordLlmCall(cost)`.
unfoldable pub account : CallOptions → Option FailReason → Option ℕ → World → World
unfolding tally
account opts reason cost w = record (tally opts reason w) {
  call_ledger = record_llm_call cost w.call_ledger;
}

-- addScanSpend
abbrev add_to : ℕ → Option ℕ → Option ℕ
add_to cost none = none
add_to cost (some usd) = some (if ltb 0 cost then usd + cost else usd)

unfoldable pub add_scan_spend : ℕ → World → World
add_scan_spend cost w = record w {
  context = on_context (λ c. record c { scan_spend = add_to cost c.scan_spend }) w.context;
}

-- markLedgerWriteFailed
unfoldable pub mark_ledger_write_failed : World → World
mark_ledger_write_failed w = record w {
  context = on_context (λ c. record c { ledger_write_failed = true }) w.context;
}

-- The write of the call's cost, which a scan's context asks for.
unfoldable pub write_in : Option Context → Bool → ℕ → ℕ → World → World
unfolding mark_ledger_write_failed
write_in none fails cost now w = w
write_in (some c) fails cost now w =
    if fails
    then mark_ledger_write_failed w
    else record w { db = record_cost c.installation_id cost now w.db }

unfoldable pub write_ledger : Bool → ℕ → ℕ → World → World
unfolding write_in
write_ledger fails cost now w = write_in w.context fails cost now w

abbrev first_tool_input : {Input : Type 0} → List (Block Input) → Option Input
first_tool_input [] = none
first_tool_input (tool_use input ∷ blocks) = some input
first_tool_input (_ ∷ blocks) = first_tool_input blocks

-- The texts, which the source joins by line feeds.
abbrev texts : {Input : Type 0} → List (Block Input) → List String
texts [] = []
texts (text_block text ∷ blocks) = text ∷ texts blocks
texts (_ ∷ blocks) = texts blocks

-- The bookkeeping of a response: spend, ledger, tally.
unfoldable pub book : Model → Bool → ℕ → Option Usage → World → World
unfolding add_scan_spend write_ledger
book model fails now none w = w
book model fails now (some usage) w =
    write_ledger fails (calculate_cost model usage) now
      (add_scan_spend (calculate_cost model usage) w)

unfoldable pub price_of : Model → Option Usage → Option ℕ
price_of model none = none
price_of model (some usage) = some (calculate_cost model usage)

-- What happens meanwhile: the request is out, the deadline may pass, another call's write may fail.
abbrev pub disturb : Bool → Bool → Context → Context
disturb passed broken c = record c {
  ledger_write_failed = broken || c.ledger_write_failed;
  cancelled = passed || c.cancelled;
}

unfoldable pub send : Bool → Bool → World → World
send passed broken w = record w {
  context = on_context (disturb passed broken) w.context;
  requests = w.requests + 1;
}

abbrev refuse : {Input : Type 0} → CallOptions → FailReason → World → CallResult Input × World
refuse opts reason w = (failed reason, account opts (some reason) none w)

module _ {Input : Type 0} (opts : CallOptions) (replies : ℕ → Reply Input) where
  -- What follows the reply of an attempt; `again` is the rest of the loop.
  unfoldable pub settle_attempt :
      ℕ → Response Input → Bool → ℕ → CallResult Input × World → World → CallResult Input × World
  settle_attempt attempt (answered blocks usage) fails now again w = (
    ok (first_tool_input blocks) (texts blocks) usage,
    account opts none (price_of opts.model usage) (book opts.model fails now usage w),
  )
  settle_attempt attempt (threw err) fails now again w =
      if err.is_error && err.is_abort
      then refuse opts timed_out w
      else if leb max_retries attempt || not (is_retryable err)
      then refuse opts http_error w
      else again

  abbrev sent : ℕ → World → World
  sent attempt w = send (replies attempt).deadline_passed (replies attempt).other_write_failed w

  -- The loop, with the rounds left and the index of the next attempt.
  unfoldable pub attempt_from : ℕ → ℕ → World → CallResult Input × World
  unfolding settle_attempt send
  attempt_from zero attempt w = refuse opts http_error w
  attempt_from (suc rounds) attempt w =
      let again = attempt_from rounds (attempt + 1) (sent attempt w) in
      if ltb 0 attempt && ledger_write_failed w
      then refuse opts spend_unrecorded w
      else if ltb 0 attempt && is_scan_cancelled w
      then refuse opts scan_cancelled w
      else settle_attempt attempt (replies attempt).response (replies attempt).write_fails
          (replies attempt).now again (sent attempt w)

  unfoldable pub call_live : Bool → World → CallResult Input × World
  unfolding attempt_from
  call_live has_client w =
      let rest = attempt_from (max_retries + 1) 0 w in
      if ledger_write_failed w
      then refuse opts spend_unrecorded w
      else if is_scan_cancelled w
      then refuse opts scan_cancelled w
      else if not has_client
      then refuse opts no_api_key w
      else rest

  unfoldable pub call_claude : Mode Input → Bool → World → CallResult Input × World
  unfolding call_live
  call_claude live has_client w = call_live has_client w
  call_claude (replay none) has_client w = (fixture_missing, w)
  call_claude (replay (some (tool_input, text))) has_client w =
      (ok tool_input text none, account opts none none w)
