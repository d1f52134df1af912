-- ===== src/Client.antt =====
-- Calls of the language model: src/analysis-engine/anthropic-client.ts with its retry policy, its prices and
-- its tallies. This file holds what the children share: the scan's context, the process's tallies, requests
-- and replies. Money is in billionths of a dollar.
pub mod Prices
pub mod Retry
pub mod Backoff
pub mod Tally
pub mod Call
pub mod Attempts
pub mod Stops
pub mod Spend
pub mod Escalation
mod Tests
use fixor.Prelude.{
  ℕ, zero, suc, ◌+◌, ◌-◌, ◌*◌, ◌/◌, ◌%◌, ◌≤◌, ◌<◌, min, max, ◌≡◌, ◌≢◌, ◌∙◌, refl, sym, ap, subst,
  ◌↔◌, ◌⊎◌, inl, inr, Bool, true, false, not, ◌&&◌, ◌||◌, Option, none, some, List, [], ◌∷◌, ◌++◌,
  map, String, arith, ltb, leb, ◌==◌, if◌then◌else◌, ltb→lt, leb→le, ==_iff, Bool-cases,
  Option-cases, or_else, eq_of_some, length, get_elem?, drop, take, any, all, filterb,
  length-append, All, All-append, str_eq, includes, Map, get, put, remove, retain, kept, Distinct,
  get-put, get-remove, get-empty, put-Distinct, get-retain, retain-Distinct, map_laws, codes,
  codes_eq, starts_with, contains, to_lower, is_space, trim, split_from, is_empty, eq_iff, eq_refl,
}
use fixor.Budget.Ledger.{CostDb}

-- ClaudeModelId of src/config/models.ts.
pub data Model : Type 0 where
  sonnet_4_6 opus_4_7 opus_4_8 haiku_4_5 : Model

pub data FailReason : Type 0 where
  no_api_key timed_out http_error spend_unrecorded scan_cancelled : FailReason

-- The usage block of a response, with the source's default 0 for what is absent.
pub record Usage : Type 0 where
  pub input_tokens : ℕ
  pub output_tokens : ℕ
  pub cache_creation_input_tokens : ℕ
  pub cache_read_input_tokens : ℕ

-- A content block, with the tool's input as any type: callClaude does not look into it.
pub data Block (Input : Type 0) : Type 0 where
  tool_use : Input → Block Input
  text_block : String → Block Input
  other_block : Block Input

-- A thrown value as far as the retry policy looks at it. `code` and `cause_code` are those of type string.
pub record SdkError : Type 0 where
  pub is_error : Bool
  pub is_abort : Bool
  pub is_connection_error : Bool
  pub status : Option ℕ
  pub code : Option String
  pub cause_code : Option String
  pub retry_after : Option String

pub data Response (Input : Type 0) : Type 0 where
  answered : List (Block Input) → Option Usage → Response Input
  threw : SdkError → Response Input

-- What one request comes to: its response, the time it is priced at, whether the ledger write of its cost is
-- refused, and whether the scan's deadline passed, or another call's ledger write failed, meanwhile (the wait
-- before a retry included).
pub record Reply (Input : Type 0) : Type 0 where
  pub response : Response Input
  pub now : ℕ
  pub write_fails : Bool
  pub deadline_passed : Bool
  pub other_write_failed : Bool

-- CostContextStore of src/lib/cost-context.ts.
pub record Context : Type 0 where
  pub installation_id : String
  pub scan_spend : Option ℕ
  pub ledger_write_failed : Bool
  pub cancelled : Bool

-- LlmCallFailure of src/lib/llm-coverage.ts.
pub record LlmCallFailure : Type 0 where
  pub caller : String
  pub reason : FailReason
  pub model : Model

-- The module's tally: `attempted` and `failures`.
pub record Coverage : Type 0 where
  pub attempted : ℕ
  pub failures : List LlmCallFailure

-- The counters of src/lib/llm-call-ledger.ts.
pub record Calls : Type 0 where
  pub calls : ℕ
  pub priced_calls : ℕ
  pub cost_usd : ℕ

-- What a call reads and changes. `context` is none outside a scan; `requests` counts the requests sent.
pub record World : Type 0 where
  pub context : Option Context
  pub coverage : Coverage
  pub call_ledger : Calls
  pub db : CostDb
  pub requests : ℕ

-- The fields of MessagesCallOptions that decide what is recorded.
pub record CallOptions : Type 0 where
  pub model : Model
  pub caller_id : Option String
  pub is_auxiliary : Bool
