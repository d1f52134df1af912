-- ===== src/Delivery.antt =====
-- One pull_request delivery from its acceptance to the final state of its row:
-- src/integrations/github/pr-webhook-handler.ts. This file holds what the halves of the handler share.
pub mod Accept
pub mod Recorded
pub mod Scan
pub mod Phases
pub mod Handler
pub mod Triples
pub mod Untouched
pub mod Guard
pub mod Outcomes
pub mod Deadline
pub mod Rerun
mod Tests
use fixor.Prelude.{
  ℕ, zero, suc, ◌+◌, ◌-◌, ◌*◌, ◌/◌, ◌%◌, ◌≤◌, ◌<◌, min, max, ◌≡◌, ◌≢◌, ◌∙◌, refl, sym, ap, subst,
  ◌↔◌, ◌⊎◌, inl, inr, Bool, true, false, not, ◌&&◌, ◌||◌, Option, none, some, List, [], ◌∷◌, ◌++◌,
  map, String, arith, ◌^◌, ltb, leb, ◌==◌, if◌then◌else◌, ltb→lt, leb→le, ==_iff, Bool-cases,
  Option-cases, or_else, eq_of_some, length, get_elem?, drop, take, any, all, filterb,
  length-append, All, All-append, str_eq, includes, Map, get, put, remove, retain, kept, Distinct,
  get-put, get-remove, get-empty, put-Distinct, get-retain, retain-Distinct, map_laws, codes,
  codes_eq, starts_with, contains, to_lower, is_space, trim, trim_text, join, decimal, digits_from,
  is_digit, digits_from-decimal, split_from, is_empty, eq_iff, eq_refl,
}
use fixor.ScanRun.{Outcome, Start}

pub data WebhookSignatureState : Type 0 where
  unchecked valid_signature invalid_signature : WebhookSignatureState

-- The failures before a scan, by their error texts and flags.
pub data Failure : Type 0 where
  secret_missing signature_refused : Failure
  malformed : (missing_fields : List String) → Failure
  unpriced_refused duplicate_delivery : Failure
  token_missing : Failure
  github_refused timed_out : Failure

-- ScanRunState. `cost_ctx` is the ledgerWriteFailed of the scan's cost context, once there is one.
pub record ScanRunState : Type 0 where
  pub id : Option String
  pub outcome : Option Outcome
  pub spend : ℕ
  pub pre_scan_write_failed : Bool
  pub spend_unrecorded : Bool
  pub finished : Bool
  pub cancelled : Bool
  pub cost_ctx : Option Bool

unfoldable pub new_run : Option String → Bool → ScanRunState
new_run id failed = record {
  id = id;
  outcome = none;
  spend = 0;
  pre_scan_write_failed = failed;
  spend_unrecorded = false;
  finished = false;
  cancelled = false;
  cost_ctx = none;
}

pub record DeliveryContext : Type 0 where
  pub dry_run : Bool
  pub signature_state : WebhookSignatureState
  pub owner : String
  pub repo : String
  pub pull_number : ℕ
  pub head_sha : String
  pub action : Option String
  pub installation_id : Option ℕ
