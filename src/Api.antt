-- ===== src/Api.antt =====
-- The HTTP server of src/server/webhook-server.ts: the API tokens (src/services/api-tokens.service.ts), the scan behind
-- `POST /api/v1/scan` (src/server/api-scan.ts), the health checks (src/lib/health.ts) and the start of the server.
-- This file holds the tables that the API reads. SHA-256 is an argument, and so is the random text of a new token.
pub mod Tokens
pub mod Scan
pub mod Handler
pub mod Results
pub mod Guard
pub mod Calls
pub mod Server
pub mod Startup
mod Tests
use fixor.Prelude.{
  ℕ, zero, suc, ◌+◌, ◌-◌, ◌*◌, ◌/◌, ◌%◌, ◌≤◌, ◌<◌, min, max, ◌≡◌, ◌≢◌, ◌∙◌, refl, sym, ap, subst,
  ◌↔◌, ◌⊎◌, inl, inr, Bool, true, false, not, ◌&&◌, ◌||◌, Option, none, some, List, [], ◌∷◌, ◌++◌,
  map, String, arith, ◌^◌, ltb, leb, ◌==◌, if◌then◌else◌, ltb→lt, leb→le, ==_iff, Bool-cases,
  Option-cases, or_else, eq_of_some, length, get_elem?, drop, take, any, all, filterb,
  length-append, length-map, any-append, All, All-append, str_eq, includes, Map, get, put, remove,
  retain, kept, Distinct, get-put, get-remove, get-empty, put-Distinct, get-retain, retain-Distinct,
  map_laws, codes, codes_eq, starts_with, contains, to_lower, is_space, trim, trim_text, join,
  decimal, digits_from, is_digit, digits_from-decimal, split_from, is_empty, eq_iff, eq_refl,
}

-- A row of api_tokens; `revoked` says that its revokedAt is set.
pub record TokenRow : Type 0 where
  pub id : String
  pub org_id : String
  pub hash : String
  pub revoked : Bool
  pub last_used_at : Option ℕ

-- A row of orgs.
pub record OrgRow : Type 0 where
  pub id : String
  pub github_installation_id : Option String

pub record ApiDb : Type 0 where
  pub tokens : List TokenRow
  pub orgs : List OrgRow

pub record VerifiedToken : Type 0 where
  pub token_id : String
  pub org_id : String
