-- ===== src/Webhook.antt =====
-- POST /webhook: src/server/github-webhook-route.ts, and in src/integrations/github pr-action-filter.ts,
-- webhook-signature.ts and github-payload-validation.ts. This file holds what the children share: parsed
-- JSON and headers.
pub mod Actions
pub mod Signature
pub mod Route
pub mod Payload
pub mod Gate
mod Tests
use fixor.Prelude.{
  ℕ, zero, suc, ◌+◌, ◌-◌, ◌*◌, ◌/◌, ◌%◌, ◌≤◌, ◌<◌, min, max, ◌≡◌, ◌≢◌, ◌∙◌, refl, sym, ap, subst,
  ◌↔◌, ◌⊎◌, inl, inr, Bool, true, false, not, ◌&&◌, ◌||◌, Option, none, some, List, [], ◌∷◌, ◌++◌,
  map, String, arith, ◌^◌, ltb, leb, ◌==◌, if◌then◌else◌, ltb→lt, leb→le, ==_iff, Bool-cases,
  Option-cases, or_else, eq_of_some, length, get_elem?, drop, take, any, all, filterb,
  length-append, All, All-append, str_eq, includes, Map, get, put, remove, retain, kept, Distinct,
  get-put, get-remove, get-empty, put-Distinct, get-retain, retain-Distinct, map_laws, codes,
  codes_eq, starts_with, contains, to_lower, is_space, trim, split_from, is_empty, eq_iff, eq_refl,
}

-- A value that `JSON.parse` returns, with natural numbers. The members of an object have different keys, as JavaScript's have.
mutual
  pub data Json : Type 0 where
    null : Json
    boolean : Bool → Json
    number : ℕ → Json
    text : String → Json
    array : Members → Json
    object : Members → Json

  -- The members of an object; the keys of an array's are not read.
  pub data Members : Type 0 where
    no_members : Members
    member : String → Json → Members → Members

-- `none` is undefined.
abbrev pub lookup : String → Members → Option Json
lookup k no_members = none
lookup k (member j v ms) = let rest = lookup k ms in if str_eq j k then some v else rest

-- `v.k` of a value that may be undefined or no object (`?.` and a cast in the source).
abbrev pub field : String → Option Json → Option Json
field k (some (object ms)) = lookup k ms
field k _ = none

-- A header: `string | string[] | undefined`.
pub data Header : Type 0 where
  absent : Header
  one : String → Header
  several : List String → Header

abbrev pub first_header : Header → Option String
first_header absent = none
first_header (one v) = some v
first_header (several []) = none
first_header (several (v ∷ vs)) = some v
