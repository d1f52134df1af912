-- ===== src/Mail.antt =====
-- The mail to an installer after the first scan: maybeSendFirstScanEmail of src/services/first-scan-email.ts. The text of
-- the mail is left out. An UPDATE with its WHERE and RETURNING is one step on the organisation's row; a statement
-- that fails changes nothing.
pub mod First
mod Tests
use fixor.Prelude.{
  ℕ, zero, suc, ◌+◌, ◌-◌, ◌*◌, ◌/◌, ◌%◌, ◌≤◌, ◌<◌, min, max, ◌≡◌, ◌≢◌, ◌∙◌, refl, sym, ap, subst,
  ◌↔◌, ◌⊎◌, inl, inr, Bool, true, false, not, ◌&&◌, ◌||◌, Option, none, some, List, [], ◌∷◌, ◌++◌,
  map, String, arith, ◌^◌, ltb, leb, ◌==◌, if◌then◌else◌, ltb→lt, leb→le, ==_iff, Bool-cases,
  Option-cases, or_else, eq_of_some, length, get_elem?, drop, take, any, all, filterb,
  length-append, length-map, any-append, All, All-append, str_eq, includes, Map, get, put, remove,
  retain, kept, Distinct, get-put, get-remove, get-empty, put-Distinct, get-retain, retain-Distinct,
  map_laws, codes, codes_eq, starts_with, contains, to_lower, is_space, trim, trim_text, join,
  decimal, digits_from, is_digit, digits_from-decimal, split_from, is_empty, eq_iff, eq_refl,
}

-- The columns of the orgs row that a mail reads and writes.
pub record MailRow : Type 0 where
  pub installer_email : Option String
  pub sent_at : Option ℕ

pub data MailStatus : Type 0 where
  sent no_email already_sent no_org send_failed : MailStatus

-- What the statements and the provider come to: which of them fail.
pub record MailEnv : Type 0 where
  pub claim_fails : Bool
  pub probe_fails : Bool
  pub rollback_fails : Bool
  pub send_fails : Bool

-- After the claim: the answer, or the address that RETURNING gave.
pub data Claim : Type 0 where
  not_claimed : MailStatus → Claim
  claimed : (email : Option String) → Claim

-- `if (!claimedEmail)`
abbrev pub address : Option String → Option String
address none = none
address (some email) = if str_eq email "" then none else some email

abbrev pub stamp : Option ℕ → MailRow → MailRow
stamp at' row = record row { sent_at = at' }

-- The UPDATE of the claim: `free` is its condition on the column.
unfoldable pub claim_row : Bool → ℕ → MailRow → Claim × MailRow
claim_row free now row =
    if free
    then (claimed row.installer_email, stamp (some now) row)
    else (not_claimed already_sent, row)

-- What follows a claim, but for the mail: the row, and whether the mail is handed to the provider.
unfoldable pub after_claim : MailEnv → Option String → MailRow → MailStatus × MailRow
after_claim env none row = (no_email, if env.rollback_fails then row else stamp none row)
after_claim env (some email) row = (if env.send_fails then send_failed else sent, row)

abbrev pub has_address : Option String → Bool
has_address none = false
has_address (some email) = true
