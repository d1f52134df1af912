-- ===== src/Comment.antt =====
-- The size guard of a comment: src/integrations/github/comment-size-guard.ts. A text is the list of its UTF-16 code
-- units, and `Buffer.byteLength` is an argument.
pub mod Search
pub mod Limit
mod Tests
use fixor.Prelude.{
  ℕ, zero, suc, ◌+◌, ◌-◌, ◌*◌, ◌/◌, ◌%◌, ◌≤◌, ◌<◌, min, max, ◌≡◌, ◌≢◌, ◌∙◌, refl, sym, ap, subst,
  ◌↔◌, ◌⊎◌, inl, inr, Bool, true, false, not, ◌&&◌, ◌||◌, Option, none, some, List, [], ◌∷◌, ◌++◌,
  map, String, arith, ◌^◌, ltb, leb, ◌==◌, if◌then◌else◌, ltb→lt, leb→le, ==_iff, Bool-cases,
  Option-cases, or_else, eq_of_some, length, get_elem?, drop, take, any, all, filterb,
  length-append, any-append, All, All-append, str_eq, includes, Map, get, put, remove, retain, kept,
  Distinct, get-put, get-remove, get-empty, put-Distinct, get-retain, retain-Distinct, map_laws,
  codes, codes_eq, starts_with, contains, to_lower, is_space, trim, trim_text, join, decimal,
  digits_from, is_digit, digits_from-decimal, split_from, is_empty, eq_iff, eq_refl,
}

abbrev pub Text : Type 0
Text = List ℕ

-- `s.trimEnd()`
unfoldable pub trim_end : Text → Text
trim_end [] = []
trim_end (c ∷ s) = let rest = trim_end s in if is_space c && is_empty rest then [] else c ∷ rest

-- The texts before and from the last occurrence of the marker.
abbrev pub continued : ℕ → Text → Bool → Option (Text × Text) → Option (Text × Text)
continued c s starts (some (p, q)) = some (c ∷ p, q)
continued c s starts none = if starts then some ([], c ∷ s) else none

unfoldable pub split_last : Text → Text → Option (Text × Text)
split_last marker [] = none
split_last marker (c ∷ s) = continued c s (starts_with marker (c ∷ s)) (split_last marker s)

abbrev pub default_max_comment_utf8_bytes : ℕ
default_max_comment_utf8_bytes = 58_000

-- FIXOR_PR_COMMENT_MARKER of comment-constants.ts
abbrev pub marker : Text
marker = codes "<!-- fixor:sql-injection-report -->"

pub record CommentSizeGuardResult : Type 0 where
  pub body : Text
  pub truncated : Bool
  pub original_utf8_bytes : ℕ
  pub final_utf8_bytes : ℕ

unfoldable pub notice : ℕ → ℕ → Text
notice original max_bytes = codes (
    join
      "\n\n---\n\n> **Note:** This comment was **truncated by Fixor** to stay within GitHub size limits (~"
      (join (decimal original) (
        join " bytes → limit "
          (join (decimal max_bytes) " bytes UTF-8). Some fix details were omitted.\n"))))

abbrev pub prefix_of : Text → Option (Text × Text) → Text
prefix_of body none = trim_end body
prefix_of body (some (p, q)) = trim_end p

abbrev pub suffix_of : Option (Text × Text) → Text
suffix_of none = codes "\n\n" ++ marker ++ codes "\n"
suffix_of (some (p, q)) = q

module _ (utf8_byte_length : Text → ℕ) where
  -- The loop: the bounds after a round, and `low` once they meet; `fuel` bounds the rounds.
  unfoldable pub next_bounds : Text → ℕ → ℕ → ℕ → ℕ × ℕ
  next_bounds text max_bytes low high =
      let mid = (low + high + 1) / 2 in
      if leb (utf8_byte_length (take mid text)) max_bytes then (mid, high) else (low, mid - 1)

  unfoldable pub search : ℕ → Text → ℕ → ℕ × ℕ → ℕ
  unfolding next_bounds
  search zero text max_bytes (low, high) = low
  search (suc fuel) text max_bytes (low, high) =
      let rest = search fuel text max_bytes (next_bounds text max_bytes low high) in
      if ltb low high then rest else low

  unfoldable pub truncate_utf8_to_max_bytes : Text → ℕ → Text
  unfolding search
  truncate_utf8_to_max_bytes text max_bytes =
      if leb (utf8_byte_length text) max_bytes
      then text
      else trim_end (take (search (length text) text max_bytes (0, length text)) text)

  -- `Math.max(4096, maxUtf8Bytes - notice - suffix - 64)`; where that is negative, 4096 is larger.
  abbrev pub safe_budget : ℕ → Text → Text → ℕ
  safe_budget max_bytes note suffix =
      max 4096 (max_bytes - utf8_byte_length note - utf8_byte_length suffix - 64)

  unfoldable pub shorten : Text → ℕ → ℕ → Option (Text × Text) → CommentSizeGuardResult
  unfolding truncate_utf8_to_max_bytes notice
  shorten body original max_bytes found =
      let note = notice original max_bytes in
      let suffix = suffix_of found in
      let text =
        truncate_utf8_to_max_bytes (prefix_of body found) (safe_budget max_bytes note suffix)
        ++ note
        ++ suffix in
      record {
        body = text;
        truncated = true;
        original_utf8_bytes = original;
        final_utf8_bytes = utf8_byte_length text;
      }

  unfoldable pub apply_comment_size_guard : Text → ℕ → CommentSizeGuardResult
  unfolding shorten split_last
  apply_comment_size_guard body max_bytes =
      let original = utf8_byte_length body in
      if leb original max_bytes
      then record {
        body = body;
        truncated = false;
        original_utf8_bytes = original;
        final_utf8_bytes = original;
      }
      else shorten body original max_bytes (split_last marker body)
