-- ===== src/Workflow/Input.antt =====
-- What the workflow reads of its payload: extractDiffString, parseSemgrepPayload and the side channels of an object.
use fixor.Prelude.{
  is_line_end, ℕ, Bool, true, false, ◌&&◌, ◌||◌, Option, none, some, List, [], ◌∷◌, String,
  if◌then◌else◌, drop, Map, codes, starts_with, contains, is_space, trim_text, is_empty,
}
use fixor.Workflow.{InputError, GuardError}

-- A Semgrep finding as the legacy path reads it.
pub record SqlFinding : Type 0 where
  pub file : String
  pub rule_id : String
  pub start_line : ℕ
  pub end_line : ℕ

-- A payload's fields, none where a field is absent or of another type; a result of Semgrep is opaque.
pub record PayloadFields : Type 0 where
  pub diff : Option String
  pub pr_diff : Option String
  pub results : Option (List String)
  pub findings : Option (List SqlFinding)
  pub changed_lines_by_path : Option (Map (List ℕ))
  pub scan_input_errors : List InputError
  pub route_guard_errors : List GuardError

-- `null_value` is null or undefined; `other` is an array, a number or a Boolean, which have no `results`.
pub data Payload : Type 0 where
  text : String → Payload
  object : PayloadFields → Payload
  null_value other : Payload

-- `/^---\s+\S/m` at the start of a line: white space, then anything else.
abbrev after_space : Bool → List ℕ → Bool
after_space seen [] = false
after_space seen (c ∷ s) = let rest = after_space true s in if is_space c then rest else seen

abbrev header_here : List ℕ → Bool
header_here s = starts_with (codes "---") s && after_space false (drop 3 s)

abbrev header_below : List ℕ → Bool
header_below [] = false
header_below (c ∷ s) = (is_line_end c && header_here s) || header_below s

-- `/^---\s+\S/m.test(t)`
abbrev pub has_header : List ℕ → Bool
has_header s = header_here s || header_below s

-- A diff has a Git header, or a hunk and a line end, or a header of the old file.
unfoldable pub is_diff_text : List ℕ → Bool
is_diff_text t =
    contains (codes "diff --git") t
    || ((contains (codes "@@") t && contains (10 ∷ []) t) || has_header t)

-- `typeof x === "string" && x.trim()`
abbrev nonblank : Option String → Option String
nonblank none = none
nonblank (some s) = if is_empty (codes (trim_text s)) then none else some (trim_text s)

abbrev first_of : Option String → Option String → Option String
first_of (some s) next = some s
first_of none next = next

unfoldable pub extract_diff_string : Payload → Option String
unfolding is_diff_text
extract_diff_string (text s) =
    let t = trim_text s in if is_diff_text (codes t) then some t else none
extract_diff_string (object fields) = first_of (nonblank fields.diff) (nonblank fields.pr_diff)
extract_diff_string null_value = none
extract_diff_string other = none

-- The validated root, its `results` an array.
pub record SemgrepRoot : Type 0 where
  pub results : List String
  pub findings : Option (List SqlFinding)

-- `malformed` is returned, `type_error` is thrown: `root.results` is read before the test for null.
pub data ParsedPayload : Type 0 where
  valid : SemgrepRoot → ParsedPayload
  malformed : (message : String) → ParsedPayload
  type_error : ParsedPayload

abbrev missing_arrays : String
missing_arrays = "Malformed payload: missing results or findings array"

-- A string that JSON.parse turns into a string again has no fields.
unfoldable pub validate_root : Payload → ParsedPayload
validate_root (object fields) = validate_arrays fields fields.results fields.findings
  where
    validate_arrays :
        PayloadFields → Option (List String) → Option (List SqlFinding) → ParsedPayload
    validate_arrays fields (some results) findings =
        valid (record { results = results; findings = findings })
    validate_arrays fields none (some findings) =
        valid (record { results = []; findings = some findings })
    validate_arrays fields none none = malformed missing_arrays
validate_root null_value = type_error
validate_root _ = malformed missing_arrays

abbrev parse_result : Option Payload → ParsedPayload
unfolding validate_root
parse_result none = malformed "Invalid JSON format"
parse_result (some root) = validate_root root

-- `json_parse` is `JSON.parse`, none where it throws.
unfoldable pub parse_semgrep_payload : (String → Option Payload) → Payload → ParsedPayload
unfolding validate_root
parse_semgrep_payload json_parse (text s) = parse_result (json_parse s)
parse_semgrep_payload json_parse payload = validate_root payload

-- The side channels, of an object only.
unfoldable pub changed_lines : Payload → Option (Map (List ℕ))
changed_lines (object fields) = fields.changed_lines_by_path
changed_lines _ = none

unfoldable pub scan_input_errors : Payload → List InputError
scan_input_errors (object fields) = fields.scan_input_errors
scan_input_errors _ = []

unfoldable pub route_guard_errors : Payload → List GuardError
route_guard_errors (object fields) = fields.route_guard_errors
route_guard_errors _ = []
