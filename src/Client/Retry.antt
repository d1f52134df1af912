-- ===== src/Client/Retry.antt =====
-- The retry policy of src/lib/anthropic-retry.ts. `Date.parse` less the present time is an argument.
use fixor.Prelude.{
  digits_from, ℕ, ◌+◌, ◌*◌, ◌/◌, min, Bool, true, false, ◌&&◌, ◌||◌, Option, none, some, List, [],
  ◌∷◌, String, ◌^◌, ltb, leb, ◌==◌, if◌then◌else◌, or_else, includes, codes, is_space, is_empty,
}
use fixor.Client.{SdkError}

abbrev pub max_retries : ℕ
max_retries = 3

abbrev pub base_delay_ms : ℕ
base_delay_ms = 1000

abbrev pub max_delay_ms : ℕ
max_delay_ms = 30000

abbrev retryable_network_codes : List String
retryable_network_codes =
    "ECONNRESET" ∷ "ECONNREFUSED" ∷ "ETIMEDOUT" ∷ "EAI_AGAIN" ∷ "ENETUNREACH" ∷ "ENOTFOUND" ∷ []

abbrev is_network_code : Option String → Bool
is_network_code none = false
is_network_code (some code) = includes code retryable_network_codes

-- `status === 429`, or 500 to 599.
abbrev is_retryable_status : Option ℕ → Bool
is_retryable_status none = false
is_retryable_status (some status) = status == 429 || (leb 500 status && leb status 599)

abbrev has_network_code : SdkError → Bool
has_network_code err = err.is_error && (is_network_code err.code || is_network_code err.cause_code)

abbrev is_undefined : Option ℕ → Bool
is_undefined none = true
is_undefined (some _) = false

unfoldable pub is_retryable : SdkError → Bool
is_retryable err =
    if err.is_error && err.is_abort
    then false
    else if err.is_connection_error
    then true
    else if is_retryable_status err.status
    then true
    else if is_undefined err.status && has_network_code err
    then true
    else false

-- `Number.parseInt(s, 10)`, none where it is NaN or negative; a header of over 308 digits is not considered.
unfoldable pub parse_int : List ℕ → Option ℕ
unfolding digits_from
parse_int [] = none
parse_int (c ∷ s) =
    let rest = parse_int s in
    if is_space c then rest else if c == b'+' then digits_from none s else digits_from none (c ∷ s)

-- The exponential delay: 1000 · 2 ^ attempt, with a jitter of 20% either way; `random` of `resolution` is
-- the fraction drawn.
unfoldable pub exponential_delay : (attempt random resolution : ℕ) → ℕ
exponential_delay attempt random resolution =
    base_delay_ms * 2 ^ attempt * (8 * resolution + 4 * random) / (10 * resolution)

-- The delay that the server asks for, if it asks for one.
unfoldable pub requested_delay : (date_diff : Option ℕ) → Option ℕ → Option ℕ
requested_delay date_diff seconds = elim seconds [
  | some s ↦ if ltb 0 s then some (min (s * 1000) max_delay_ms) else elim date_diff [
    | some diff ↦ if ltb 0 diff then some (min diff max_delay_ms) else none
    | none ↦ none
  ]
  | none ↦ elim date_diff [
    | some diff ↦ if ltb 0 diff then some (min diff max_delay_ms) else none
    | none ↦ none
  ]
]

-- `date_diff h` is `Date.parse(h) - Date.now()`, none where that is NaN or negative.
unfoldable pub backoff_delay_ms :
    (date_diff : String → Option ℕ) → (attempt : ℕ) → Option String → (random resolution : ℕ) → ℕ
unfolding requested_delay parse_int exponential_delay
backoff_delay_ms date_diff attempt none random resolution =
    exponential_delay attempt random resolution
backoff_delay_ms date_diff attempt (some header) random resolution =
    if is_empty (codes header)
    then exponential_delay attempt random resolution
    else or_else (requested_delay (date_diff header) (parse_int (codes header)))
        (exponential_delay attempt random resolution)
