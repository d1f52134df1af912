-- ===== src/Budget/Failure.antt =====
-- classifyBudgetReadFailure of src/services/cost-store.ts. The regular expressions are alternations of
-- literals, so they are searches for one of some texts, after `to_lower` where the flag is i.
use fixor.Prelude.{
  ℕ, zero, suc, ◌≡◌, ◌≢◌, ◌∙◌, refl, sym, ap, ◌↔◌, inl, inr, Bool, false, not, ◌&&◌, ◌||◌, Option,
  none, some, List, [], ◌∷◌, map, String, if◌then◌else◌, Option-cases, or_else, any, str_eq,
  includes, codes, starts_with, contains, to_lower,
}
use fixor.Budget.{FailureKind, connection, timeout, query, config, unknown, Thrown, falsy, thrown}

abbrev pub network_error_codes : List String
network_error_codes =
    "ECONNREFUSED" ∷ "ECONNRESET" ∷ "ECONNABORTED" ∷ "ETIMEDOUT" ∷ "ENOTFOUND" ∷ "EAI_AGAIN"
    ∷ "EPIPE" ∷ "EHOSTUNREACH" ∷ "ENETUNREACH" ∷ []

abbrev pub pg_connection_sqlstates : List String
pg_connection_sqlstates = "57P01" ∷ "57P02" ∷ "57P03" ∷ "53300" ∷ []

abbrev pub connection_messages : List String
connection_messages =
    "connection terminated" ∷ "timeout exceeded when trying to connect" ∷ "could not connect"
    ∷ "couldn't connect" ∷ []

unfoldable pub mentions_connection : String → Bool
mentions_connection message =
    any (λ m. contains (codes m) (map to_lower (codes message))) connection_messages

unfoldable pub is_connection_code : Option String → Bool
is_connection_code none = false
is_connection_code (some code) =
    not (str_eq code "")
    && (includes code network_error_codes
        || (starts_with (codes "08") (codes code) || includes code pg_connection_sqlstates))

is_nonempty : Option String → Bool
is_nonempty none = false
is_nonempty (some code) = not (str_eq code "")

-- The verdict of one level, if it has one.
unfoldable pub verdict : Bool → Option String → String → Bool → Option FailureKind
unfolding is_nonempty
verdict is_timeout code message has_severity =
    if is_timeout
    then some timeout
    else if contains (codes "DATABASE_URL is not set") (codes message)
    then some config
    else if is_connection_code code
    then some connection
    else if mentions_connection message
    then some connection
    else if is_nonempty code && has_severity
    then some query
    else none

-- The walk, `depth` levels at most.
unfoldable pub walk : ℕ → Thrown → FailureKind
walk zero err = unknown
walk (suc depth) falsy = unknown
walk (suc depth) (thrown is_timeout code message has_severity has_errors first_error cause) =
    let deeper = walk depth (if has_errors then first_error else cause) in
    or_else (verdict is_timeout code message has_severity) deeper

unfoldable pub classify : Thrown → FailureKind
unfolding walk
classify err = walk 5 err

-- The level at which the walk finds its first verdict.
pub data Found : ℕ → Thrown → FailureKind → Type 0 where
  at_level :
      {depth : ℕ} {t : Bool} {c : Option String} {m : String} {s e : Bool} {first cause : Thrown}
      {kind : FailureKind}
      → verdict t c m s ≡ some kind
      → Found (suc depth) (thrown t c m s e first cause) kind
  below_level :
      {depth : ℕ} {t : Bool} {c : Option String} {m : String} {s e : Bool}
      {first cause next : Thrown} {kind : FailureKind}
      → verdict t c m s ≡ none
      → (if e then first else cause) ≡ next
      → Found depth next kind
      → Found (suc depth) (thrown t c m s e first cause) kind

walk-Found :
    (depth : ℕ) (e : Thrown) (kind : FailureKind)
    → kind ≢ unknown
    → walk depth e ≡ kind
    → Found depth e kind
unfolding walk
walk-Found zero e kind named h = absurd (named (sym h))
walk-Found (suc depth) falsy kind named h = absurd (named (sym h))
walk-Found (suc depth) (thrown t c m s e first cause) kind named h =
    elim (Option-cases (verdict t c m s)) [
      | inl silent ↦
          below_level silent refl
            (walk-Found depth (if e then first else cause) kind named (rw silent at h))
      | inr (k, says) ↦ at_level (says ∙ ap some (rw says at h))
    ]

Found-walk :
    {depth : ℕ} {e : Thrown} {kind : FailureKind} → Found depth e kind → walk depth e ≡ kind
unfolding walk
Found-walk (at_level says) = rw says
Found-walk (below_level silent e f) = rw (silent, e) (Found-walk f)

-- A failure is classified as a kind other than `unknown` exactly if that is the verdict of the first of
-- the five outermost levels of the error (through `cause`, or the first of `errors`) that has one.
pub classify_iff :
    (e : Thrown) (kind : FailureKind) → kind ≢ unknown → (classify e ≡ kind) ↔ Found 5 e kind
unfolding classify
classify_iff e kind named = (walk-Found 5 e kind named, Found-walk)
