-- ===== src/Webhook/Payload.antt =====
-- validateGitHubPullRequestPayload of src/integrations/github/github-payload-validation.ts, over parsed JSON
-- whose numbers are natural. An empty `missing` is what lets the source assert that the parts are defined.
use fixor.Prelude.{
  str_eq, ℕ, ◌≤◌, ◌≡◌, ◌∙◌, ap, inl, inr, Bool, true, false, Option, none, some, List, [], ◌∷◌,
  ◌++◌, String, arith, leb, if◌then◌else◌, Bool-cases, Option-cases, or_else, trim_text, is_empty,
}
use fixor.Webhook.{Json, null, boolean, number, text, array, object, field}
use fixor.Webhook.Actions.{is_record}

-- ValidatedGitHubPullRequestWebhook; its texts are trimmed.
pub record ValidatedWebhook : Type 0 where
  pub owner : String
  pub repo : String
  pub pull_number : ℕ
  pub head_sha : String
  pub action : Option String

-- GitHubPayloadValidationResult.
pub data ValidationResult : Type 0 where
  valid : ValidatedWebhook → ValidationResult
  invalid : (missing_fields : List String) → ValidationResult

-- A value that is `nonEmptyString`, trimmed.
abbrev pub trimmed_text : Option Json → Option String
trimmed_text (some (text s)) = if str_eq (trim_text s) "" then none else some (trim_text s)
trimmed_text _ = none

abbrev pub positive : Option Json → Option ℕ
positive (some (number n)) = if leb 1 n then some n else none
positive _ = none

-- The names of the parts that are missing.
abbrev unless : Bool → String → List String
unless present name = if present then [] else name ∷ []

abbrev is_defined {ℓ} : {A : Type ℓ} → Option A → Bool
is_defined none = false
is_defined (some a) = true

-- The parts that the payload is asked for.
pub record Parts : Type 0 where
  pub repository : Bool
  pub owner : Option String
  pub name : Option String
  pub pull_request : Bool
  pub pull_number : Option ℕ
  pub head_sha : Option String

abbrev pub parts_of : Json → Parts
parts_of payload =
    let repository = field "repository" (some payload) in
    let pr = field "pull_request" (some payload) in
    record {
      repository = is_record repository;
      owner = trimmed_text (field "login" (field "owner" repository));
      name = trimmed_text (field "name" repository);
      pull_request = is_record pr;
      pull_number = positive (field "number" pr);
      head_sha = trimmed_text (field "sha" (field "head" pr));
    }

unfoldable pub missing : Parts → List String
missing p =
    unless p.repository "repository"
    ++ (unless (is_defined p.owner) "repository.owner.login"
        ++ (unless (is_defined p.name) "repository.name"
            ++ (unless p.pull_request "pull_request"
                ++ (unless (is_defined p.pull_number) "pull_request.number"
                    ++ unless (is_defined p.head_sha) "pull_request.head.sha"))))

from_parts : Parts → Option String → ValidationResult
unfolding missing
from_parts p action =
    if is_empty (missing p)
    then valid (record {
      owner = or_else p.owner "";
      repo = or_else p.name "";
      pull_number = or_else p.pull_number 0;
      head_sha = or_else p.head_sha "";
      action = action;
    })
    else invalid (missing p)

unfoldable pub validate_payload : Json → ValidationResult
unfolding from_parts
validate_payload payload =
    if is_record (some payload)
    then from_parts (parts_of payload) (trimmed_text (field "action" (some payload)))
    else invalid ("<root>" ∷ [])

-- What a validated webhook says of the parts.
abbrev pub Holds : Parts → ValidatedWebhook → Type 0
Holds p d =
    (p.owner ≡ some d.owner)
    × (p.name ≡ some d.repo)
    × (p.pull_number ≡ some d.pull_number)
    × (p.head_sha ≡ some d.head_sha)

abbrev valid_or : ValidatedWebhook → ValidationResult → ValidatedWebhook
valid_or e (valid d) = d
valid_or e (invalid missing_fields) = e

-- Where the parts are defined, the asserted ones are they.
complete :
    (p : Parts) (action : Option String) (d : ValidatedWebhook)
    → from_parts p action ≡ valid d
    → (owner : String) × (p.owner ≡ some owner)
    → (name : String) × (p.name ≡ some name)
    → (n : ℕ) × (p.pull_number ≡ some n)
    → (sha : String) × (p.head_sha ≡ some sha)
    → Holds p d
unfolding from_parts
complete p action d h (owner, a) (name, b) (n, c) (sha, e) =
    elim (Bool-cases (is_empty (missing p))) [
      | inr lacking ↦ absurd (ground (arith, rw lacking at h))
      | inl full ↦
          let built : ValidatedWebhook = record {
            owner = or_else p.owner "";
            repo = or_else p.name "";
            pull_number = or_else p.pull_number 0;
            head_sha = or_else p.head_sha "";
            action = action;
          } in
          let whole : valid built ≡ valid d = rw full at h in
          let same : built ≡ d = ap (valid_or d) whole in
          let o : or_else p.owner "" ≡ d.owner = ap (λ v. v.owner) same in
          let r : or_else p.name "" ≡ d.repo = ap (λ v. v.repo) same in
          let k : or_else p.pull_number 0 ≡ d.pull_number = ap (λ v. v.pull_number) same in
          let s : or_else p.head_sha "" ≡ d.head_sha = ap (λ v. v.head_sha) same in
          (
            a ∙ ap some (rw a at o),
            b ∙ ap some (rw b at r),
            c ∙ ap some (rw c at k),
            e ∙ ap some (rw e at s),
          )
    ]

Holds-from_parts :
    (p : Parts) (action : Option String) (d : ValidatedWebhook)
    → from_parts p action ≡ valid d
    → Holds p d
unfolding from_parts missing
Holds-from_parts p action d h = elim (Option-cases p.owner) [
  | inl a ↦ absurd (ground (arith, a, h))
  | inr (owner, a) ↦ elim (Option-cases p.name) [
    | inl b ↦ absurd (ground (arith, a, b, h))
    | inr (name, b) ↦ elim (Option-cases p.pull_number) [
      | inl c ↦ absurd (ground (arith, a, b, c, h))
      | inr (n, c) ↦ elim (Option-cases p.head_sha) [
        | inl e ↦ absurd (ground (arith, a, b, c, e, h))
        | inr (sha, e) ↦ complete p action d h (owner, a) (name, b) (n, c) (sha, e)
      ]
    ]
  ]
]

positive-le : (o : Option Json) (n : ℕ) → positive o ≡ some n → 1 ≤ n
positive-le none n h = ground (arith, h)
positive-le (some null) n h = ground (arith, h)
positive-le (some (boolean b)) n h = ground (arith, h)
positive-le (some (text s)) n h = ground (arith, h)
positive-le (some (array ms)) n h = ground (arith, h)
positive-le (some (object ms)) n h = ground (arith, h)
positive-le (some (number i)) n h = ground (arith, h)

-- A payload that validates is an object in which each part that the webhook asserts is defined: the owner, the
-- repository's name and the head's hash are the trimmed texts that stand in it, none of them blank, and the
-- number is the one that stands in it, at least 1.
pub validate_payload-parts :
    (payload : Json) (d : ValidatedWebhook)
    → validate_payload payload ≡ valid d
    → (is_record (some payload) ≡ true) × Holds (parts_of payload) d × (1 ≤ d.pull_number)
unfolding validate_payload
validate_payload-parts payload d h = elim (Bool-cases (is_record (some payload))) [
  | inr other ↦ absurd (ground (arith, rw other at h))
  | inl record' ↦
      let holds = Holds-from_parts (parts_of payload) _ d (rw record' at h) in
      (
        record',
        holds,
        positive-le (field "number" (field "pull_request" (some payload))) d.pull_number holds.2,
      )
]
