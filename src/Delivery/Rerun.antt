-- ===== src/Delivery/Rerun.antt =====
-- rerunRecordedScanRun of src/integrations/github/pr-webhook-handler.ts: the delivery that a recorded row stands for.
-- An installation is a natural number; a stored text that reads as a negative one is not considered.
use fixor.Prelude.{
  ℕ, ◌≡◌, refl, Bool, true, false, not, ◌||◌, Option, none, some, List, [], ◌∷◌, String, arith,
  ◌==◌, if◌then◌else◌, any, str_eq, codes, join, decimal, digits_from, digits_from-decimal,
}
use Prim.Native.Char.{Char, code}
use mathlib.Core.Option
use fixor.ScanRun.{Start}
use fixor.Webhook.Payload.{ValidatedWebhook}
use fixor.Delivery.{unchecked, ScanRunState, new_run, DeliveryContext}
use fixor.Delivery.Accept.{Options, start_of, context_of}
use fixor.Client.Retry.{parse_int}

abbrev map_first : Char → Option (String × String) → Option (String × String)
map_first c none = none
map_first c (some (s, t)) = some (String.◌∷◌ c s, t)

-- The text before the first "/" and the text after it, if there is one.
unfoldable pub split_slash : String → Option (String × String)
split_slash String.[] = none
split_slash (String.◌∷◌ c s) =
    let rest = map_first c (split_slash s) in if code c == b'/' then some (String.[], s) else rest

-- The coordinates, where neither is empty and the number is one.
unfoldable pub coordinates : Option (String × String) → Option ℕ → Option (String × String × ℕ)
coordinates (some (owner, repo)) (some installation) =
    if str_eq owner "" || str_eq repo "" then none else some (owner, repo, installation)
coordinates _ _ = none

-- The run and the context of a re-run, none where the function throws.
unfoldable pub rerun_of : String → Start → Bool → Option (ScanRunState × DeliveryContext)
unfolding split_slash coordinates parse_int new_run
rerun_of id start dry_run =
    Option.map
      (λ c. (
        new_run (some id) false,
        record {
          dry_run = dry_run;
          signature_state = unchecked;
          owner = c.0;
          repo = c.1;
          pull_number = start.pull_number;
          head_sha = start.head_sha;
          action = none;
          installation_id = some c.2;
        },
      ))
      (coordinates (split_slash start.repo_full_name) (parse_int (codes start.installation_id)))

-- No "/" in a text.
abbrev pub is_segment : String → Bool
is_segment s = not (any (λ c. c == b'/') (codes s))

split_slash-join :
    (owner repo : String)
    → is_segment owner ≡ true
    → split_slash (join owner (join "/" repo)) ≡ some (owner, repo)
unfolding split_slash
split_slash-join String.[] repo h = refl
split_slash-join (String.◌∷◌ c s) repo h =
    let other : (code c == b'/') ≡ false = ground (arith, h) in
    let rest : is_segment s ≡ true = ground (arith, h) in
    rw (other, split_slash-join s repo rest) refl

parse_int-digits : (cs : List ℕ) (n : ℕ) → digits_from none cs ≡ some n → parse_int cs ≡ some n
unfolding parse_int digits_from
parse_int-digits [] n h = absurd (ground (arith, h))
parse_int-digits (c ∷ s) n h = ground (arith, h)

-- A delivery recorded as a row and re-run from it is scanned with the same owner, repository, pull request, head and
-- installation, if the owner has no "/" and neither name is empty; what a row has no column for is reset.
pub rerun_of-start_of :
    (o : Options) (now installation : ℕ) (v : ValidatedWebhook) (id : String) (dry_run : Bool)
    → is_segment v.owner ≡ true
    → str_eq v.owner "" ≡ false
    → str_eq v.repo "" ≡ false
    → rerun_of id (start_of o now installation v) dry_run
      ≡ some (
        new_run (some id) false,
        record (context_of o unchecked (some installation) v) { dry_run = dry_run; action = none },
      )
unfolding rerun_of coordinates
rerun_of-start_of o now installation v id dry_run segment owner repo =
    rw
      (
        split_slash-join v.owner v.repo segment,
        parse_int-digits (codes (decimal installation)) installation
            (digits_from-decimal installation),
        owner,
        repo,
      )
      refl
