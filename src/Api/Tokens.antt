-- ===== src/Api/Tokens.antt =====
-- src/services/api-tokens.service.ts.
use fixor.Prelude.{
  ℕ, ◌≡◌, ◌∙◌, refl, ap, inl, inr, true, false, Option, none, some, List, [], ◌∷◌, ◌++◌, String,
  arith, if◌then◌else◌, Bool-cases, eq_of_some, str_eq, codes, starts_with, join, eq_iff,
}
use fixor.Api.{TokenRow, OrgRow, ApiDb, VerifiedToken}

abbrev pub token_prefix : String
token_prefix = "fxr_"

-- The first row with the hash.
unfoldable pub find_token : String → List TokenRow → Option TokenRow
find_token hash [] = none
find_token hash (row ∷ rows) =
    let rest = find_token hash rows in if str_eq row.hash hash then some row else rest

unfoldable pub live_token : Option TokenRow → Option VerifiedToken
live_token none = none
live_token (some row) =
    if row.revoked then none else some (record { token_id = row.id; org_id = row.org_id })

module _ (hash_token : String → String) where
  -- generateApiToken: the plain text and the hash.
  unfoldable pub generate_api_token : (random : String) → String × String
  generate_api_token random = let plain = join token_prefix random in (plain, hash_token plain)

  unfoldable pub verify_api_token : ApiDb → String → Option VerifiedToken
  unfolding find_token live_token
  verify_api_token db plain =
      if starts_with (codes token_prefix) (codes plain)
      then live_token (find_token (hash_token plain) db.tokens)
      else none

abbrev mark_rows : String → ℕ → List TokenRow → List TokenRow
mark_rows id now [] = []
mark_rows id now (row ∷ rows) =
    (if str_eq row.id id then record row { last_used_at = some now } else row)
    ∷ mark_rows id now rows

unfoldable pub mark_token_used : String → ℕ → ApiDb → ApiDb
mark_token_used id now db = record db { tokens = mark_rows id now db.tokens }

abbrev installation_in : String → List OrgRow → Option String
installation_in id [] = none
installation_in id (row ∷ rows) =
    let rest = installation_in id rows in
    if str_eq row.id id then row.github_installation_id else rest

unfoldable pub get_installation_id_for_org : ApiDb → String → Option String
get_installation_id_for_org db id = installation_in id db.orgs

-- A new row, as src/scripts/create-api-token.ts inserts it, and the revocation of a row.
abbrev pub insert_token : TokenRow → ApiDb → ApiDb
insert_token row db = record db { tokens = db.tokens ++ row ∷ [] }

abbrev pub revoke_rows : String → List TokenRow → List TokenRow
revoke_rows id [] = []
revoke_rows id (row ∷ rows) =
    (if str_eq row.id id then record row { revoked = true } else row) ∷ revoke_rows id rows

-- The `revoked_at` of a row is set by hand in the database; no code of the repository does it.
abbrev pub revoke_token : String → ApiDb → ApiDb
revoke_token id db = record db { tokens = revoke_rows id db.tokens }

starts_with-join : (p s : String) → starts_with (codes p) (codes (join p s)) ≡ true
starts_with-join String.[] s = refl
starts_with-join (String.◌∷◌ c p) s = ground (arith, starts_with-join p s)

find_token-append :
    (hash : String) (rows : List TokenRow) (row : TokenRow)
    → find_token hash rows ≡ none
    → row.hash ≡ hash
    → find_token hash (rows ++ row ∷ []) ≡ some row
unfolding find_token
find_token-append hash [] row h e = ground (arith, eq_iff row.hash hash, e)
find_token-append hash (r ∷ rows) row h e = ground (arith, h, find_token-append hash rows row, e)

find_token-mark :
    (hash id : String) (now : ℕ) (rows : List TokenRow)
    → live_token (find_token hash (mark_rows id now rows)) ≡ live_token (find_token hash rows)
unfolding find_token live_token
find_token-mark hash id now [] = refl
find_token-mark hash id now (row ∷ rows) = ground (arith, find_token-mark hash id now rows)

find_token-revoke :
    (hash id : String) (rows : List TokenRow) (row : TokenRow)
    → find_token hash rows ≡ some row
    → row.id ≡ id
    → live_token (find_token hash (revoke_rows id rows)) ≡ none
unfolding find_token live_token
find_token-revoke hash id [] row h e = absurd (ground (arith, h))
find_token-revoke hash id (r ∷ rows) row h e = elim (Bool-cases (str_eq r.hash hash)) [
  | inl found ↦
      let here : r ≡ row = eq_of_some (rw found at h) in
      let same : str_eq r.id id ≡ true = (eq_iff r.id id).1 (ap (λ x. x.id) here ∙ e) in
      ground (arith, found, same)
  | inr other ↦
      let ih = find_token-revoke hash id rows row (rw other at h) e in ground (arith, other, ih)
]

module _ (hash_token : String → String) (random id org_id : String) (db : ApiDb) where
  -- A new token is the row's as long as its hash is no other row's: what generateApiToken shows verifies as the inserted
  -- row, marking any token as used changes nothing in that, and once the row is revoked, which an operator does in the
  -- database, it verifies no more.
  pub token_lifecycle :
      find_token (generate_api_token hash_token random).1 db.tokens ≡ none
      → let (plain, hash) = generate_api_token hash_token random in
        let row : TokenRow = record {
          id = id;
          org_id = org_id;
          hash = hash;
          revoked = false;
          last_used_at = none;
        } in
        let db' = insert_token row db in
        (verify_api_token hash_token db' plain ≡ some (record { token_id = id; org_id = org_id }))
        × ((used : String) (now : ℕ)
            → verify_api_token hash_token (mark_token_used used now db') plain
              ≡ verify_api_token hash_token db' plain)
        × (verify_api_token hash_token (revoke_token id db') plain ≡ none)
  unfolding generate_api_token verify_api_token mark_token_used live_token
  token_lifecycle new' =
      let (plain, hash) = generate_api_token hash_token random in
      let row : TokenRow = record {
        id = id;
        org_id = org_id;
        hash = hash;
        revoked = false;
        last_used_at = none;
      } in
      let found = find_token-append hash db.tokens row new' refl in
      (
        rw found refl,
        (λ used now. find_token-mark hash used now (db.tokens ++ row ∷ [])),
        find_token-revoke hash id (db.tokens ++ row ∷ []) row found refl,
      )
