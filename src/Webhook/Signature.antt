-- ===== src/Webhook/Signature.antt =====
-- The check of X-Hub-Signature-256: src/integrations/github/webhook-signature.ts. HMAC-SHA256 is an argument.
use fixor.Prelude.{
  ℕ, ◌+◌, ◌-◌, ◌*◌, ◌≡◌, ◌∙◌, refl, ap, inl, inr, Bool, true, false, ◌&&◌, Option, none, some, List,
  [], ◌∷◌, String, arith, leb, if◌then◌else◌, Bool-cases, Option-cases, drop, str_eq, codes,
  codes_eq, starts_with, trim, is_empty,
}

abbrev pub prefix : List ℕ
prefix = codes "sha256="

abbrev pub hex_digit : ℕ → Option ℕ
hex_digit c =
    if leb b'0' c && leb c b'9'
    then some (c - b'0')
    else if leb b'a' c && leb c b'f'
    then some (c - b'a' + 10)
    else if leb b'A' c && leb c b'F'
    then some (c - b'A' + 10)
    else none

-- The byte of two digits, before the bytes that follow.
abbrev cons_byte : Option ℕ → Option ℕ → Option (List ℕ) → Option (List ℕ)
cons_byte (some h) (some l) (some bytes) = some ((h * 16 + l) ∷ bytes)
cons_byte _ _ _ = none

-- `Buffer.from(hex, "hex")` on a text of an even number of hex digits, and none on any other text.
pub decode_hex : List ℕ → Option (List ℕ)
decode_hex [] = some []
decode_hex (c ∷ []) = none
decode_hex (h ∷ (l ∷ s)) = cons_byte (hex_digit h) (hex_digit l) (decode_hex s)

-- timingSafeEqual after the comparison of the lengths.
equals_digest : List ℕ → Option (List ℕ) → Bool
equals_digest expected none = false
equals_digest expected (some received) = codes_eq received expected

module _ (hmac : String → String → List ℕ) where
  -- The received hex text; an empty one is no hex text.
  check_hex : String → String → List ℕ → Bool
  unfolding decode_hex equals_digest
  check_hex raw_body secret received =
      if is_empty received
      then false
      else equals_digest (hmac secret raw_body) (decode_hex received)

  verify_header : String → String → List ℕ → Bool
  unfolding check_hex
  verify_header raw_body secret trimmed =
      if starts_with prefix trimmed
      then check_hex raw_body secret (trim (drop 7 trimmed))
      else false

  unfoldable pub verify_signature : String → Option String → String → Bool
  unfolding verify_header
  verify_signature raw_body none secret = false
  verify_signature raw_body (some header) secret =
      if str_eq secret "" then false else verify_header raw_body secret (trim (codes header))

  codes_eq-eq : (a b : List ℕ) → codes_eq a b ≡ true → a ≡ b
  codes_eq-eq [] [] h = refl
  codes_eq-eq [] (b ∷ bs) h = ground (arith, h)
  codes_eq-eq (a ∷ as') [] h = ground (arith, h)
  codes_eq-eq (a ∷ as') (b ∷ bs) h = ground (arith, h, codes_eq-eq as' bs)

  -- A header is accepted only if a secret is set and the header is, up to white space, `sha256=` and a
  -- nonempty text of hex digits that decodes to the HMAC of the body under that secret.
  pub verify_signature-digest :
      (raw_body secret : String) (header : Option String)
      → verify_signature raw_body header secret ≡ true
      → (h : String) × (header ≡ some h)
        × (str_eq secret "" ≡ false)
        × (starts_with prefix (trim (codes h)) ≡ true)
        × (is_empty (trim (drop 7 (trim (codes h)))) ≡ false)
        × (decode_hex (trim (drop 7 (trim (codes h)))) ≡ some (hmac secret raw_body))
  unfolding verify_signature verify_header check_hex equals_digest
  verify_signature-digest raw_body secret none ok = ground (arith, ok)
  verify_signature-digest raw_body secret (some h) ok = elim (Bool-cases (str_eq secret "")) [
    | inl unset ↦ absurd (ground (arith, rw unset at ok))
    | inr set ↦ elim (Bool-cases (starts_with prefix (trim (codes h)))) [
      | inr other ↦ absurd (ground (arith, rw (set, other) at ok))
      | inl marked ↦ elim (Bool-cases (is_empty (trim (drop 7 (trim (codes h)))))) [
        | inl nothing ↦ absurd (ground (arith, rw (set, marked, nothing) at ok))
        | inr something ↦ elim (Option-cases (decode_hex (trim (drop 7 (trim (codes h)))))) [
          | inl wrong ↦ absurd (ground (arith, rw (set, marked, something, wrong) at ok))
          | inr (bytes, right) ↦ (
            h,
            refl,
            set,
            marked,
            something,
            right
                ∙ ap some (
                    codes_eq-eq bytes (hmac secret raw_body)
                      (rw (set, marked, something, right) at ok)),
          )
        ]
      ]
    ]
  ]
