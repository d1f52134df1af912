-- ===== src/Prelude/Decimals.antt =====
-- Decimal numerals: `String(n)` and the digits that `Number.parseInt` reads.
use Prim.Native.Nat.{ℕ, zero, suc, ◌+◌, ◌-◌, ◌*◌, ◌/◌, ◌%◌, ◌<◌}
use Prim.Native.Char.{Char, code}
use Prim.Native.String.{String}
use mathlib.Core.Path.{◌≡◌, refl, ap, ◌∙◌}
use mathlib.Core.Bool.{Bool, false, ◌&&◌}
use mathlib.Core.List.{List, [], ◌∷◌}
use mathlib.Core.Logic.{inl, inr}
use mathlib.Core.Option.{Option, none, some}
use native.Mathlib.Omega.{arith}
use fixor.Prelude.Tests.{leb, ltb, ltb→lt, ◌==◌, if◌then◌else◌, or_else, Bool-cases}
use fixor.Prelude.Texts.{codes, is_line_end, has_line_end}

digit_char : ℕ → Char
digit_char n =
    if n == 0
    then "0"
    else if n == 1
    then "1"
    else if n == 2
    then "2"
    else if n == 3
    then "3"
    else if n == 4
    then "4"
    else if n == 5
    then "5"
    else if n == 6
    then "6"
    else if n == 7
    then "7"
    else if n == 8
    then "8"
    else "9"

-- The digits of `n` before `s`, with fuel.
decimal_from : ℕ → ℕ → String → String
unfolding digit_char
decimal_from zero n s = s
decimal_from (suc fuel) n s =
    let more = decimal_from fuel (n / 10) (String.◌∷◌ (digit_char (n % 10)) s) in
    if ltb n 10 then String.◌∷◌ (digit_char n) s else more

-- `String(n)`; a number has no more digits than its size.
unfoldable pub decimal : ℕ → String
unfolding decimal_from
decimal n = decimal_from (n + 1) n String.[]

abbrev pub is_digit : ℕ → Bool
is_digit c = leb b'0' c && leb c b'9'

-- The number that leading digits make, `seen` those read so far.
unfoldable pub digits_from : Option ℕ → List ℕ → Option ℕ
digits_from seen [] = seen
digits_from seen (c ∷ s) =
    let rest = digits_from (some (or_else seen 0 * 10 + (c - b'0'))) s in
    if is_digit c then rest else seen

code-digit_char : (n : ℕ) → n < 10 → code (digit_char n) ≡ n + 48
unfolding digit_char
code-digit_char zero _ = refl
code-digit_char (suc zero) _ = refl
code-digit_char (suc (suc zero)) _ = refl
code-digit_char (suc (suc (suc zero))) _ = refl
code-digit_char (suc (suc (suc (suc zero)))) _ = refl
code-digit_char (suc (suc (suc (suc (suc zero))))) _ = refl
code-digit_char (suc (suc (suc (suc (suc (suc zero)))))) _ = refl
code-digit_char (suc (suc (suc (suc (suc (suc (suc zero))))))) _ = refl
code-digit_char (suc (suc (suc (suc (suc (suc (suc (suc zero)))))))) _ = refl
code-digit_char (suc (suc (suc (suc (suc (suc (suc (suc (suc zero))))))))) _ = refl
code-digit_char (suc (suc (suc (suc (suc (suc (suc (suc (suc (suc n)))))))))) h =
    absurd (omega arith)

digits_from_digit :
    (seen : Option ℕ) (d : ℕ) (s : String)
    → d < 10
    → digits_from seen (codes (String.◌∷◌ (digit_char d) s))
      ≡ digits_from (some (or_else seen 0 * 10 + d)) (codes s)
unfolding digits_from
digits_from_digit seen d s h = ground (arith, code-digit_char d h)

digits_from-decimal_from :
    (fuel n : ℕ) (s : String)
    → n < fuel
    → digits_from none (codes (decimal_from fuel n s)) ≡ digits_from (some n) (codes s)
unfolding decimal_from
digits_from-decimal_from zero n s h = absurd (omega arith)
digits_from-decimal_from (suc fuel) n s h = elim (Bool-cases (ltb n 10)) [
  | inl small ↦ rw small (
      digits_from_digit none n s (ltb→lt n 10 small)
      ∙ ap (λ k. digits_from (some k) (codes s)) (omega arith))
  | inr large ↦ rw large (
      digits_from-decimal_from fuel (n / 10) (String.◌∷◌ (digit_char (n % 10)) s)
        (ground (arith, large))
      ∙ (digits_from_digit (some (n / 10)) (n % 10) s (omega arith)
          ∙ ap (λ k. digits_from (some k) (codes s)) (omega arith)))
]

-- Reading a printed number gives it back.
pub digits_from-decimal : (n : ℕ) → digits_from none (codes (decimal n)) ≡ some n
unfolding decimal digits_from
digits_from-decimal n = digits_from-decimal_from (n + 1) n String.[] (omega arith)

digit_char-inline : (d : ℕ) → d < 10 → is_line_end (code (digit_char d)) ≡ false
digit_char-inline d h = rw (code-digit_char d h) (ground arith)

decimal_from-inline :
    (fuel n : ℕ) (s : String)
    → has_line_end (codes s) ≡ false
    → has_line_end (codes (decimal_from fuel n s)) ≡ false
unfolding decimal_from
decimal_from-inline zero n s h = h
decimal_from-inline (suc fuel) n s h = elim (Bool-cases (ltb n 10)) [
  | inl small ↦ rw small (rw (digit_char-inline n (ltb→lt n 10 small)) h)
  | inr large ↦ rw large (
      decimal_from-inline fuel (n / 10) (String.◌∷◌ (digit_char (n % 10)) s)
        (rw (digit_char-inline (n % 10) (omega arith)) h))
]

-- A printed number is on one line.
pub decimal-inline : (n : ℕ) → has_line_end (codes (decimal n)) ≡ false
unfolding decimal
decimal-inline n = decimal_from-inline (n + 1) n String.[] refl
