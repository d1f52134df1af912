-- ===== src/Client/Backoff.antt =====
-- How long the retry policy of src/lib/anthropic-retry.ts waits.
use fixor.Prelude.{
  ℕ, ◌+◌, ◌*◌, ◌/◌, ◌≤◌, ◌<◌, ◌≡◌, ◌⊎◌, inl, inr, Option, none, some, String, arith, Bool-cases,
  Option-cases, codes, is_empty,
}
use native.Mathlib.Nat.{div-le_of_le-mul, le-div_iff_mul-le}
use fixor.Client.Retry.{
  max_retries, max_delay_ms, exponential_delay, requested_delay, parse_int, backoff_delay_ms,
}

below_three : (n : ℕ) → n < 3 → (n ≡ 0) ⊎ ((n ≡ 1) ⊎ (n ≡ 2))
below_three n h = ground (arith, h)

-- A delay of `k` milliseconds with its jitter.
abbrev jittered : ℕ → ℕ → ℕ → ℕ
jittered k random resolution = k * (8 * resolution + 4 * random) / (10 * resolution)

-- The bounds of a wait before an attempt.
abbrev pub Waits : ℕ → ℕ → ℕ → Type 0
Waits low high delay = (low ≤ delay) × (delay ≤ high)

requested_delay-bounds :
    (date_diff seconds : Option ℕ) (delay : ℕ)
    → requested_delay date_diff seconds ≡ some delay
    → Waits 1 max_delay_ms delay
unfolding requested_delay
requested_delay-bounds none none delay h = ground (arith, h)
requested_delay-bounds (some d) none delay h = ground (arith, h)
requested_delay-bounds none (some s) delay h = ground (arith, h)
requested_delay-bounds (some d) (some s) delay h = ground (arith, h)

module _ (random resolution : ℕ) (fraction : random ≤ resolution)
    (some_resolution : 0 < resolution) where
  first_wait : Waits 800 1200 (jittered 1000 random resolution)
  first_wait = (
    (le-div_iff_mul-le (omega arith)).1 (omega arith),
    div-le_of_le-mul (10 * resolution) (omega arith),
  )

  second_wait : Waits 1600 2400 (jittered 2000 random resolution)
  second_wait = (
    (le-div_iff_mul-le (omega arith)).1 (omega arith),
    div-le_of_le-mul (10 * resolution) (omega arith),
  )

  third_wait : Waits 3200 4800 (jittered 4000 random resolution)
  third_wait = (
    (le-div_iff_mul-le (omega arith)).1 (omega arith),
    div-le_of_le-mul (10 * resolution) (omega arith),
  )

  exponential_delay-bounds :
      (attempt : ℕ)
      → attempt < max_retries
      → Waits 1 max_delay_ms (exponential_delay attempt random resolution)
  unfolding exponential_delay
  exponential_delay-bounds attempt early = elim (below_three attempt early) [
    | inl first ↦ rw first (omega (arith, first_wait.0), omega (arith, first_wait.1))
    | inr (inl second) ↦ rw second (omega (arith, second_wait.0), omega (arith, second_wait.1))
    | inr (inr third) ↦ rw third (omega (arith, third_wait.0), omega (arith, third_wait.1))
  ]

  -- Before a retry the client waits at least a millisecond and at most 30 seconds, whatever the server's
  -- Retry-After says, if the attempt that failed is one of the three that are retried and the random
  -- number is a fraction between 0 and 1.
  pub backoff_delay_ms-bounds :
      (date_diff : String → Option ℕ) (attempt : ℕ) (retry_after : Option String)
      → attempt < max_retries
      → Waits 1 max_delay_ms (backoff_delay_ms date_diff attempt retry_after random resolution)
  unfolding backoff_delay_ms
  backoff_delay_ms-bounds date_diff attempt none early = exponential_delay-bounds attempt early
  backoff_delay_ms-bounds date_diff attempt (some header) early =
      elim (Bool-cases (is_empty (codes header))) [
        | inl nothing ↦ rw nothing (exponential_delay-bounds attempt early)
        | inr something ↦
            let request = requested_delay (date_diff header) (parse_int (codes header)) in
            elim (Option-cases request) [
              | inl no' ↦ rw (something, no') (exponential_delay-bounds attempt early)
              | inr (delay, asked) ↦
                  rw (something, asked)
                    (requested_delay-bounds (date_diff header) (parse_int (codes header)) delay
                      asked)
            ]
      ]
