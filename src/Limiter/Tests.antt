-- ===== src/Limiter/Tests.antt =====
-- Tests of the rate limiter, and its theorems at concrete inputs.
use fixor.Prelude.{min, ◌≡◌, refl, none, some, List, [], ◌∷◌, arith, get}
use fixor.Limiter.{Limiter, new, allow, retry_after_seconds, reset}
use fixor.Limiter.Quota.{Call, requested, granted, granted-eq-min}

abbrev two_per_second : Limiter
two_per_second = record { buckets = []; max_requests = 2; window_ms = 1000 }

abbrev calls : List Call
calls = ("a", 100) ∷ ("b", 200) ∷ ("a", 900) ∷ []

new_test : (new 2 1000 ≡ some two_per_second) × (new 0 1000 ≡ none) × (new 2 0 ≡ none)
unfolding new
new_test = (refl, refl, refl)

reset_test : reset (allow two_per_second "a" 5).0 ≡ two_per_second
unfolding reset allow get
reset_test = refl

granted-eq-min_example :
    granted "a" two_per_second (("a", 0) ∷ calls)
    ≡ min (requested "a" (("a", 0) ∷ calls)) two_per_second.max_requests
unfolding get
granted-eq-min_example =
    granted-eq-min two_per_second "a" 0 calls (omega arith) (λ b h. cc)
      (λ h. omega arith, (λ h. omega arith, (λ h. omega arith, tt)))

abbrev spent : Limiter
spent = record {
  buckets = ("a", record { count = 2; window_start = 0 }) ∷ [];
  max_requests = 2;
  window_ms = 1500;
}

spent_retry : retry_after_seconds spent "a" 300 ≡ 2
unfolding retry_after_seconds get
spent_retry = refl
