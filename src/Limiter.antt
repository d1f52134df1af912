-- ===== src/Limiter.antt =====
-- The in-memory fixed-window rate limiter, src/lib/rate-limiter.ts. The clock is an argument: `t` is
-- what `now()` returns at the call. Times and counts are natural numbers. The source's
-- `t - windowStart >= windowMs` is written without the subtraction, which could go below zero.
pub mod Quota
pub mod Pruning
mod Tests
use fixor.Prelude.{
  ℕ, suc, ◌+◌, ◌-◌, ◌/◌, max, Bool, true, false, Option, none, some, List, [], String, Map, get,
  put, retain, leb, not, if◌then◌else◌,
}

pub record Bucket : Type 0 where
  pub count : ℕ
  pub window_start : ℕ

pub record Limiter : Type 0 where
  pub buckets : Map Bucket
  pub max_requests : ℕ
  pub window_ms : ℕ

-- `none` is the thrown Error.
pub new : ℕ → ℕ → Option Limiter
new max_requests window_ms =
    if leb max_requests 0
    then none
    else if leb window_ms 0
    then none
    else some (record { buckets = []; max_requests = max_requests; window_ms = window_ms })

rolled : Limiter → ℕ → Bucket → Bool
rolled l t b = leb (b.window_start + l.window_ms) t

set_bucket : Limiter → String → Bucket → Limiter
set_bucket l key b = record l { buckets = put key b l.buckets }

open_window : Limiter → String → ℕ → Limiter × Bool
unfolding set_bucket
open_window l key t = (set_bucket l key (record { count = 1; window_start = t }), true)

allow_bucket : Limiter → String → ℕ → Option Bucket → Limiter × Bool
unfolding open_window rolled
allow_bucket l key t none = open_window l key t
allow_bucket l key t (some b) =
    if rolled l t b
    then open_window l key t
    else if leb l.max_requests b.count
    then (l, false)
    else (set_bucket l key (record b { count = b.count + 1 }), true)

pub allow : Limiter → String → ℕ → Limiter × Bool
unfolding allow_bucket
allow l key t = allow_bucket l key t (get key l.buckets)

retry_bucket : Limiter → ℕ → Option Bucket → ℕ
unfolding rolled
retry_bucket l t none = 0
retry_bucket l t (some b) =
    if rolled l t b then 0 else max 1 ((b.window_start + l.window_ms - t + 999) / 1000)

pub retry_after_seconds : Limiter → String → ℕ → ℕ
unfolding retry_bucket
retry_after_seconds l key t = retry_bucket l t (get key l.buckets)

pub prune : Limiter → ℕ → Limiter
unfolding rolled
prune l t = record l { buckets = retain (λ b. not (rolled l t b)) l.buckets }

pub reset : Limiter → Limiter
reset l = record l { buckets = [] }
