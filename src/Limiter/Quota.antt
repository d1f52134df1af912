-- ===== src/Limiter/Quota.antt =====
-- How many calls of `allow` a window grants, and when a rejected caller may return.
use fixor.Prelude.{
  ℕ, ◌+◌, ◌-◌, ◌*◌, ◌≤◌, ◌<◌, min, ◌≡◌, refl, inl, inr, true, false, Option, none, some, List, [],
  ◌∷◌, String, arith, leb, if◌then◌else◌, leb→le, Bool-cases, Option-cases, str_eq, get, get-put,
  eq_iff, eq_refl,
}
use fixor.Limiter.{Limiter, Bucket, open_window, allow_bucket, allow, retry_after_seconds}

-- One delivered call: its key and the clock reading.
abbrev pub Call : Type 0
Call = String × ℕ

-- The calls for `k`, and those of them that `allow` lets pass, in a run from `l`.
pub requested : String → List Call → ℕ
requested k [] = 0
requested k ((j, t) ∷ calls) = (if str_eq j k then 1 else 0) + requested k calls

pub granted : String → Limiter → List Call → ℕ
granted k l [] = 0
granted k l ((j, t) ∷ calls) =
    (if str_eq j k then (if (allow l j t).1 then 1 else 0) else 0) + granted k (allow l j t).0 calls

-- The calls for `k` come before `limit`.
abbrev pub Before : String → ℕ → List Call → Type 0
Before k limit [] = Unit
Before k limit ((j, t) ∷ calls) = (j ≡ k → t < limit) × Before k limit calls

module _ (l : Limiter) (j : String) (t : ℕ) where
  max_requests-allow : (allow l j t).0.max_requests ≡ l.max_requests
  unfolding allow
  max_requests-allow = ground arith

  window_ms-allow : (allow l j t).0.window_ms ≡ l.window_ms
  unfolding allow
  window_ms-allow = ground arith

-- A call for one key changes no other key's bucket.
get-allow_bucket_ne :
    (l : Limiter) (j k : String) (t : ℕ) (o : Option Bucket)
    → str_eq j k ≡ false
    → get k (allow_bucket l j t o).0.buckets ≡ get k l.buckets
unfolding allow_bucket
get-allow_bucket_ne l j k t none h =
    ground (arith, get-put j k (record { count = 1; window_start = t }) l.buckets)
get-allow_bucket_ne l j k t (some b) h = ground (
  arith,
  get-put j k (record { count = 1; window_start = t }) l.buckets,
  get-put j k (record b { count = b.count + 1 }) l.buckets,
)

pub get-allow_ne :
    (l : Limiter) (j k : String) (t : ℕ)
    → str_eq j k ≡ false
    → get k (allow l j t).0.buckets ≡ get k l.buckets
unfolding allow
get-allow_ne l j k t h = get-allow_bucket_ne l j k t (get j l.buckets) h

-- Within the window of a bucket with room a call passes and is counted.
allow_open :
    (l : Limiter) (k : String) (t : ℕ) (b : Bucket)
    → get k l.buckets ≡ some b
    → t < b.window_start + l.window_ms
    → b.count < l.max_requests
    → ((allow l k t).1 ≡ true)
      × (get k (allow l k t).0.buckets ≡ some (record b { count = b.count + 1 }))
unfolding allow
allow_open l k t b h early room = rw h (
  ground (arith, eq_refl k, get-put k k (record b { count = b.count + 1 }) l.buckets),
  ground (arith, eq_refl k, get-put k k (record b { count = b.count + 1 }) l.buckets),
)

-- Within the window of a full bucket a call is refused and nothing changes.
allow_full :
    (l : Limiter) (k : String) (t : ℕ) (b : Bucket)
    → get k l.buckets ≡ some b
    → t < b.window_start + l.window_ms
    → l.max_requests ≤ b.count
    → allow l k t ≡ (l, false)
unfolding allow
allow_full l k t b h early full = rw h (ground arith)

module _ (k : String) (limit quota : ℕ) where
  -- Within a bucket's window exactly the room that is left is granted, whatever the other keys do.
  granted_within :
      (l : Limiter) (calls : List Call) (b : Bucket)
      → get k l.buckets ≡ some b
      → b.window_start + l.window_ms ≡ limit
      → l.max_requests ≡ quota
      → Before k limit calls
      → granted k l calls ≡ min (requested k calls) (quota - b.count)
  unfolding granted requested
  granted_within l [] b h w q early = omega arith
  granted_within l ((j, t) ∷ calls) b h w q early = elim (Bool-cases (str_eq j k)) [
    | inl same ↦
        let t-lt : t < b.window_start + l.window_ms = rw w (early.0 ((eq_iff j k).0 same)) in
        rw ((eq_iff j k).0 same, eq_refl k)
          (elim (Bool-cases (leb quota b.count)) [
            | inl full ↦
                rw (allow_full l k t b h t-lt (ground arith))
                  (omega (arith, leb→le quota b.count full, granted_within l calls b h w q early.1))
            | inr room ↦
                let (passed, b') = allow_open l k t b h t-lt (ground arith) in
                rw passed (
                  ground (
                    arith,
                    granted_within (allow l k t).0 calls (record b { count = b.count + 1 }) b'
                        (rw (window_ms-allow l k t) w) (rw (max_requests-allow l k t) q) early.1,
                  ))
          ])
    | inr other ↦ rw other (
        omega (
          arith,
          granted_within (allow l j t).0 calls b (rw (get-allow_ne l j k t other) h)
              (rw (window_ms-allow l j t) w) (rw (max_requests-allow l j t) q) early.1,
        ))
  ]

-- No window of `k` is running at `t`.
abbrev pub IsFresh : Limiter → String → ℕ → Type 0
IsFresh l k t = (b : Bucket) → get k l.buckets ≡ some b → b.window_start + l.window_ms ≤ t

allow_opens_rolled :
    (l : Limiter) (k : String) (t : ℕ) (b : Bucket)
    → get k l.buckets ≡ some b
    → b.window_start + l.window_ms ≤ t
    → allow l k t ≡ open_window l k t
unfolding allow
allow_opens_rolled l k t b e late = rw e (ground arith)

allow-eq-open_window :
    (l : Limiter) (k : String) (t : ℕ) → IsFresh l k t → allow l k t ≡ open_window l k t
unfolding allow
allow-eq-open_window l k t fresh = elim (Option-cases (get k l.buckets)) [
  | inl absent ↦ rw absent
  | inr (b, e) ↦ allow_opens_rolled l k t b e (fresh b e)
]

-- The call that opens a window is granted and the bucket counts it.
allow_opens :
    (l : Limiter) (k : String) (t : ℕ)
    → IsFresh l k t
    → ((allow l k t).1 ≡ true)
      × (get k (allow l k t).0.buckets ≡ some (record { count = 1; window_start = t }))
unfolding open_window
allow_opens l k t h = rw (allow-eq-open_window l k t h) (
  refl,
  ground (arith, eq_refl k, get-put k k (record { count = 1; window_start = t }) l.buckets),
)

-- With a positive maxRequests, a window that a call of key k opens at t grants exactly
-- min(requests of k, maxRequests) of the calls of k before t + windowMs, that call included, however
-- the calls of other keys are mixed in.
pub granted-eq-min :
    (l : Limiter) (k : String) (t : ℕ) (calls : List Call)
    → 0 < l.max_requests
    → IsFresh l k t
    → Before k (t + l.window_ms) calls
    → granted k l ((k, t) ∷ calls) ≡ min (requested k ((k, t) ∷ calls)) l.max_requests
unfolding granted requested
granted-eq-min l k t calls room fresh early =
    let (passed, opened) = allow_opens l k t fresh in
    rw (eq_refl k, passed)
      (omega (
        arith,
        granted_within k (t + l.window_ms) l.max_requests (allow l k t).0 calls
            (record { count = 1; window_start = t }) opened (rw (window_ms-allow l k t) refl)
            (max_requests-allow l k t) early,
      ))

-- A refused caller that waits for `retryAfterSeconds` is let in: the hint is at least one second,
-- and a call at any time from then on is granted.
pub allow-retry_after_seconds :
    (l : Limiter) (k : String) (t t' : ℕ)
    → (allow l k t).1 ≡ false
    → t + retry_after_seconds l k t * 1000 ≤ t'
    → (1 ≤ retry_after_seconds l k t) × ((allow (allow l k t).0 k t').1 ≡ true)
unfolding allow retry_after_seconds
allow-retry_after_seconds l k t t' refused waited = ground arith
