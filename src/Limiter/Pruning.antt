-- ===== src/Limiter/Pruning.antt =====
-- What `prune` keeps, and that no later call can tell it from doing nothing.
use fixor.Prelude.{
  ℕ, ◌+◌, ◌≤◌, ◌≡◌, not, Option, none, some, [], String, arith, get, kept, Distinct, put-Distinct,
  get-retain, retain-Distinct,
}
use fixor.Limiter.{
  Limiter, Bucket, new, rolled, set_bucket, open_window, allow_bucket, allow, prune, reset,
}

abbrev pub IsValid : Limiter → Type 0
IsValid l = Distinct l.buckets

set_bucket-IsValid :
    (l : Limiter) (k : String) (b : Bucket) → IsValid l → IsValid (set_bucket l k b)
unfolding set_bucket
set_bucket-IsValid l k b v = put-Distinct k b l.buckets v

allow_bucket-IsValid :
    (l : Limiter) (k : String) (t : ℕ) (o : Option Bucket)
    → IsValid l
    → IsValid (allow_bucket l k t o).0
unfolding allow_bucket open_window
allow_bucket-IsValid l k t none v = set_bucket-IsValid l k _ v
allow_bucket-IsValid l k t (some b) v = ground (
  arith,
  set_bucket-IsValid l k (record { count = 1; window_start = t }) v,
  set_bucket-IsValid l k (record b { count = b.count + 1 }) v,
)

get-prune :
    (l : Limiter) (k : String) (t : ℕ)
    → IsValid l
    → get k (prune l t).buckets ≡ kept (λ b. not (rolled l t b)) (get k l.buckets)
unfolding prune
get-prune l k t v = get-retain (λ b. not (rolled l t b)) k l.buckets v

-- Every limiter that the operations build holds each key once.
pub data Reach : Limiter → Type 0 where
  made : (m w : ℕ) {l : Limiter} → new m w ≡ some l → Reach l
  allowed : {l : Limiter} (k : String) (t : ℕ) → Reach l → Reach (allow l k t).0
  pruned : {l : Limiter} (t : ℕ) → Reach l → Reach (prune l t)
  cleared : {l : Limiter} → Reach l → Reach (reset l)

new-IsValid : (m w : ℕ) {l : Limiter} → new m w ≡ some l → IsValid l
unfolding new
new-IsValid m w {l} e = let empty : l.buckets ≡ [] = ground arith in rw empty tt

Reach-IsValid : {l : Limiter} → Reach l → IsValid l
unfolding allow prune reset
Reach-IsValid (made m w e) = new-IsValid m w e
Reach-IsValid (allowed {l} k t r) = allow_bucket-IsValid l k t (get k l.buckets) (Reach-IsValid r)
Reach-IsValid (pruned {l} t r) =
    retain-Distinct (λ b. not (rolled l t b)) l.buckets (Reach-IsValid r)
Reach-IsValid (cleared r) = tt

-- In any limiter that the operations build, a call at or after the time of a `prune` gets the answer
-- that it would have got without it.
pub allow-prune :
    (l : Limiter) (k : String) (t t' : ℕ)
    → Reach l
    → t ≤ t'
    → (allow (prune l t) k t').1 ≡ (allow l k t').1
unfolding allow prune
allow-prune l k t t' r later = ground (arith, get-prune l k t (Reach-IsValid r))
