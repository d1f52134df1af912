-- ===== src/Workers/Countdown.antt =====
-- Every step of the pool takes one from what is left: the items not claimed and the calls under way.
use fixor.Prelude.{
  ℕ, zero, suc, ◌+◌, ◌-◌, ◌≤◌, ◌<◌, ◌≡◌, ◌≢◌, refl, sym, ap, subst, inl, inr, Bool, true, false,
  List, arith, ◌==◌, if◌then◌else◌, ==_iff, Bool-cases, length,
}
use fixor.Workflow.{Settled, fulfilled, rejected}
use fixor.Workers.{
  Worker, unstarted, working, returned, threw, Pool, claim, start_workers, width, start_pool,
  settle_call, PoolReach, settles, started, then_step, replace_at, claimed, set_result,
  unstarted_pool,
}
use fixor.Workers.Invariant.{reach-IsSound, low_worker, start_workers-IsSound}

abbrev pub is_working : Worker → Bool
is_working (working index) = true
is_working _ = false

abbrev pub busy : (count : ℕ) → (ℕ → Worker) → ℕ
busy zero ws = 0
busy (suc w) ws = let rest = busy w ws in if is_working (ws w) then rest + 1 else rest

abbrev one_if : Bool → ℕ
one_if b = if b then 1 else 0

busy-above :
    (n w : ℕ) (x : Worker) (ws : ℕ → Worker) → n ≤ w → busy n (replace_at ws w x) ≡ busy n ws
busy-above zero w x ws h = refl
busy-above (suc n) w x ws h = ground (arith, busy-above n w x ws, h)

busy-replace_at :
    (n w : ℕ) (x : Worker) (ws : ℕ → Worker)
    → w < n
    → busy n (replace_at ws w x) + one_if (is_working (ws w)) ≡ busy n ws + one_if (is_working x)
busy-replace_at zero w x ws h = absurd (omega (arith, h))
busy-replace_at (suc n) w x ws h = elim (Bool-cases (n == w)) [
  | inl same ↦
      subst
        (λ v.
          busy (suc n) (replace_at ws v x) + one_if (is_working (ws v))
          ≡ busy (suc n) ws + one_if (is_working x))
        ((==_iff n w).0 same) (ground (arith, busy-above n n x ws))
  | inr other ↦ ground (arith, other, busy-replace_at n w x ws, h)
]

working_index : (x : Worker) → is_working x ≡ true → (i : ℕ) × (x ≡ working i)
working_index (working i) h = (i, refl)
working_index unstarted h = absurd (ground (arith, h))
working_index returned h = absurd (ground (arith, h))
working_index (threw reason) h = absurd (ground (arith, h))

pub find_busy : (n : ℕ) (ws : ℕ → Worker) → 0 < busy n ws → (w : ℕ) × (i : ℕ) × (ws w ≡ working i)
find_busy zero ws h = absurd (omega (arith, h))
find_busy (suc n) ws h = elim (Bool-cases (is_working (ws n))) [
  | inl yes' ↦ let (i, e) = working_index (ws n) yes' in (n, i, e)
  | inr no' ↦ find_busy n ws (rw no' at h)
]

pub none_busy : (n : ℕ) (ws : ℕ → Worker) (w i : ℕ) → busy n ws ≡ 0 → w < n → ws w ≢ working i
none_busy zero ws w i h less e = omega (arith, less)
none_busy (suc n) ws w i h less e = elim (Bool-cases (n == w)) [
  | inl same ↦ ground (
    arith,
    h,
    subst (λ v. is_working (ws v) ≡ true) (sym ((==_iff n w).0 same)) (ap is_working e),
  )
  | inr other ↦ none_busy n ws w i (ground (arith, h)) (ground (arith, less, other)) e
]

busy-none : (n : ℕ) → busy n (λ w. unstarted) ≡ 0
busy-none zero = refl
busy-none (suc n) = busy-none n

module _ {A R : Type 0} where
  -- What is left, of `count` workers.
  abbrev pub left : ℕ → Pool A R → ℕ
  left count p = (length p.items - p.cursor) + busy count p.workers

  claim-left :
      (count w : ℕ) (p : Pool A R)
      → w < count
      → is_working (p.workers w) ≡ true
      → left count (claim w p) + 1 ≡ left count p
  unfolding claim
  claim-left count w p h busy' =
      ground (arith, busy-replace_at count w (claimed (length p.items) p.cursor) p.workers h, busy')

  start_workers-left :
      (worker : A → ℕ → Settled R) (count n : ℕ) (items : List A)
      → n ≤ count
      → n ≤ length items
      → let p = start_workers n (unstarted_pool {A = A} {R = R} items) in
        (left count p ≡ length items) × (p.cursor ≡ n)
  unfolding start_workers claim
  start_workers-left worker count zero items h k = (omega (arith, busy-none count), refl)
  start_workers-left worker count (suc n) items h k =
      let p = start_workers n (unstarted_pool {A = A} {R = R} items) in
      let s = start_workers-IsSound worker items n in
      ground (
        arith,
        start_workers-left worker count n items (omega (arith, h)) (omega (arith, k)),
        busy-replace_at count n (claimed (length p.items) p.cursor) p.workers h,
        s.counted n (omega arith),
        ap length s.same,
        h,
        k,
      )

  settle_call-left :
      (count w index : ℕ) (x : Settled R) (p : Pool A R)
      → w < count
      → p.workers w ≡ working index
      → left count (settle_call w index x p) + 1 ≡ left count p
  unfolding settle_call
  settle_call-left count w index (fulfilled r) p h e =
      claim-left count w (set_result index r p) h (ap is_working e)
  settle_call-left count w index (rejected reason) p h e =
      ground (arith, busy-replace_at count w (threw reason) p.workers h, ap is_working e)

  pub steps_left :
      (worker : A → ℕ → Settled R) (concurrency : ℕ) (items : List A) (k : ℕ) (p : Pool A R)
      → PoolReach worker concurrency items k p
      → left (width concurrency items) p + k ≡ length items
  unfolding start_pool width
  steps_left worker concurrency items k p started = omega (
    arith,
    (start_workers-left worker (width concurrency items) (width concurrency items) items
        (omega arith) (omega arith)).0,
  )
  steps_left worker concurrency items k q
        (then_step {k = j} reach (settles p w index item busy' at')) =
      let n = width concurrency items in
      let s = reach-IsSound worker items concurrency j p reach in
      omega (
        arith,
        steps_left worker concurrency items j p reach,
        settle_call-left n w index (worker item index) p
            (low_worker worker items n w index p s busy') busy',
      )
