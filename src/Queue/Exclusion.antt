-- ===== src/Queue/Exclusion.antt =====
-- What the queue promises: bounded concurrency, one scan at a time per key in the order of the calls,
-- no idle slot while a ticket waits.
use fixor.Prelude.{ℕ, ◌≤◌, ◌<◌, ◌≡◌, ◌∙◌, refl, sym, ap, true, arith}
use fixor.Queue.{
  queued, holding, finished, Queue, is_holding, is_queued, begin, acquire, wake, release, drop_tail,
  settle, Step, begins, resumes, settles, Reach, made, then_step, new-eq-some,
}
use fixor.Queue.Counting.{count, pos-count}
use fixor.Queue.Slots.{Reach-Slots, below-next}
use fixor.Queue.Chains.{Reach-Chains, is_past}

-- No step changes the bound.
Step-max_concurrent : {q r : Queue} → Step q r → r.max_concurrent ≡ q.max_concurrent
unfolding begin acquire settle release wake drop_tail
Step-max_concurrent (begins q k) = refl
Step-max_concurrent (resumes q i ready resolved) = ground arith
Step-max_concurrent (settles q i held) = ground arith

pub Reach-max_concurrent : {m : ℕ} {q : Queue} → Reach m q → q.max_concurrent ≡ m
Reach-max_concurrent (made q e) = sym (ap (λ (r : Queue). r.max_concurrent) (new-eq-some _ e).1)
Reach-max_concurrent (then_step r st) = Step-max_concurrent st ∙ Reach-max_concurrent r

-- In every reachable queue the counter `running` is the number of tickets that hold a slot, and it
-- never exceeds maxConcurrent.
pub running-le-max :
    {m : ℕ} {q : Queue}
    → Reach m q
    → (count is_holding q.phase q.next ≡ q.running) × (q.running ≤ m)
running-le-max r =
    let s = Reach-Slots r in (s.holders, omega (arith, s.bound, Reach-max_concurrent r))

-- In every reachable queue, if a ticket waits for a slot then all maxConcurrent slots are taken.
pub waits_only_if_full :
    {m : ℕ} {q : Queue} (i : ℕ) → Reach m q → q.phase i ≡ queued → q.running ≡ m
waits_only_if_full {m} {q} i r waits =
    let s = Reach-Slots r in
    let there =
      pos-count is_queued q.phase i q.next (below-next q i s (λ e. cc)) (ap is_queued waits) in
    s.full (omega (arith, s.queuers)) ∙ Reach-max_concurrent r

-- In every reachable queue, once a ticket has passed its `await previous`, every earlier ticket of the
-- same key has finished: scans of one key run in the order in which they were queued.
pub earlier_finished :
    {m : ℕ} {q : Queue} (i j : ℕ)
    → Reach m q
    → i < j
    → q.key i ≡ q.key j
    → is_past (q.phase j) ≡ true
    → q.phase i ≡ finished
earlier_finished {m} {q} i j r h same past =
    (Reach-Chains r).order i j h (below-next q j (Reach-Slots r) (λ e. cc (ap is_past e))) same past

-- In every reachable queue at most one ticket of a key holds a slot.
pub holder_unique :
    {m : ℕ} {q : Queue} (i j : ℕ)
    → Reach m q
    → q.key i ≡ q.key j
    → q.phase i ≡ holding
    → q.phase j ≡ holding
    → i ≡ j
holder_unique i j r same hi hj = ground (arith, earlier_finished i j r, earlier_finished j i r)
