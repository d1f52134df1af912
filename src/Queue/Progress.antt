-- ===== src/Queue/Progress.antt =====
-- The queue never stalls, and forgets the keys that are done.
use fixor.Prelude.{
  ℕ, zero, suc, ◌<◌, ◌≡◌, ◌≢◌, refl, ap, ◌⊎◌, inl, inr, true, Option, none, some, List, [], ◌∷◌,
  String, arith, ltb, ltb→lt, Bool-cases, Option-cases, get,
}
use fixor.Queue.{
  Phase, absent, chained, queued, holding, finished, Queue, is_holding, is_queued, is_finished,
  settled, Reach,
}
use fixor.Queue.Counting.{pos-count, count-pos}
use fixor.Queue.Slots.{Slots, Reach-Slots}
use fixor.Queue.Chains.{Chains, Reach-Chains}

-- The event loop can resume ticket j, or ticket j runs its task.
abbrev pub CanMove : Queue → ℕ → Type 0
CanMove q j = (q.phase j ≡ holding) ⊎ ((q.phase j ≡ chained) × (settled q (q.previous j) ≡ true))

abbrev Mover : Queue → Type 0
Mover q = (j : ℕ) × CanMove q j

holder : (q : Queue) → Slots q → 0 < q.running → Mover q
holder q s some_run =
    let (j, below, held) = count-pos is_holding q.phase q.next (omega (arith, s.holders)) in
    (j, inl (ground arith))

module _ (q : Queue) (s : Slots q) (over : (i : ℕ) → i < q.next → q.phase i ≡ finished) where
  none_held : q.running ≡ 0
  none_held = elim (Bool-cases (ltb 0 q.running)) [
    | inl some_run ↦
        let (i, below, held) =
          count-pos is_holding q.phase q.next
            (omega (arith, s.holders, ltb→lt 0 q.running some_run)) in
        cc (ap is_holding (over i below))
    | inr idle ↦ ground arith
  ]

  none_wait : q.waiting ≡ []
  none_wait = go q.waiting refl
    where
      go : (ws : List ℕ) → q.waiting ≡ ws → q.waiting ≡ []
      go [] e = e
      go (w ∷ ws) e = cc ((rw e at s.waits).0.0, over w (rw e at s.waits).0.1)

-- An unfinished ticket moves, or waits for one that does.
module _ (q : Queue) (s : Slots q) (c : Chains q) (i : ℕ) (below : i < q.next)
    (earlier : (p : ℕ) → p < i → q.phase p ≢ finished → Mover q) where
  chain-Mover : (o : Option ℕ) → q.previous i ≡ o → q.phase i ≡ chained → Mover q
  unfolding settled
  chain-Mover none e ready = (i, inr (ready, rw e refl))
  chain-Mover (some p) e ready = elim (Bool-cases (is_finished (q.phase p))) [
    | inl over ↦ (i, inr (ready, rw e over))
    | inr running ↦ earlier p (c.link i i p below e).0 (λ f. cc (ap is_finished f))
  ]

  phase-Mover : (ph : Phase) → q.phase i ≡ ph → ph ≢ finished → Mover q
  phase-Mover absent e unfinished = absurd (s.born i below e)
  phase-Mover chained e unfinished = chain-Mover (q.previous i) refl e
  phase-Mover queued e unfinished =
      let there = pos-count is_queued q.phase i q.next below (ap is_queued e) in
      holder q s (omega (arith, s.full (omega (arith, s.queuers)), s.positive))
  phase-Mover holding e unfinished = (i, inl e)
  phase-Mover finished e unfinished = absurd (unfinished refl)

Mover-below :
    (q : Queue)
    → Slots q
    → Chains q
    → (n i : ℕ) → i < n
    → i < q.next
    → q.phase i ≢ finished
    → Mover q
Mover-below q s c zero i h below unfinished = elim h [ ]
Mover-below q s c (suc n) i h below unfinished =
    phase-Mover q s c i below (λ p lt u. Mover-below q s c n p (omega arith) (omega arith) u)
      (q.phase i) refl unfinished

-- In every reachable queue, as long as some call of `run` has not finished, some ticket either runs
-- its task or can be resumed by the event loop: the queue never deadlocks.
pub never_stuck :
    {m : ℕ} {q : Queue} (i : ℕ)
    → Reach m q
    → i < q.next
    → q.phase i ≢ finished
    → (j : ℕ) × CanMove q j
never_stuck {m} {q} i r below unfinished =
    Mover-below q (Reach-Slots r) (Reach-Chains r) (suc i) i (omega arith) below unfinished

-- In a reachable queue in which every ticket has finished, no slot is taken, nobody waits and the map
-- of tails holds no key: an idle queue keeps no memory of the keys that it has served.
pub idle_is_empty :
    {m : ℕ} {q : Queue}
    → Reach m q
    → ((i : ℕ) → i < q.next → q.phase i ≡ finished)
    → (q.running ≡ 0) × (q.waiting ≡ []) × ((k : String) → get k q.tails ≡ none)
idle_is_empty {m} {q} r over =
    let s = Reach-Slots r in
    let c = Reach-Chains r in
    (
      none_held q s over,
      none_wait q s over,
      λ k. elim (Option-cases (get k q.tails)) [
        | inl gone ↦ gone
        | inr (p, e) ↦ cc (c.alive k p e (over p (c.tail k p e).0))
      ],
    )
