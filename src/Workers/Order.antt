-- ===== src/Workers/Order.antt =====
-- runWithConcurrency gives the results of one call after the other, in the order of the items.
use fixor.Prelude.{
  ℕ, zero, suc, ◌+◌, ◌≤◌, ◌<◌, ◌≡◌, ◌≢◌, ◌∙◌, refl, sym, ap, ◌⊎◌, inl, inr, Option, some, List, [],
  ◌∷◌, String, arith, ltb, ◌==◌, Bool-cases, eq_of_some, length, get_elem?,
}
use fixor.Workflow.{Settled, fulfilled}
use fixor.Workers.{
  Worker, unstarted, working, returned, threw, Pool, width, PoolReach, PoolStep, settles, started,
  then_step, sequential, entries, claim, start_workers, start_pool, settle_call, unstarted_pool,
  set_result,
}
use fixor.Workers.Invariant.{IsSound, reach-IsSound, low_worker}
use fixor.Workers.Countdown.{busy, find_busy, none_busy, steps_left}

-- Every worker of the call has returned, so `Promise.all` resolves.
abbrev pub IsDone : {A R : Type 0} → (count : ℕ) → Pool A R → Type 0
IsDone count p = (w : ℕ) → w < count → p.workers w ≡ returned

-- What an entry holds is what the worker comes to on the item there.
abbrev pub Holds : {A R : Type 0} → (A → ℕ → Settled R) → (ℕ → Option R) → ℕ → List A → Type 0
Holds worker results i [] = Unit {0}
Holds {R = R} worker results i (x ∷ xs) =
    ((r : R) × (results i ≡ some r) × (worker x i ≡ fulfilled r)) × Holds worker results (i + 1) xs

item_at {ℓ} :
    {A : Type ℓ} (xs : List A) (i : ℕ) → i < length xs → (x : A) × (get_elem? xs i ≡ some x)
item_at [] i h = absurd (omega (arith, h))
item_at (x ∷ xs) zero h = (x, refl)
item_at (x ∷ xs) (suc i) h = item_at xs i (omega (arith, h))

elem-length {ℓ} :
    {A : Type ℓ} (xs : List A) (i : ℕ) (x : A) → get_elem? xs i ≡ some x → i < length xs
elem-length [] i x e = absurd (ground (arith, e))
elem-length (y ∷ xs) zero x e = omega arith
elem-length (y ∷ xs) (suc i) x e = omega (arith, elem-length xs i x e)

module _ {A R : Type 0} (worker : A → ℕ → Settled R) where
  entries-sequential :
      (results : ℕ → Option R) (i : ℕ) (xs : List A)
      → Holds worker results i xs
      → (rs : List R) × (entries results i (length xs) ≡ some rs)
        × (sequential worker i xs ≡ fulfilled rs)
  entries-sequential results i [] h = ([], refl, refl)
  entries-sequential results i (x ∷ xs) ((r, got, came), h) =
      let (rs, all', seq) = entries-sequential results (i + 1) xs h in
      (r ∷ rs, rw (got, all') refl, rw (came, seq) refl)

  Holds-from :
      (results : ℕ → Option R) (i : ℕ) (xs : List A)
      → ((j : ℕ) (x : A)
          → get_elem? xs j ≡ some x
          → (r : R) × (results (i + j) ≡ some r) × (worker x (i + j) ≡ fulfilled r))
      → Holds worker results i xs
  Holds-from results i [] h = tt
  Holds-from results i (x ∷ xs) h =
      let (r, got, came) = h 0 x refl in
      let at-zero : i + 0 ≡ i = omega arith in
      (
        (r, sym (ap results at-zero) ∙ got, sym (ap (worker x) at-zero) ∙ came),
        Holds-from results (i + 1) xs (λ j y e.
            let (r', got', came') = h (suc j) y e in
            let shift : i + 1 + j ≡ i + suc j = omega arith in
            (r', ap results shift ∙ got', ap (worker y) shift ∙ came')),
      )

  module _ (total : (x : A) (i : ℕ) → (r : R) × (worker x i ≡ fulfilled r)) where
    start_workers-calm :
        (n : ℕ) (items : List A) (w : ℕ) (reason : String)
        → (start_workers n (unstarted_pool {A = A} {R = R} items)).workers w ≢ threw reason
    unfolding start_workers claim
    start_workers-calm zero items w reason e = ground (arith, e)
    start_workers-calm (suc n) items w reason e =
        ground (arith, e, start_workers-calm n items w reason)

    claim-calm :
        (v w : ℕ) (reason : String) (p : Pool A R)
        → p.workers w ≢ threw reason
        → (claim v p).workers w ≢ threw reason
    unfolding claim
    claim-calm v w reason p quiet e = ground (arith, e, quiet)

    -- No worker throws.
    calm :
        (concurrency : ℕ) (items : List A) (k : ℕ) (p : Pool A R)
        → PoolReach worker concurrency items k p
        → (w : ℕ) (reason : String) → p.workers w ≢ threw reason
    unfolding start_pool settle_call
    calm concurrency items k p started w reason e =
        start_workers-calm (width concurrency items) items w reason e
    calm concurrency items k q (then_step {k = j} reach (settles p v index item busy' at')) w reason
          e =
        let (r, came) = total item index in
        claim-calm v w reason (set_result index r p) (calm concurrency items j p reach w reason)
          (rw came at e)

    module _ (concurrency : ℕ) (items : List A) (k : ℕ) (p : Pool A R)
        (reach : PoolReach worker concurrency items k p) where
      n : ℕ
      n = width concurrency items

      s : IsSound worker items n p
      unfolding n
      s = reach-IsSound worker items concurrency k p reach

      idle-IsDone : busy n p.workers ≡ 0 → IsDone n p
      unfolding n s
      idle-IsDone idle w less = stopped (p.workers w) refl
        where
          stopped : (x : Worker) → p.workers w ≡ x → p.workers w ≡ returned
          stopped unstarted e = absurd (s.begun w less e)
          stopped (working i) e = absurd (none_busy n p.workers w i idle less e)
          stopped returned e = e
          stopped (threw reason) e = absurd (calm concurrency items k p reach w reason e)

      done-claimed : IsDone n p → length items ≤ p.cursor
      unfolding n width
      done-claimed done = elim (Bool-cases (ltb 0 (length items))) [
        | inl some' ↦ s.spent 0 (done 0 (ground (arith, some')))
        | inr none' ↦ ground (arith, none')
      ]

      done-result :
          IsDone n p
          → (j : ℕ) (x : A) → get_elem? items j ≡ some x
          → (r : R) × (p.results j ≡ some r) × (worker x j ≡ fulfilled r)
      unfolding n
      done-result done j x at' =
          let less = elem-length items j x at' in
          elim (s.covered j (omega (arith, less, done-claimed done)) less) [
            | inl (r, e) ↦
                let (y, at-y, came) = s.right j r e in
                (r, e, ap (λ z. worker z j) (eq_of_some (sym at' ∙ at-y)) ∙ came)
            | inr (inl (w, e)) ↦
                absurd (ground (arith, e, done w (low_worker worker items n w j p s e)))
            | inr (inr (w, reason, e)) ↦ absurd (calm concurrency items k p reach w reason e)
          ]

      goes_on : 0 < busy n p.workers → (q : Pool A R) × PoolStep worker p q
      unfolding n
      goes_on more =
          let (w, i, e) = find_busy n p.workers more in
          let (x, at') = item_at p.items i (omega (arith, (s.bounded w i e).1, ap length s.same)) in
          (settle_call w i (worker x i) p, settles p w i x e at')

      -- If no call rejects, the pool of any size does what one call after the other does: after fewer steps than there
      -- are items it can take a step, and after as many every worker has returned and the array holds, in the order of
      -- the items, the results that one call after the other gives. It never takes more steps.
      pub pool_refines_sequential :
          ((k < length items) × ((q : Pool A R) × PoolStep worker p q))
          ⊎ ((k ≡ length items)
              × IsDone (width concurrency items) p
              × ((rs : List R) × (entries p.results 0 (length items) ≡ some rs)
                  × (sequential worker 0 items ≡ fulfilled rs)))
      unfolding n
      pool_refines_sequential =
          let all' = steps_left worker concurrency items k p reach in
          elim (Bool-cases (busy n p.workers == 0)) [
            | inl idle ↦
                let none' : busy n p.workers ≡ 0 = ground (arith, idle) in
                let done = idle-IsDone none' in
                inr (
                  omega (arith, all', done-claimed done, ap length s.same, none'),
                  done,
                  entries-sequential p.results 0 items (
                      Holds-from p.results 0 items (λ j x at'.
                        let (r, e, came) = done-result done j x at' in
                        let zero-plus : 0 + j ≡ j = omega arith in
                        (r, ap p.results zero-plus ∙ e, ap (worker x) zero-plus ∙ came))),
                )
            | inr more ↦ inl (ground (arith, all', more), goes_on (ground (arith, more)))
          ]
