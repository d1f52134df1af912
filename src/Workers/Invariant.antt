-- ===== src/Workers/Invariant.antt =====
-- What holds of the pool in every state.
use fixor.Prelude.{
  ℕ, zero, suc, ◌+◌, ◌≤◌, ◌<◌, max, ◌≡◌, ◌≢◌, ◌∙◌, refl, sym, ap, ◌⊎◌, inl, inr, some, List, String,
  arith, leb, ◌==◌, ==_iff, Bool-cases, eq_of_some, length, get_elem?,
}
use fixor.Workflow.{Settled, fulfilled, rejected}
use fixor.Workers.{
  unstarted, working, returned, threw, Pool, claim, start_workers, width, start_pool, settle_call,
  PoolReach, settles, started, then_step, set_result, unstarted_pool,
}

-- The index is done, or a worker has it, or one threw.
abbrev pub Covered : {A R : Type 0} → Pool A R → ℕ → Type 0
Covered {R = R} p i =
    ((r : R) × (p.results i ≡ some r))
    ⊎ (((w : ℕ) × (p.workers w ≡ working i))
        ⊎ ((w : ℕ) × (reason : String) × (p.workers w ≡ threw reason)))

module _ {A R : Type 0} (worker : A → ℕ → Settled R) (items : List A) where
  -- `count` workers have started.
  pub record IsSound (count : ℕ) (p : Pool A R) : Type 0 where
    pub same : p.items ≡ items
    pub bounded : (w i : ℕ) → p.workers w ≡ working i → (i < p.cursor) × (i < length items)
    pub exclusive : (v w i : ℕ) → p.workers v ≡ working i → p.workers w ≡ working i → v ≡ w
    pub counted : (w : ℕ) → count ≤ w → p.workers w ≡ unstarted
    pub begun : (w : ℕ) → w < count → p.workers w ≢ unstarted
    pub spent : (w : ℕ) → p.workers w ≡ returned → length items ≤ p.cursor
    pub right :
        (i : ℕ) (r : R)
        → p.results i ≡ some r
        → (item : A) × (get_elem? items i ≡ some item) × (worker item i ≡ fulfilled r)
    pub covered : (i : ℕ) → i < p.cursor → i < length items → Covered p i

  module _ (w count count' : ℕ) (p : Pool A R) (s : IsSound count p) (h : w < count')
      (k : count ≤ count') (m : w ≤ count) (g : count' ≤ max count (w + 1)) where
    items_eq : length p.items ≡ length items
    items_eq = ap length s.same

    claim-bounded :
        (v i : ℕ)
        → (claim w p).workers v ≡ working i
        → (i < (claim w p).cursor) × (i < length items)
    unfolding claim
    claim-bounded v i e = ground (arith, e, items_eq, s.bounded v i)

    claim-exclusive :
        (v u i : ℕ) → (claim w p).workers v ≡ working i → (claim w p).workers u ≡ working i → v ≡ u
    unfolding claim
    claim-exclusive v u i e f =
        ground (arith, e, f, items_eq, s.exclusive v u i, s.bounded v i, s.bounded u i)

    claim-spent : (v : ℕ) → (claim w p).workers v ≡ returned → length items ≤ (claim w p).cursor
    unfolding claim
    claim-spent v e = ground (arith, e, items_eq, s.spent v)

    claim-Covered :
        ((i : ℕ) → p.workers w ≡ working i → (r : R) × (p.results i ≡ some r))
        → ((reason : String) → p.workers w ≢ threw reason)
        → (i : ℕ) → i < (claim w p).cursor
        → i < length items
        → Covered (claim w p) i
    unfolding claim
    claim-Covered done alive i less small = elim (Bool-cases (i == p.cursor)) [
      | inl here ↦ inr (inl (w, ground (arith, here, items_eq, small)))
      | inr past ↦ elim (s.covered i (ground (arith, past, less)) small) [
        | inl found ↦ inl found
        | inr (inl (v, e)) ↦ elim (Bool-cases (v == w)) [
          | inl same ↦ inl (done i (ground (arith, same, e)))
          | inr other ↦ inr (inl (v, rw other e))
        ]
        | inr (inr (v, reason, e)) ↦ elim (Bool-cases (v == w)) [
          | inl same ↦ absurd (alive reason (ground (arith, same, e)))
          | inr other ↦ inr (inr (v, reason, rw other e))
        ]
      ]
    ]

    claim-IsSound :
        ((i : ℕ) → p.workers w ≡ working i → (r : R) × (p.results i ≡ some r))
        → ((reason : String) → p.workers w ≢ threw reason)
        → IsSound count' (claim w p)
    unfolding claim
    claim-IsSound done alive = record {
      same = s.same;
      bounded = claim-bounded;
      exclusive = claim-exclusive;
      counted = λ v le. ground (arith, s.counted v, le, h, k);
      begun = λ v less e. ground (arith, e, less, s.begun v, m, g);
      spent = claim-spent;
      right = s.right;
      covered = claim-Covered done alive;
    }

  pub start_workers-IsSound :
      (count : ℕ) → IsSound count (start_workers count (unstarted_pool items))
  unfolding start_workers
  start_workers-IsSound zero = record {
    same = refl;
    bounded = λ w i e. absurd (ground (arith, e));
    exclusive = λ v w i e f. absurd (ground (arith, e));
    counted = λ w le. refl;
    begun = λ w less e. omega (arith, less);
    spent = λ w e. absurd (ground (arith, e));
    right = λ i r e. absurd (ground (arith, e));
    covered = λ i less small. absurd (omega (arith, less));
  }
  start_workers-IsSound (suc w) =
      let s = start_workers-IsSound w in
      let idle = s.counted w (omega arith) in
      claim-IsSound w w (suc w) (start_workers w (unstarted_pool items)) s (omega arith)
        (omega arith) (omega arith) (omega arith) (λ i e. absurd (ground (arith, e, idle)))
        (λ reason e. ground (arith, e, idle))

  pub low_worker :
      (count w index : ℕ) (p : Pool A R) → IsSound count p → p.workers w ≡ working index → w < count
  low_worker count w index p s busy = elim (Bool-cases (leb count w)) [
    | inl high ↦ absurd (ground (arith, s.counted w (ground (arith, high)), busy))
    | inr low ↦ ground (arith, low)
  ]

  module _ (count w index : ℕ) (p : Pool A R) (s : IsSound count p)
      (busy : p.workers w ≡ working index) where
    set_result-IsSound :
        (item : A) (r : R)
        → get_elem? items index ≡ some item
        → worker item index ≡ fulfilled r
        → IsSound count (set_result index r p)
    set_result-IsSound item r at' came = record {
      same = s.same;
      bounded = s.bounded;
      exclusive = s.exclusive;
      counted = s.counted;
      begun = s.begun;
      spent = s.spent;
      right = λ i x e. elim (Bool-cases (i == index)) [
        | inl same ↦
            let i_eq = (==_iff i index).0 same in
            (
              item,
              ap (get_elem? items) i_eq ∙ at',
              ap (worker item) i_eq ∙ came ∙ ap fulfilled (eq_of_some (rw same at e)),
            )
        | inr other ↦ s.right i x (rw other at e)
      ];
      covered = λ i less small. elim (Bool-cases (i == index)) [
        | inl same ↦ inl (r, rw same refl)
        | inr other ↦ elim (s.covered i less small) [
          | inl (x, e) ↦ inl (x, rw other e)
          | inr later ↦ inr later
        ]
      ];
    }

    settle_call-IsSound :
        (item : A)
        → get_elem? items index ≡ some item
        → (x : Settled R) → worker item index ≡ x
        → w < count
        → IsSound count (settle_call w index x p)
    unfolding settle_call
    settle_call-IsSound item at' (fulfilled r) came low =
        claim-IsSound w count count (set_result index r p) (set_result-IsSound item r at' came) low
          (omega arith) (omega (arith, low)) (omega arith) (λ i e. (r, ground (arith, e, busy)))
          (λ reason e. ground (arith, e, busy))
    settle_call-IsSound item at' (rejected reason) came low = record {
      same = s.same;
      bounded = λ v i e. ground (arith, e, s.bounded v i);
      exclusive = λ v u i e f. ground (arith, e, f, s.exclusive v u i);
      counted = λ v le. ground (arith, s.counted v, le, low);
      begun = λ v less e. ground (arith, e, s.begun v less);
      spent = λ v e. ground (arith, e, s.spent v);
      right = s.right;
      covered = λ i less small. inr (inr (w, reason, ground arith));
    }

  pub reach-IsSound :
      (concurrency k : ℕ) (p : Pool A R)
      → PoolReach worker concurrency items k p
      → IsSound (width concurrency items) p
  unfolding start_pool
  reach-IsSound concurrency k p started = start_workers-IsSound (width concurrency items)
  reach-IsSound concurrency k q (then_step {k = j} reach (settles p w index item busy at')) =
      let s = reach-IsSound concurrency j p reach in
      settle_call-IsSound (width concurrency items) w index p s busy item
        (ap (λ xs. get_elem? xs index) (sym s.same) ∙ at') (worker item index) refl
        (low_worker (width concurrency items) w index p s busy)
