-- ===== src/Queue/Slots.antt =====
-- The slots: the counter is the number of holders, never above the bound, and tickets wait only while
-- every slot is taken.
use fixor.Prelude.{
  ℕ, ◌+◌, ◌-◌, ◌≤◌, ◌<◌, ◌≡◌, ◌≢◌, refl, sym, ap, inl, inr, Option, none, some, List, [], ◌∷◌, ◌++◌,
  String, arith, ltb, ◌==◌, ltb→lt, Bool-cases, length, length-append, All, All-append, get, remove,
}
use fixor.Queue.{
  Phase, absent, chained, queued, holding, finished, Queue, update, is_holding, is_queued,
  set_phase, begin, acquire, wake, release, drop_tail, settle, Step, begins, resumes, settles,
  Reach, made, then_step, new, new-eq-some,
}
use fixor.Queue.Counting.{count, count-zero, count-move, count-grow, pos-count}

-- i does not wait in the list.
abbrev pub Avoids : ℕ → List ℕ → Type 0
Avoids i [] = Unit
Avoids i (j ∷ js) = (i ≢ j) × Avoids i js

abbrev pub Unrepeated : List ℕ → Type 0
Unrepeated [] = Unit
Unrepeated (j ∷ js) = Avoids j js × Unrepeated js

abbrev pub AreQueued : Queue → List ℕ → Type 0
AreQueued q = All (λ i. (q.phase i ≡ queued) × (i < q.next))

pub record Slots (q : Queue) : Type 0 where
  pub holders : count is_holding q.phase q.next ≡ q.running
  pub queuers : count is_queued q.phase q.next ≡ length q.waiting
  pub bound : q.running ≤ q.max_concurrent
  pub full : 0 < length q.waiting → q.running ≡ q.max_concurrent
  pub positive : 0 < q.max_concurrent
  pub waits : AreQueued q q.waiting
  pub once : Unrepeated q.waiting
  pub unborn : (i : ℕ) → q.next ≤ i → q.phase i ≡ absent
  pub born : (i : ℕ) → i < q.next → q.phase i ≢ absent

Avoids-of_phase :
    (q : Queue) (i : ℕ) (js : List ℕ) → q.phase i ≢ queued → AreQueued q js → Avoids i js
Avoids-of_phase q i [] h w = tt
Avoids-of_phase q i (j ∷ js) h w = (λ e. h (rw e w.0.0), Avoids-of_phase q i js h w.1)

AreQueued-update :
    (q : Queue) (i : ℕ) (v : Phase) (js : List ℕ)
    → Avoids i js
    → AreQueued q js
    → AreQueued (set_phase q i v) js
AreQueued-update q i v [] a w = tt
AreQueued-update q i v (j ∷ js) a w =
    ((ground (arith, a.0), w.0.1), AreQueued-update q i v js a.1 w.1)

begin-Slots : (k : String) (q : Queue) → Slots q → Slots (begin k q)
unfolding begin
begin-Slots k q s = record {
  holders = omega (arith, count-grow is_holding q.phase q.next chained, s.holders);
  queuers = omega (arith, count-grow is_queued q.phase q.next chained, s.queuers);
  bound = s.bound;
  full = s.full;
  positive = s.positive;
  waits = grown q.waiting s.waits;
  once = s.once;
  unborn = λ i h. ground (arith, s.unborn i);
  born = λ i h e. ground (arith, s.born i);
}
  where
    grown : (js : List ℕ) → AreQueued q js → AreQueued (begin k q) js
    grown [] w = tt
    grown (j ∷ js) w = ((ground arith, omega arith), grown js w.1)

-- A ticket that is not absent has been handed out.
pub below-next : (q : Queue) (i : ℕ) → Slots q → q.phase i ≢ absent → i < q.next
below-next q i s h = elim (Bool-cases (ltb i q.next)) [
  | inl below ↦ ltb→lt i q.next below
  | inr beyond ↦ absurd (h (s.unborn i (ground arith)))
]

-- The last of the waiting list.
AreQueued-snoc :
    (q : Queue) (i : ℕ) (js : List ℕ)
    → AreQueued q js
    → (q.phase i ≡ queued) × (i < q.next)
    → AreQueued q (js ++ i ∷ [])
AreQueued-snoc q i js w h =
    All-append (λ j. (q.phase j ≡ queued) × (j < q.next)) js (i ∷ []) w (h, tt)

Avoids-snoc : (j i : ℕ) (js : List ℕ) → Avoids j js → j ≢ i → Avoids j (js ++ i ∷ [])
Avoids-snoc j i [] a h = (h, tt)
Avoids-snoc j i (k ∷ js) a h = (a.0, Avoids-snoc j i js a.1 h)

Unrepeated-snoc : (i : ℕ) (js : List ℕ) → Unrepeated js → Avoids i js → Unrepeated (js ++ i ∷ [])
Unrepeated-snoc i [] u a = (tt, tt)
Unrepeated-snoc i (j ∷ js) u a =
    (Avoids-snoc j i js u.0 (λ e. a.0 (sym e)), Unrepeated-snoc i js u.1 a.1)

-- Taking a free slot, by a ticket that held and waited for none.
take-Slots :
    (q : Queue) (i : ℕ)
    → Slots q
    → q.phase i ≡ chained
    → q.running < q.max_concurrent
    → Slots (set_phase (record q { running = q.running + 1 }) i holding)
take-Slots q i s ready room = record {
  holders = omega (
    arith,
    count-move is_holding q.phase i q.next chained holding (below-next q i s (λ e. cc)) ready,
    s.holders,
  );
  queuers = omega (
    arith,
    count-move is_queued q.phase i q.next chained holding (below-next q i s (λ e. cc)) ready,
    s.queuers,
  );
  bound = omega arith;
  full = λ h. absurd (omega (arith, s.full h));
  positive = s.positive;
  waits =
      AreQueued-update q i holding q.waiting (Avoids-of_phase q i q.waiting (λ e. cc) s.waits)
        s.waits;
  once = s.once;
  unborn = λ j h. ground (arith, s.unborn j h);
  born = λ j h e. ground (arith, s.born j);
}

-- Joining the waiting list, when no slot is free.
join-Slots :
    (q : Queue) (i : ℕ)
    → Slots q
    → q.phase i ≡ chained
    → q.max_concurrent ≤ q.running
    → Slots (set_phase (record q { waiting = q.waiting ++ i ∷ [] }) i queued)
join-Slots q i s ready taken =
    let below = below-next q i s (λ e. cc) in
    let apart = Avoids-of_phase q i q.waiting (λ e. cc) s.waits in
    record {
      holders =
          omega
            (arith, count-move is_holding q.phase i q.next chained queued below ready, s.holders);
      queuers = omega (
        arith,
        count-move is_queued q.phase i q.next chained queued below ready,
        s.queuers,
        length-append q.waiting (i ∷ []),
      );
      bound = s.bound;
      full = λ h. omega arith;
      positive = s.positive;
      waits =
          AreQueued-snoc (set_phase q i queued) i q.waiting
            (AreQueued-update q i queued q.waiting apart s.waits) (ground arith, below);
      once = Unrepeated-snoc i q.waiting s.once apart;
      unborn = λ j h. ground (arith, s.unborn j h);
      born = λ j h e. ground (arith, s.born j);
    }

acquire-Slots : (q : Queue) (i : ℕ) → Slots q → q.phase i ≡ chained → Slots (acquire i q)
unfolding acquire
acquire-Slots q i s ready = elim (Bool-cases (ltb q.running q.max_concurrent)) [
  | inl room ↦ rw room (take-Slots q i s ready (ltb→lt _ _ room))
  | inr taken ↦ rw taken (join-Slots q i s ready (ground arith))
]

-- A holder is done and nobody waits: its slot becomes free.
leave-Slots :
    (q : Queue) (i : ℕ)
    → Slots q
    → q.phase i ≡ holding
    → q.waiting ≡ []
    → Slots (record (set_phase q i finished) { running = q.running - 1 })
leave-Slots q i s held alone =
    let below = below-next q i s (λ e. cc) in
    let some_held = pos-count is_holding q.phase i q.next below (ap is_holding held) in
    record {
      holders =
          omega
            (arith, count-move is_holding q.phase i q.next holding finished below held, s.holders);
      queuers =
          omega
            (arith, count-move is_queued q.phase i q.next holding finished below held, s.queuers);
      bound = omega (arith, s.bound);
      full = λ h. absurd (omega (arith, ap length alone));
      positive = s.positive;
      waits = rw alone tt;
      once = s.once;
      unborn = λ j h. ground (arith, s.unborn j h);
      born = λ j h e. ground (arith, s.born j);
    }

-- A holder is done and the first that waits takes over its slot.
hand_over-Slots :
    (q : Queue) (i w : ℕ) (rest : List ℕ)
    → Slots q
    → q.phase i ≡ holding
    → q.waiting ≡ w ∷ rest
    → Slots (
        set_phase
          (record (set_phase q i finished) { waiting = rest; running = q.running - 1 + 1 })
          w
          holding)
hand_over-Slots q i w rest s held line =
    let below = below-next q i s (λ e. cc) in
    let some_held = pos-count is_holding q.phase i q.next below (ap is_holding held) in
    let waits = rw line at s.waits in
    let once = rw line at s.once in
    let apart : i ≢ w = λ e. cc (ap q.phase e, waits.0.0, held) in
    let f = update q.phase i finished in
    let w_queued : f w ≡ queued = ground (arith, waits.0.0) in
    record {
      holders = omega (
        arith,
        count-move is_holding q.phase i q.next holding finished below held,
        count-move is_holding f w q.next queued holding waits.0.1 w_queued,
        s.holders,
      );
      queuers = omega (
        arith,
        count-move is_queued q.phase i q.next holding finished below held,
        count-move is_queued f w q.next queued holding waits.0.1 w_queued,
        s.queuers,
        ap length line,
      );
      bound = omega (arith, s.bound);
      full = λ h. omega (arith, s.full (rw line (omega arith)));
      positive = s.positive;
      waits =
          AreQueued-update (set_phase q i finished) w holding rest once.0 (
            AreQueued-update q i finished rest (Avoids-of_phase q i rest (λ e. cc) waits.1)
              waits.1);
      once = once.1;
      unborn = λ j h. ground (arith, s.unborn j h);
      born = λ j h e. ground (arith, s.born j);
    }

release-Slots :
    (q : Queue) (i : ℕ) → Slots q → q.phase i ≡ holding → Slots (release (set_phase q i finished))
unfolding release
release-Slots q i s held = go q.waiting refl
  where
    go :
        (ws : List ℕ)
        → q.waiting ≡ ws
        → Slots (wake ws (record (set_phase q i finished) { running = q.running - 1 }))
    go [] e = leave-Slots q i s held e
    go (w ∷ rest) e = hand_over-Slots q i w rest s held e

drop_tail-Slots : (i : ℕ) (o : Option ℕ) (q : Queue) → Slots q → Slots (drop_tail i o q)
unfolding drop_tail
drop_tail-Slots i none q s = s
drop_tail-Slots i (some p) q s = elim (Bool-cases (p == i)) [
  | inl mine ↦ rw mine (record {
    holders = s.holders;
    queuers = s.queuers;
    bound = s.bound;
    full = s.full;
    positive = s.positive;
    waits = go q.waiting s.waits;
    once = s.once;
    unborn = s.unborn;
    born = s.born;
  })
  | inr other ↦ rw other s
]
  where
    go :
        (js : List ℕ)
        → AreQueued q js
        → AreQueued (record q { tails = remove (q.key i) q.tails }) js
    go [] w = tt
    go (j ∷ js) w = (w.0, go js w.1)

settle-Slots : (q : Queue) (i : ℕ) → Slots q → q.phase i ≡ holding → Slots (settle i q)
unfolding settle
settle-Slots q i s held =
    let freed = release (set_phase q i finished) in
    drop_tail-Slots i (get (q.key i) freed.tails) freed (release-Slots q i s held)

Step-Slots : {q r : Queue} → Step q r → Slots q → Slots r
Step-Slots (begins q k) s = begin-Slots k q s
Step-Slots (resumes q i ready _) s = acquire-Slots q i s ready
Step-Slots (settles q i held) s = settle-Slots q i s held

new-Slots : (m : ℕ) (q : Queue) → new m ≡ some q → Slots q
new-Slots m q e =
    let (large, same) = new-eq-some m e in
    rw (← same) (record {
      holders = count-zero is_holding (λ i. absent);
      queuers = count-zero is_queued (λ i. absent);
      bound = omega arith;
      full = λ h. absurd (omega arith);
      positive = large;
      waits = tt;
      once = tt;
      unborn = λ i h. refl;
      born = λ i h. absurd (omega arith);
    })

pub Reach-Slots : {m : ℕ} {q : Queue} → Reach m q → Slots q
Reach-Slots (made q e) = new-Slots _ q e
Reach-Slots (then_step r st) = Step-Slots st (Reach-Slots r)
