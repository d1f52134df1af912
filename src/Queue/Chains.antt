-- ===== src/Queue/Chains.antt =====
-- The chains: the tickets of one key wait for one another in the order of their calls of `run`.
use fixor.Prelude.{
  ℕ, ◌-◌, ◌≤◌, ◌<◌, ◌≡◌, ◌≢◌, refl, ap, inl, inr, Bool, true, false, Option, none, some, List, [],
  ◌∷◌, String, arith, ltb, ◌==◌, Bool-cases, Map, get, get-put, get-remove, get-empty, eq_iff,
}
use fixor.Queue.{
  Phase, absent, chained, queued, holding, finished, Queue, update, set_phase, begin, settled,
  acquire, wake, release, drop_tail, settle, Step, begins, resumes, settles, Reach, made, then_step,
  new, new-eq-some,
}
use fixor.Queue.Slots.{Slots, Reach-Slots, below-next}

-- The ticket has passed `await previous`.
abbrev pub is_past : Phase → Bool
is_past absent = false
is_past chained = false
is_past _ = true

-- `closing` is a ticket that has finished and whose tail may still stand in the map.
pub record ChainsOf (closing : Option ℕ) (tails : Map ℕ) (next : ℕ) (key : ℕ → String)
    (previous : ℕ → Option ℕ) (phase : ℕ → Phase) : Type 0 where
  pub order :
      (i j : ℕ) → i < j → j < next → key i ≡ key j → is_past (phase j) ≡ true → phase i ≡ finished
  pub link : (i j p : ℕ) → j < next → previous j ≡ some p → (p < j) × (key p ≡ key j)
  pub nearest : (i j p : ℕ) → j < next → previous j ≡ some p → i < j → key i ≡ key j → i ≤ p
  pub unlinked :
      (i j : ℕ) → j < next → previous j ≡ none → i < j → key i ≡ key j → phase i ≡ finished
  pub tail : (k : String) (p : ℕ) → get k tails ≡ some p → (p < next) × (key p ≡ k)
  pub alive : (k : String) (p : ℕ) → get k tails ≡ some p → phase p ≡ finished → closing ≡ some p
  pub last : (k : String) (p i : ℕ) → get k tails ≡ some p → i < next → key i ≡ k → i ≤ p
  pub untailed :
      (k : String) (i : ℕ) → get k tails ≡ none → i < next → key i ≡ k → phase i ≡ finished

abbrev pub Chains : Queue → Type 0
Chains q = ChainsOf none q.tails q.next q.key q.previous q.phase

module _ (k : String) (q : Queue) (c : Chains q) where
  begin-order :
      (i j : ℕ)
      → i < j
      → j < (begin k q).next
      → (begin k q).key i ≡ (begin k q).key j
      → is_past ((begin k q).phase j) ≡ true
      → (begin k q).phase i ≡ finished
  unfolding begin
  begin-order i j h below same past = ground (arith, c.order i j)

  begin-link :
      (i j p : ℕ)
      → j < (begin k q).next
      → (begin k q).previous j ≡ some p
      → (p < j) × ((begin k q).key p ≡ (begin k q).key j)
  unfolding begin
  begin-link i j p below e = ground (arith, c.link i j p, c.tail k p)

  begin-nearest :
      (i j p : ℕ)
      → j < (begin k q).next
      → (begin k q).previous j ≡ some p
      → i < j
      → (begin k q).key i ≡ (begin k q).key j
      → i ≤ p
  unfolding begin
  begin-nearest i j p below e h same = ground (arith, c.nearest i j p, c.last k p i)

  begin-unlinked :
      (i j : ℕ)
      → j < (begin k q).next
      → (begin k q).previous j ≡ none
      → i < j
      → (begin k q).key i ≡ (begin k q).key j
      → (begin k q).phase i ≡ finished
  unfolding begin
  begin-unlinked i j below e h same = ground (arith, c.unlinked i j, c.untailed k i)

  begin-tail :
      (k' : String) (p : ℕ)
      → get k' (begin k q).tails ≡ some p
      → (p < (begin k q).next) × ((begin k q).key p ≡ k')
  unfolding begin
  begin-tail k' p e = ground (arith, get-put k k' q.next q.tails, eq_iff k k', c.tail k' p)

  begin-alive :
      (k' : String) (p : ℕ)
      → get k' (begin k q).tails ≡ some p
      → (begin k q).phase p ≡ finished
      → none ≡ some p
  unfolding begin
  begin-alive k' p e done =
      ground (arith, get-put k k' q.next q.tails, eq_iff k k', c.tail k' p, c.alive k' p)

  begin-last :
      (k' : String) (p i : ℕ)
      → get k' (begin k q).tails ≡ some p
      → i < (begin k q).next
      → (begin k q).key i ≡ k'
      → i ≤ p
  unfolding begin
  begin-last k' p i e below own =
      ground (arith, get-put k k' q.next q.tails, eq_iff k k', c.last k' p i)

  begin-untailed :
      (k' : String) (i : ℕ)
      → get k' (begin k q).tails ≡ none
      → i < (begin k q).next
      → (begin k q).key i ≡ k'
      → (begin k q).phase i ≡ finished
  unfolding begin
  begin-untailed k' i e below own =
      ground (arith, get-put k k' q.next q.tails, eq_iff k k', c.untailed k' i)

  begin-Chains : Chains (begin k q)
  begin-Chains = record {
    order = begin-order;
    link = begin-link;
    nearest = begin-nearest;
    unlinked = begin-unlinked;
    tail = begin-tail;
    alive = begin-alive;
    last = begin-last;
    untailed = begin-untailed;
  }

module _ {closing : Option ℕ} {tails : Map ℕ} {next : ℕ} {key : ℕ → String}
    {previous : ℕ → Option ℕ} {phase : ℕ → Phase}
    (c : ChainsOf closing tails next key previous phase) (i : ℕ) where
  -- A ticket moves on, without finishing, once the earlier ones of its key have finished.
  advance :
      (v : Phase)
      → phase i ≢ finished
      → v ≢ finished
      → ((j : ℕ) → j < i → key j ≡ key i → phase j ≡ finished)
      → i < next
      → ChainsOf closing tails next key previous (update phase i v)
  advance v unfinished stays earlier below = record {
    order = λ a b h n same past. ground (arith, c.order a b, earlier a);
    link = c.link;
    nearest = c.nearest;
    unlinked = λ a b n e h same. ground (arith, c.unlinked a b);
    tail = c.tail;
    alive = λ k p e done. ground (arith, c.alive k p);
    last = c.last;
    untailed = λ k a e n own. ground (arith, c.untailed k a);
  }

module _ {tails : Map ℕ} {next : ℕ} {key : ℕ → String} {previous : ℕ → Option ℕ} {phase : ℕ → Phase}
    (c : ChainsOf none tails next key previous phase) (i : ℕ) where
  -- A ticket that has passed its `await` finishes.
  finish :
      is_past (phase i) ≡ true
      → phase i ≢ finished
      → i < next
      → ChainsOf (some i) tails next key previous (update phase i finished)
  finish past unfinished below = record {
    order = λ a b h n same p. ground (arith, c.order a b);
    link = c.link;
    nearest = c.nearest;
    unlinked = λ a b n e h same. ground (arith, c.unlinked a b);
    tail = c.tail;
    alive = λ k p e done. ground (arith, c.alive k p);
    last = c.last;
    untailed = λ k a e n own. ground (arith, c.untailed k a);
  }

-- Its tail is deleted if it still stands for the key.
closed :
    (q : Queue) (i : ℕ) (o : Option ℕ)
    → ChainsOf (some i) q.tails q.next q.key q.previous q.phase
    → q.phase i ≡ finished
    → i < q.next
    → get (q.key i) q.tails ≡ o
    → Chains (drop_tail i o q)
unfolding drop_tail
closed q i none c done below e = record {
  order = c.order;
  link = c.link;
  nearest = c.nearest;
  unlinked = c.unlinked;
  tail = c.tail;
  alive = λ k p f d. ground (arith, c.alive k p, c.tail k p);
  last = c.last;
  untailed = c.untailed;
}
closed q i (some p) c done below e = elim (Bool-cases (p == i)) [
  | inl mine ↦ rw mine (record {
    order = c.order;
    link = c.link;
    nearest = c.nearest;
    unlinked = c.unlinked;
    tail = λ k a f. ground (arith, get-remove (q.key i) k q.tails, c.tail k a);
    alive = λ k a f d.
        ground (arith, get-remove (q.key i) k q.tails, eq_iff (q.key i) k, c.alive k a, c.tail k a);
    last = λ k a b f n own. ground (arith, get-remove (q.key i) k q.tails, c.last k a b);
    untailed = λ k a f n own. ground (
      arith,
      get-remove (q.key i) k q.tails,
      eq_iff (q.key i) k,
      c.last (q.key i) p a e n,
      c.order a i,
      c.untailed k a,
    );
  })
  | inr other ↦ rw other (record {
    order = c.order;
    link = c.link;
    nearest = c.nearest;
    unlinked = c.unlinked;
    tail = c.tail;
    alive = λ k a f d.
        ground (arith, c.alive k a, c.tail k a, ap (λ s. get s q.tails) (c.tail k a f).1);
    last = c.last;
    untailed = c.untailed;
  })
]

-- The promise that a ticket awaits resolves only when all earlier tickets of its key have finished.
pub settled-earlier :
    (q : Queue) (c : Chains q) (i j : ℕ)
    → i < q.next
    → settled q (q.previous i) ≡ true
    → j < i
    → q.key j ≡ q.key i
    → q.phase j ≡ finished
unfolding settled
settled-earlier q c i j below ready h same = go (q.previous i) refl ready
  where
    go : (o : Option ℕ) → q.previous i ≡ o → settled q o ≡ true → q.phase j ≡ finished
    go none e r = c.unlinked j i below e h same
    go (some p) e r =
        ground (arith, c.link j i p below e, c.nearest j i p below e h same, c.order j p)

acquire-Chains :
    (q : Queue) (i : ℕ)
    → Chains q
    → q.phase i ≡ chained
    → i < q.next
    → settled q (q.previous i) ≡ true
    → Chains (acquire i q)
unfolding acquire
acquire-Chains q i c ready below resolved =
    let earlier : (j : ℕ) → j < i → q.key j ≡ q.key i → q.phase j ≡ finished =
      λ j h same. settled-earlier q c i j below resolved h same in
    elim (Bool-cases (ltb q.running q.max_concurrent)) [
      | inl room ↦ rw room (advance c i holding (λ e. cc) (λ e. cc) earlier below)
      | inr taken ↦ rw taken (advance c i queued (λ e. cc) (λ e. cc) earlier below)
    ]

settle-Chains : (q : Queue) (i : ℕ) → Slots q → Chains q → q.phase i ≡ holding → Chains (settle i q)
unfolding settle release wake
settle-Chains q i s c held = go q.waiting refl
  where
    below : i < q.next
    below = below-next q i s (λ e. cc)

    done : ChainsOf (some i) q.tails q.next q.key q.previous (update q.phase i finished)
    done = finish c i (ap is_past held) (λ e. cc) below

    go :
        (ws : List ℕ)
        → q.waiting ≡ ws
        → (let freed = wake ws (record (set_phase q i finished) { running = q.running - 1 }) in
            Chains (drop_tail i (get (q.key i) freed.tails) freed))
    go [] e = closed _ i _ done (ground arith) below refl
    go (w ∷ rest) e =
        let (w_queued, w_below) = (rw e at s.waits).0 in
        let woken =
          advance done w holding (ground arith) (λ h. cc)
            (λ j h same. ground (arith, c.order j w h w_below same)) w_below in
        closed _ i _ woken (ground arith) below refl

Step-Chains : {q r : Queue} → Step q r → Slots q → Chains q → Chains r
Step-Chains (begins q k) s c = begin-Chains k q c
Step-Chains (resumes q i ready resolved) s c =
    acquire-Chains q i c ready (below-next q i s (λ e. cc)) resolved
Step-Chains (settles q i held) s c = settle-Chains q i s c held

new-Chains : (m : ℕ) (q : Queue) → new m ≡ some q → Chains q
new-Chains m q e = rw (← (new-eq-some m e).1) (record {
  order = λ i j h n same past. absurd (omega arith);
  link = λ i j p n e. absurd (omega arith);
  nearest = λ i j p n e h same. absurd (omega arith);
  unlinked = λ i j n e h same. absurd (omega arith);
  tail = λ k p e. cc (get-empty {V = ℕ} k);
  alive = λ k p e d. cc (get-empty {V = ℕ} k);
  last = λ k p i e n own. absurd (omega arith);
  untailed = λ k i e n own. absurd (omega arith);
})

pub Reach-Chains : {m : ℕ} {q : Queue} → Reach m q → Chains q
Reach-Chains (made q e) = new-Chains _ q e
Reach-Chains (then_step r st) = Step-Chains st (Reach-Slots r) (Reach-Chains r)
