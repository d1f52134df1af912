-- ===== src/Queue.antt =====
-- The scan queue, src/lib/scan-queue.ts: one scan at a time per key, at most `max_concurrent` at once.
--
-- A call of `run` is a ticket, numbered in the order of the calls. Between two `await`s the code runs
-- to the end, so each stretch of synchronous code is one step:
--   begin   `run` up to `await previous`: reads the key's tail and puts its own in its place;
--   resume  `previous` has resolved: `acquire` takes a slot or joins `waiting`;
--   settle  the task has resolved or rejected: both `finally` blocks, `release`, `done` and the
--           deletion of the tail, with nothing between them.
-- `tail = previous.then(() => mine)` resolves when both have; a ticket calls `done` only after its
-- `await previous`, so its tail is settled exactly when the ticket is finished.
pub mod Counting
pub mod Slots
pub mod Chains
pub mod Progress
pub mod Exclusion
mod Tests
use fixor.Prelude.{
  ℕ, ◌+◌, ◌-◌, Bool, true, false, Option, none, some, List, [], ◌∷◌, ◌++◌, String, Map, get, put,
  remove, ltb, leb, ◌==◌, if◌then◌else◌, ◌≡◌, ◌<◌, Bool-cases, inl, inr, arith, eq_of_some,
}

-- `holding` counts from the moment that the slot is counted in `running`, which for a woken ticket is
-- before its `await` resumes.
pub data Phase : Type 0 where
  absent chained queued holding finished : Phase

pub record Queue : Type 0 where
  pub max_concurrent : ℕ
  pub tails : Map ℕ
  pub running : ℕ
  pub waiting : List ℕ
  pub next : ℕ
  pub key : ℕ → String
  pub previous : ℕ → Option ℕ
  pub phase : ℕ → Phase

abbrev pub update {ℓ} : {A : Type ℓ} → (ℕ → A) → ℕ → A → ℕ → A
update f i v j = if j == i then v else f j

abbrev pub is_holding : Phase → Bool
is_holding holding = true
is_holding _ = false

abbrev pub is_queued : Phase → Bool
is_queued queued = true
is_queued _ = false

abbrev pub is_finished : Phase → Bool
is_finished finished = true
is_finished _ = false

-- The fields' initial values.
abbrev pub fresh : ℕ → Queue
fresh max_concurrent = record {
  max_concurrent = max_concurrent;
  tails = [];
  running = 0;
  waiting = [];
  next = 0;
  key = λ i. "";
  previous = λ i. none;
  phase = λ i. absent;
}

-- `none` is the thrown Error. The argument is a natural number, so `isInteger` holds.
pub new : ℕ → Option Queue
new max_concurrent = if ltb max_concurrent 1 then none else some (fresh max_concurrent)

pub new-eq-some : (m : ℕ) {q : Queue} → new m ≡ some q → (0 < m) × (fresh m ≡ q)
unfolding new
new-eq-some m e = elim (Bool-cases (ltb m 1)) [
  | inl small ↦ cc
  | inr large ↦ (ground arith, eq_of_some (rw large at e))
]

abbrev pub set_phase : Queue → ℕ → Phase → Queue
set_phase q i p = record q { phase = update q.phase i p }

-- `this.tails.get(key) ?? Promise.resolve()` up to `await previous`.
pub begin : String → Queue → Queue
begin k q = record q {
  tails = put k q.next q.tails;
  next = q.next + 1;
  key = update q.key q.next k;
  previous = update q.previous q.next (get k q.tails);
  phase = update q.phase q.next chained;
}

-- The promise that the ticket awaits has resolved.
pub settled : Queue → Option ℕ → Bool
settled q none = true
settled q (some p) = is_finished (q.phase p)

pub acquire : ℕ → Queue → Queue
acquire i q =
    if ltb q.running q.max_concurrent
    then set_phase (record q { running = q.running + 1 }) i holding
    else set_phase (record q { waiting = q.waiting ++ i ∷ [] }) i queued

-- `const next = this.waiting.shift(); if (next) next();`
wake : List ℕ → Queue → Queue
wake [] q = q
wake (i ∷ rest) q = set_phase (record q { waiting = rest; running = q.running + 1 }) i holding

pub release : Queue → Queue
unfolding wake
release q = wake q.waiting (record q { running = q.running - 1 })

-- `if (this.tails.get(key) === tail) this.tails.delete(key)`
drop_tail : ℕ → Option ℕ → Queue → Queue
drop_tail i none q = q
drop_tail i (some p) q = if p == i then record q { tails = remove (q.key i) q.tails } else q

pub settle : ℕ → Queue → Queue
unfolding release drop_tail
settle i q =
    let freed = release (set_phase q i finished) in drop_tail i (get (q.key i) freed.tails) freed

-- What the event loop may do next.
pub data Step : Queue → Queue → Type 0 where
  begins : (q : Queue) (k : String) → Step q (begin k q)
  resumes :
      (q : Queue) (i : ℕ)
      → q.phase i ≡ chained
      → settled q (q.previous i) ≡ true
      → Step q (acquire i q)
  settles : (q : Queue) (i : ℕ) → q.phase i ≡ holding → Step q (settle i q)

pub data Reach (m : ℕ) : Queue → Type 0 where
  made : (q : Queue) → new m ≡ some q → Reach m q
  then_step : {q r : Queue} → Reach m q → Step q r → Reach m r
