-- ===== src/Queue/Counting.antt =====
-- Counting the tickets in a phase.
use fixor.Prelude.{
  ℕ, zero, suc, ◌+◌, ◌≤◌, ◌<◌, ◌≡◌, Bool, true, arith, ◌==◌, if◌then◌else◌, Bool-cases, inl, inr,
  refl, ap, ==_iff,
}
use native.Mathlib.Nat.{le_refl}
use fixor.Queue.{Phase, update}

abbrev pub bit : Bool → ℕ
bit b = if b then 1 else 0

module _ (P : Phase → Bool) where
  -- The tickets below n whose phase passes P.
  pub count : (ℕ → Phase) → ℕ → ℕ
  count f zero = 0
  count f (suc n) = bit (P (f n)) + count f n

  pub count-zero : (f : ℕ → Phase) → count f 0 ≡ 0
  unfolding count
  count-zero f = refl

  pub count-update_beyond :
      (f : ℕ → Phase) (i n : ℕ) (v : Phase) → n ≤ i → count (update f i v) n ≡ count f n
  unfolding count
  count-update_beyond f i zero v h = refl
  count-update_beyond f i (suc n) v h = ground (arith, count-update_beyond f i n v)

  pub count-update :
      (f : ℕ → Phase) (i n : ℕ) (v : Phase)
      → i < n
      → count (update f i v) n + bit (P (f i)) ≡ count f n + bit (P v)
  unfolding count
  count-update f i zero v h = elim h [ ]
  count-update f i (suc n) v h = elim (Bool-cases (n == i)) [
    | inl last ↦ rw ((==_iff n i).0 last) (ground (arith, count-update_beyond f i i v))
    | inr below ↦ ground (arith, count-update f i n v)
  ]

  -- A ticket below n moves from one phase to another.
  pub count-move :
      (f : ℕ → Phase) (i n : ℕ) (old v : Phase)
      → i < n
      → f i ≡ old
      → count (update f i v) n + bit (P old) ≡ count f n + bit (P v)
  count-move f i n old v h e = rw (← e) (count-update f i n v h)

  pub count-grow :
      (f : ℕ → Phase) (n : ℕ) (v : Phase) → count (update f n v) (n + 1) ≡ count f n + bit (P v)
  unfolding count
  count-grow f n v = ground (arith, count-update_beyond f n n v (le_refl n))

  -- A positive count has a ticket.
  pub count-pos : (f : ℕ → Phase) (n : ℕ) → 0 < count f n → (i : ℕ) × (i < n) × (P (f i) ≡ true)
  unfolding count
  count-pos f zero h = absurd (omega arith)
  count-pos f (suc n) h = elim (Bool-cases (P (f n))) [
    | inl here ↦ (n, omega arith, here)
    | inr other ↦ let (i, below, found) = count-pos f n (ground arith) in (i, omega arith, found)
  ]

  pub pos-count : (f : ℕ → Phase) (i n : ℕ) → i < n → P (f i) ≡ true → 0 < count f n
  unfolding count
  pos-count f i zero h p = elim h [ ]
  pos-count f i (suc n) h p = elim (Bool-cases (n == i)) [
    | inl last ↦ ground (arith, ap f ((==_iff n i).0 last))
    | inr below ↦ ground (arith, pos-count f i n)
  ]
