-- ===== src/Budget/Verdicts.antt =====
-- Which scans the gate of src/services/cost-store.ts lets through, and what it answers the others.
use fixor.Prelude.{
  ℕ, ◌≤◌, ◌<◌, ◌≡◌, refl, ◌↔◌, ◌⊎◌, inl, inr, true, false, Option, none, some, String, arith, leb,
  leb→le, Bool-cases,
}
use fixor.Budget.{
  Caps, FailureKind, budget_unverifiable, BudgetCheck, Reads, Thrown, Settled, resolved, rejected,
}
use fixor.Budget.Failure.{classify}
use fixor.Budget.Gate.{
  is_exempt, with_budget_timeout, is_transient, ReadState, attempt, read_loop, refusal, decide,
  with_cap, org_cap, after_reads, exempt_check, check_budget, budget_refusal_http,
  BudgetRefusalHttp,
}

settled-cases {ℓ} :
    {A : Type ℓ} (s : Settled A) → ((a : A) × (s ≡ resolved a)) ⊎ ((e : Thrown) × (s ≡ rejected e))
settled-cases (resolved a) = inl (a, refl)
settled-cases (rejected e) = inr (e, refl)

module _ (read : ℕ → Option (Settled Reads)) where
  -- What an attempt comes to in time.
  abbrev pub outcome : ℕ → Settled Reads
  outcome n = with_budget_timeout (read n)

  -- The reads succeed at once, or at the second attempt after a transient failure.
  pub data Reading : Reads → Type 0 where
    at_once : {r : Reads} → outcome 1 ≡ resolved r → Reading r
    at_second :
        {r : Reads} {e : Thrown}
        → outcome 1 ≡ rejected e
        → is_transient (classify e) ≡ true
        → outcome 2 ≡ resolved r
        → Reading r

  -- The reads fail after so many attempts, the last of them with a failure of this kind.
  pub data Failing : FailureKind → ℕ → Type 0 where
    lasting :
        {e : Thrown}
        → outcome 1 ≡ rejected e
        → is_transient (classify e) ≡ false
        → Failing (classify e) 1
    repeated :
        {e f : Thrown}
        → outcome 1 ≡ rejected e
        → is_transient (classify e) ≡ true
        → outcome 2 ≡ rejected f
        → Failing (classify f) 2

  last_attempt :
      (f : Thrown) (rest : ReadState)
      → attempt read 2 (rejected f) rest ≡ record { reads = none; kind = classify f; attempts = 2 }
  unfolding attempt
  last_attempt f rest = elim (Bool-cases (is_transient (classify f))) [
    | inl yes' ↦ rw yes' refl
    | inr no' ↦ rw no' refl
  ]

  -- The loop's result, by what the reads do.
  abbrev Result : ReadState → Type 0
  Result st =
      ((r : Reads) × Reading r × (st.reads ≡ some r))
      ⊎ (Failing st.kind st.attempts × (st.reads ≡ none))

  read_loop-Result : Result (read_loop read 2 0)
  unfolding read_loop attempt
  read_loop-Result = elim (settled-cases (outcome 1)) [
    | inl (r, ok) ↦ rw ok (inl (r, at_once ok, refl))
    | inr (e, bad) ↦ elim (Bool-cases (is_transient (classify e))) [
      | inr no' ↦ rw (bad, no') (inr (lasting bad no', refl))
      | inl yes' ↦ elim (settled-cases (outcome 2)) [
        | inl (r, ok) ↦ rw (bad, yes', ok) (inl (r, at_second bad yes' ok, refl))
        | inr (f, worse) ↦
            rw (bad, yes', worse, last_attempt f _) (inr (repeated bad yes' worse, refl))
      ]
    ]
  ]

  Reading-read_loop : {r : Reads} → Reading r → (read_loop read 2 0).reads ≡ some r
  unfolding read_loop attempt
  Reading-read_loop (at_once ok) = rw ok refl
  Reading-read_loop (at_second bad yes' ok) = rw (bad, yes', ok) refl

-- The fields of a check that a caller acts on.
abbrev Withheld : BudgetCheck → FailureKind → ℕ → Type 0
Withheld b kind attempts =
    (b.within_budget ≡ false)
    × (b.reason ≡ some budget_unverifiable)
    × (b.failure ≡ some (kind, attempts))

-- The response that a check is given.
abbrev Refused : BudgetCheck → ℕ → Option ℕ → Type 0
Refused b status retry =
    (h : BudgetRefusalHttp) × (budget_refusal_http b ≡ some h)
    × (h.status ≡ status)
    × (h.retry_after_seconds ≡ retry)

Withheld-Refused :
    (b : BudgetCheck) (kind : FailureKind) (n : ℕ) → Withheld b kind n → Refused b 503 (some 60)
unfolding budget_refusal_http
Withheld-Refused b kind n (closed, why, failure) = rw (closed, why) (_, refl, refl, refl)

-- What `decide` answers is 402 where a cap is reached, and no refusal where none is.
decide-Refused :
    (r : Reads) (c : Caps)
    → ((budget_refusal_http (decide r c) ≡ none)
        × (r.monthly_spend < c.monthly_cap_usd)
        × (r.daily_spend < c.daily_cap_usd))
      ⊎ (Refused (decide r c) 402 none
          × ((c.monthly_cap_usd ≤ r.monthly_spend) ⊎ (c.daily_cap_usd ≤ r.daily_spend)))
unfolding decide budget_refusal_http
decide-Refused r c = elim (Bool-cases (leb c.monthly_cap_usd r.monthly_spend)) [
  | inl over ↦ rw over (inr ((_, refl, refl, refl), inl (leb→le _ _ over)))
  | inr under ↦ elim (Bool-cases (leb c.daily_cap_usd r.daily_spend)) [
    | inl over ↦ rw (under, over) (inr ((_, refl, refl, refl), inr (leb→le _ _ over)))
    | inr below ↦ rw (under, below) (inl (refl, ground (arith, under), ground (arith, below)))
  ]
]

module _ (exempt_raw : String) (read : ℕ → Option (Settled Reads)) (provision : Option (Settled ℕ))
    (id : String) (caps : Caps) where
  -- The check's answer.
  abbrev check : BudgetCheck
  check = check_budget exempt_raw read provision id caps

  -- Everything the gate can answer a scan that is not exempt, with what it rests on.
  pub data Answer : BudgetCheck → Type 0 where
    compared :
        {r : Reads} {cap : ℕ} {b : BudgetCheck}
        → Reading read r
        → org_cap r.org_monthly_cap_usd provision ≡ resolved cap
        → b ≡ decide r (record caps { monthly_cap_usd = cap })
        → Answer b
    unread :
        {kind : FailureKind} {attempts : ℕ} {b : BudgetCheck}
        → Failing read kind attempts
        → Withheld b kind attempts
        → Answer b
    unprovisioned :
        {r : Reads} {e : Thrown} {n : ℕ} {b : BudgetCheck}
        → Reading read r
        → org_cap r.org_monthly_cap_usd provision ≡ rejected e
        → Withheld b (classify e) n
        → Answer b

  check-Answer : is_exempt exempt_raw id ≡ false → Answer check
  unfolding check_budget after_reads with_cap refusal
  check-Answer charged = elim (read_loop-Result read) [
    | inl (r, reading, found) ↦ elim (settled-cases (org_cap r.org_monthly_cap_usd provision)) [
      | inl (limit, known) ↦ compared reading known (rw (charged, found, known) refl)
      | inr (e, failed) ↦
          unprovisioned {n = (read_loop read 2 0).attempts} reading failed
            (rw (charged, found, failed) (refl, refl, refl))
    ]
    | inr (failing, missing) ↦ unread failing (rw (charged, missing) (refl, refl, refl))
  ]

  -- The spend of the month and of the day is known and below the caps, that of the org and that of the day.
  abbrev pub Affordable : Type 0
  Affordable =
      (r : Reads) × (limit : ℕ) × Reading read r
      × (org_cap r.org_monthly_cap_usd provision ≡ resolved limit)
      × (r.monthly_spend < limit)
      × (r.daily_spend < caps.daily_cap_usd)

  decide-within :
      (r : Reads) (c : Caps)
      → (decide r c).within_budget ≡ true
      → (r.monthly_spend < c.monthly_cap_usd) × (r.daily_spend < c.daily_cap_usd)
  unfolding decide
  decide-within r c h = ground arith

  within-Affordable : (b : BudgetCheck) → Answer b → b.within_budget ≡ true → Affordable
  within-Affordable b (compared {r = r} {cap = limit} reading known same) h =
      let below = decide-within r (record caps { monthly_cap_usd = limit }) (rw same at h) in
      (r, limit, reading, known, below.0, below.1)
  within-Affordable b (unread failing w) h = ground (arith, w.0)
  within-Affordable b (unprovisioned reading failed w) h = ground (arith, w.0)

  Affordable-within : is_exempt exempt_raw id ≡ false → Affordable → check.within_budget ≡ true
  unfolding check_budget after_reads with_cap decide
  Affordable-within charged (r, limit, reading, known, month, day) =
      rw (charged, Reading-read_loop read reading, known) (ground (arith, month, day))

  -- The gate lets a scan through exactly if its installation is exempt, or the reads succeeded at the
  -- first attempt or at the second after a transient failure, the org's cap is known or was provisioned,
  -- and both sums are below their caps. Nothing that cannot be read or provisioned lets a scan through.
  pub within_budget_iff :
      (check.within_budget ≡ true) ↔ ((is_exempt exempt_raw id ≡ true) ⊎ Affordable)
  unfolding check_budget exempt_check
  within_budget_iff = elim (Bool-cases (is_exempt exempt_raw id)) [
    | inl free ↦ (λ h. inl free, λ h. rw free refl)
    | inr charged ↦ (
      λ h. inr (within-Affordable check (check-Answer charged) h),
      λ h. elim h [
        | inl free ↦ absurd (ground (arith, free, charged))
        | inr enough ↦ Affordable-within charged enough
      ],
    )
  ]

  -- The reads, or the provisioning of the org, have failed.
  abbrev Unreadable : Type 0
  Unreadable =
      ((kind : FailureKind) × (attempts : ℕ) × Failing read kind attempts)
      ⊎ ((r : Reads) × (e : Thrown) × Reading read r
          × (org_cap r.org_monthly_cap_usd provision ≡ rejected e))

  -- Both sums are known and one has reached its cap.
  abbrev Exhausted : Type 0
  Exhausted =
      (r : Reads) × (limit : ℕ) × Reading read r
      × (org_cap r.org_monthly_cap_usd provision ≡ resolved limit)
      × ((limit ≤ r.monthly_spend) ⊎ (caps.daily_cap_usd ≤ r.daily_spend))

  abbrev pub Response : BudgetCheck → Type 0
  Response b =
      ((budget_refusal_http b ≡ none) × Affordable)
      ⊎ ((Refused b 402 none × Exhausted) ⊎ (Refused b 503 (some 60) × Unreadable))

  Answer-Response : (b : BudgetCheck) → Answer b → Response b
  Answer-Response b (compared {r = r} {cap = limit} reading known same) =
      rw same (elim (decide-Refused r (record caps { monthly_cap_usd = limit })) [
        | inl (silent, month, day) ↦ inl (silent, (r, limit, reading, known, month, day))
        | inr (refused, over) ↦ inr (inl (refused, (r, limit, reading, known, over)))
      ])
  Answer-Response b (unread {kind = kind} {attempts = n} failing w) =
      inr (inr (Withheld-Refused b kind n w, inl (kind, n, failing)))
  Answer-Response b (unprovisioned {r = r} {e = e} {n = n} reading failed w) =
      inr (inr (Withheld-Refused b (classify e) n w, inr (r, e, reading, failed)))

  -- A scan of an installation that is not exempt is answered by its cause: no refusal where both sums are
  -- below their caps, 402 without a retry hint where both are known and one has reached its cap, and 503
  -- with a retry after 60 seconds where the reads failed (at the first attempt if that failure was not
  -- transient, else at the second) or the org could not be provisioned.
  pub refusal_by_cause : is_exempt exempt_raw id ≡ false → Response check
  refusal_by_cause charged = Answer-Response check (check-Answer charged)
