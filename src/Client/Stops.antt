-- ===== src/Client/Stops.antt =====
-- When a scan stops calling the model: src/analysis-engine/anthropic-client.ts with the context of
-- src/lib/cost-context.ts.
use fixor.Prelude.{
  ℕ, zero, suc, ◌+◌, ◌-◌, ◌≤◌, ◌<◌, ◌≡◌, refl, sym, ap, subst, ◌⊎◌, inl, inr, Bool, true, ◌||◌,
  none, some, arith, ◌==◌, ==_iff, Bool-cases,
}
use fixor.Client.{
  no_api_key, timed_out, http_error, spend_unrecorded, scan_cancelled, Response, answered, threw,
  Reply, Context, World, CallOptions,
}
use fixor.Client.Call.{
  CallResult, failed, live, ledger_write_failed, is_scan_cancelled, on_context, disturb, book,
  price_of, send, attempt_from, settle_attempt, call_live, call_claude,
}
use fixor.Client.Attempts.{account-requests, book-Untouched}

-- A call may not be made: an earlier write failed, or the scan is past its deadline.
abbrev pub is_stopped : World → Bool
is_stopped w = ledger_write_failed w || is_scan_cancelled w

module _ {Input : Type 0} (opts : CallOptions) (replies : ℕ → Reply Input) where
  -- The deadline passed, or another write failed, while a request was out.
  abbrev pub stops_at : ℕ → Bool
  stops_at n = (replies n).other_write_failed || (replies n).deadline_passed

  stopped-requests :
      (rounds attempt : ℕ) (w : World)
      → 0 < attempt
      → is_stopped w ≡ true
      → (attempt_from opts replies rounds attempt w).1.requests ≡ w.requests
  unfolding attempt_from
  stopped-requests zero attempt w later stopped = account-requests opts (some http_error) none w
  stopped-requests (suc rounds) attempt w later stopped =
      elim (Bool-cases (ledger_write_failed w)) [
        | inl broken ↦
            rw broken (ground (arith, later, account-requests opts (some spend_unrecorded) none w))
        | inr sound ↦ ground (
          arith,
          later,
          sound,
          stopped,
          account-requests opts (some spend_unrecorded) none w,
          account-requests opts (some scan_cancelled) none w,
        )
      ]

  -- The requests that follow a reply are those of the rest of the loop, or none.
  settle_attempt-requests :
      (attempt bound : ℕ) (response : Response Input) (fails : Bool) (now : ℕ)
      (again : CallResult Input × World) (w : World)
      → w.requests ≤ bound
      → again.1.requests ≤ bound
      → (settle_attempt opts replies attempt response fails now again w).1.requests ≤ bound
  unfolding settle_attempt
  settle_attempt-requests attempt bound (answered blocks usage) fails now again w sent rest =
      let kept = book-Untouched opts.model fails now usage w in
      omega (
        arith,
        sent,
        kept.2,
        account-requests opts none (price_of opts.model usage) (book opts.model fails now usage w),
      )
  settle_attempt-requests attempt bound (threw err) fails now again w sent rest = ground (
    arith,
    sent,
    rest,
    account-requests opts (some timed_out) none w,
    account-requests opts (some http_error) none w,
  )

  send-stopped :
      (passed broken : Bool) (w : World) (c : Context)
      → w.context ≡ some c
      → broken || passed ≡ true
      → is_stopped (send passed broken w) ≡ true
  unfolding send
  send-stopped passed broken w c inside stop = rw inside (ground (arith, stop))

  -- What the rest of the loop sends, if the bound holds for it.
  stop-bound :
      (rounds attempt n : ℕ) (w : World) (c : Context)
      → w.context ≡ some c
      → stops_at n ≡ true
      → attempt ≤ n
      → (attempt_from opts replies rounds attempt w).1.requests ≤ w.requests + (n - attempt) + 1
  unfolding attempt_from send
  stop-bound zero attempt n w c inside stop early =
      omega (arith, account-requests opts (some http_error) none w)
  stop-bound (suc rounds) attempt n w c inside stop early =
      let passed = (replies attempt).deadline_passed in
      let broken = (replies attempt).other_write_failed in
      let out = send passed broken w in
      let again = attempt_from opts replies rounds (attempt + 1) out in
      let inside' = ap (on_context (disturb passed broken)) inside in
      let rest : again.1.requests ≤ w.requests + (n - attempt) + 1 =
        elim (Bool-cases (attempt == n)) [
          | inl now ↦
              let same = (==_iff attempt n).0 now in
              omega (
                arith,
                stopped-requests rounds (attempt + 1) out (omega arith) (
                    send-stopped passed broken w c inside
                      (subst (λ i. stops_at i ≡ true) (sym same) stop)),
              )
          | inr before ↦
              let earlier : attempt + 1 ≤ n = ground (arith, before, early) in
              omega (arith, earlier, stop-bound rounds (attempt + 1) n out _ inside' stop earlier)
        ] in
      let here =
        settle_attempt-requests attempt (w.requests + (n - attempt) + 1) (replies attempt).response
          (replies attempt).write_fails (replies attempt).now again out (omega arith) rest in
      ground (
        arith,
        here,
        account-requests opts (some spend_unrecorded) none w,
        account-requests opts (some scan_cancelled) none w,
      )

  -- In a scan whose deadline has passed, or in which a ledger write has failed, a live call sends no
  -- request and is refused; and if either happens while attempt `n` is out, counted from 0, the call sends
  -- at most `n + 1` requests.
  pub stops_in_time :
      (has_client : Bool) (w : World) (c : Context)
      → w.context ≡ some c
      → let out = call_claude opts replies live has_client w in
        (is_stopped w ≡ true
          → (out.1.requests ≡ w.requests)
            × ((out.0 ≡ failed spend_unrecorded) ⊎ (out.0 ≡ failed scan_cancelled)))
        × ((n : ℕ) → stops_at n ≡ true → out.1.requests ≤ w.requests + n + 1)
  unfolding call_claude call_live
  stops_in_time has_client w c inside = elim (Bool-cases (ledger_write_failed w)) [
    | inl broken ↦
        let same = account-requests opts (some spend_unrecorded) none w in
        rw broken (λ _. (same, inl refl), λ n _. omega (arith, same))
    | inr sound ↦ elim (Bool-cases (is_scan_cancelled w)) [
      | inl over ↦
          let same = account-requests opts (some scan_cancelled) none w in
          rw (sound, over) (λ _. (same, inr refl), λ n _. omega (arith, same))
      | inr going ↦ elim (Bool-cases has_client) [
        | inl client ↦
            rw (sound, going, client)
              (
                λ h. absurd (ground (arith, h)),
                λ n stop. omega (arith, stop-bound 4 0 n w c inside stop (omega arith)),
              )
        | inr missing ↦
            rw (sound, going, missing)
              (
                λ h. absurd (ground (arith, h)),
                λ n _. omega (arith, account-requests opts (some no_api_key) none w),
              )
      ]
    ]
  ]
