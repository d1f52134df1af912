-- ===== src/Client/Attempts.antt =====
-- How often a call of src/analysis-engine/anthropic-client.ts is sent, and what it leaves in the tallies.
use fixor.Prelude.{
  ℕ, zero, suc, ◌+◌, ◌≤◌, ◌≡◌, ◌∙◌, refl, ◌⊎◌, inl, inr, Bool, not, ◌&&◌, ◌||◌, Option, none, some,
  arith, ltb, leb, if◌then◌else◌, Bool-cases, Option-cases,
}
use fixor.Client.{
  Model, FailReason, no_api_key, timed_out, http_error, spend_unrecorded, scan_cancelled, Usage,
  Response, answered, threw, Reply, Coverage, World, CallOptions,
}
use fixor.Client.Retry.{max_retries, is_retryable}
use fixor.Client.Tally.{record_llm_detection_call, record_llm_call}
use fixor.Client.Call.{
  CallResult, ok, failed, fixture_missing, Mode, live, replay, ledger_write_failed,
  is_scan_cancelled, tally, outcome_of, account, price_of, book, send, write_ledger, add_scan_spend,
  mark_ledger_write_failed, write_in, attempt_from, settle_attempt, call_live, call_claude,
}

-- A call's bookkeeping touches neither tally, and no request.
abbrev pub Untouched : World → World → Type 0
Untouched w v =
    (v.coverage ≡ w.coverage) × (v.call_ledger ≡ w.call_ledger) × (v.requests ≡ w.requests)

write_ledger-Untouched :
    (fails : Bool) (cost now : ℕ) (w : World) → Untouched w (write_ledger fails cost now w)
unfolding write_ledger write_in mark_ledger_write_failed
write_ledger-Untouched fails cost now w = elim (Option-cases w.context) [
  | inl outside ↦ rw outside (refl, refl, refl)
  | inr (c, inside) ↦ elim (Bool-cases fails) [
    | inl yes' ↦ rw (inside, yes') (refl, refl, refl)
    | inr no' ↦ rw (inside, no') (refl, refl, refl)
  ]
]

pub book-Untouched :
    (m : Model) (fails : Bool) (now : ℕ) (usage : Option Usage) (w : World)
    → Untouched w (book m fails now usage w)
unfolding book add_scan_spend
book-Untouched m fails now none w = (refl, refl, refl)
book-Untouched m fails now (some usage) w = write_ledger-Untouched fails _ now (add_scan_spend _ w)

pub account-requests :
    (opts : CallOptions) (reason : Option FailReason) (cost : Option ℕ) (w : World)
    → (account opts reason cost w).requests ≡ w.requests
unfolding account tally
account-requests opts reason cost w = elim (Bool-cases opts.is_auxiliary) [
  | inl yes' ↦ rw yes' refl
  | inr no' ↦ rw no' refl
]

-- A call that ends with this reason adds itself to both tallies, an auxiliary one to that of calls only.
abbrev pub recorded : CallOptions → Option FailReason → Coverage → Coverage
recorded opts reason t =
    if opts.is_auxiliary then t else record_llm_detection_call (outcome_of opts reason) t

abbrev pub Adds : CallOptions → Option FailReason → World → World → Type 0
Adds opts reason w v =
    (v.call_ledger.calls ≡ w.call_ledger.calls + 1) × (v.coverage ≡ recorded opts reason w.coverage)

account-Adds :
    (opts : CallOptions) (reason : Option FailReason) (cost : Option ℕ) (w v : World)
    → v.coverage ≡ w.coverage
    → v.call_ledger ≡ w.call_ledger
    → Adds opts reason w (account opts reason cost v)
unfolding account tally record_llm_call
account-Adds opts reason none w v same calls = elim (Bool-cases opts.is_auxiliary) [
  | inl yes' ↦ rw (yes', same, calls) (refl, refl)
  | inr no' ↦ rw (no', same, calls) (refl, refl)
]
account-Adds opts reason (some cost) w v same calls = elim (Bool-cases opts.is_auxiliary) [
  | inl yes' ↦ rw (yes', same, calls) (refl, refl)
  | inr no' ↦ rw (no', same, calls) (refl, refl)
]

-- The reason with which a result is tallied: none for a success.
abbrev pub reason_of : {Input : Type 0} → CallResult Input → Option FailReason
reason_of (ok tool_input text usage) = none
reason_of (failed reason) = some reason
reason_of fixture_missing = none

module _ {Input : Type 0} (opts : CallOptions) (replies : ℕ → Reply Input) where
  -- The tallies and the requests after the attempts that begin at one, `left` of them at most.
  abbrev Accounted : ℕ → World → World → CallResult Input × World → Type 0
  Accounted left v w out =
      Adds opts (reason_of out.0) v out.1
      × (w.requests ≤ out.1.requests)
      × (out.1.requests ≤ w.requests + left)

  refuse-Accounted :
      (reason : FailReason) (left : ℕ) (v w : World)
      → w.coverage ≡ v.coverage
      → w.call_ledger ≡ v.call_ledger
      → Accounted left v w (failed reason, account opts (some reason) none w)
  refuse-Accounted reason left v w same calls = (
    account-Adds opts (some reason) none v w same calls,
    omega (arith, account-requests opts (some reason) none w),
    omega (arith, account-requests opts (some reason) none w),
  )

  -- What follows a reply is accounted if the rest of the loop is.
  settle_attempt-Accounted :
      (attempt left : ℕ) (response : Response Input) (fails : Bool) (now : ℕ)
      (again : CallResult Input × World) (v w : World)
      → w.coverage ≡ v.coverage
      → w.call_ledger ≡ v.call_ledger
      → Accounted left v w again
      → Accounted left v w (settle_attempt opts replies attempt response fails now again w)
  unfolding settle_attempt
  settle_attempt-Accounted attempt left (answered blocks usage) fails now again v w same calls
        rest =
      let kept = book-Untouched opts.model fails now usage w in
      let sent =
        account-requests opts none (price_of opts.model usage)
          (book opts.model fails now usage w) in
      (
        account-Adds opts none (price_of opts.model usage) v (book opts.model fails now usage w)
            (kept.0 ∙ same) (kept.1 ∙ calls),
        omega (arith, sent, kept.2),
        omega (arith, sent, kept.2),
      )
  settle_attempt-Accounted attempt left (threw err) fails now again v w same calls rest =
      elim (Bool-cases (err.is_error && err.is_abort)) [
        | inl aborted ↦ rw aborted (refuse-Accounted timed_out left v w same calls)
        | inr other ↦ elim (Bool-cases (leb max_retries attempt || not (is_retryable err))) [
          | inl last ↦ rw (other, last) (refuse-Accounted http_error left v w same calls)
          | inr more ↦ rw (other, more) rest
        ]
      ]

  attempt_from-Accounted :
      (rounds attempt : ℕ) (w : World)
      → Accounted rounds w w (attempt_from opts replies rounds attempt w)
  unfolding attempt_from send
  attempt_from-Accounted zero attempt w = refuse-Accounted http_error zero w w refl refl
  attempt_from-Accounted (suc rounds) attempt w =
      let out = send (replies attempt).deadline_passed (replies attempt).other_write_failed w in
      let (adds, least, most) = attempt_from-Accounted rounds (attempt + 1) out in
      elim (Bool-cases (ltb 0 attempt && ledger_write_failed w)) [
        | inl broken ↦ rw broken (refuse-Accounted spend_unrecorded (suc rounds) w w refl refl)
        | inr sound ↦ elim (Bool-cases (ltb 0 attempt && is_scan_cancelled w)) [
          | inl over ↦ rw (sound, over) (refuse-Accounted scan_cancelled (suc rounds) w w refl refl)
          | inr going ↦
              rw (sound, going)
                (let (adds', least', most') =
                    settle_attempt-Accounted attempt rounds (replies attempt).response
                      (replies attempt).write_fails (replies attempt).now
                      (attempt_from opts replies rounds (attempt + 1) out) w out refl refl
                      (adds, least, most) in
                  (adds', omega (arith, least'), omega (arith, most')))
        ]
      ]

  call_live-Accounted :
      (has_client : Bool) (w : World) → Accounted 4 w w (call_live opts replies has_client w)
  unfolding call_live
  call_live-Accounted has_client w = elim (Bool-cases (ledger_write_failed w)) [
    | inl broken ↦ rw broken (refuse-Accounted spend_unrecorded 4 w w refl refl)
    | inr sound ↦ elim (Bool-cases (is_scan_cancelled w)) [
      | inl over ↦ rw (sound, over) (refuse-Accounted scan_cancelled 4 w w refl refl)
      | inr going ↦ elim (Bool-cases has_client) [
        | inl client ↦ rw (sound, going, client) (attempt_from-Accounted 4 0 w)
        | inr missing ↦ rw (sound, going, missing) (refuse-Accounted no_api_key 4 w w refl refl)
      ]
    ]
  ]

  -- Every call, however it ends, adds itself once to the tally of calls and, unless it is auxiliary, once
  -- to the coverage tally, as a failure with its reason exactly if it failed; and it sends four requests
  -- at most. The one exception is a replay without a fixture, which throws and changes nothing.
  pub call_claude-Adds :
      (mode : Mode Input) (has_client : Bool) (w : World)
      → let out = call_claude opts replies mode has_client w in
        ((out.0 ≡ fixture_missing) × (out.1 ≡ w))
        ⊎ (Adds opts (reason_of out.0) w out.1 × (out.1.requests ≤ w.requests + 4))
  unfolding call_claude
  call_claude-Adds live has_client w =
      let (adds, least, most) = call_live-Accounted has_client w in inr (adds, most)
  call_claude-Adds (replay none) has_client w = inl (refl, refl)
  call_claude-Adds (replay (some (tool_input, text))) has_client w =
      inr (
        account-Adds opts none none w w refl refl,
        omega (arith, account-requests opts none none w),
      )
