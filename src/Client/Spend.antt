-- ===== src/Client/Spend.antt =====
-- That no spend escapes both the ledger and the stop of the scan: src/analysis-engine/anthropic-client.ts,
-- src/lib/cost-context.ts and recordCost of src/services/cost-store.ts together.
use fixor.Prelude.{
  ℕ, zero, suc, ◌+◌, ◌≤◌, ◌≡◌, refl, ap, ◌⊎◌, inl, inr, Bool, true, not, ◌&&◌, ◌||◌, Option, none,
  some, String, arith, ltb, leb, Bool-cases, kept, eq_refl,
}
use fixor.Client.{
  Model, FailReason, no_api_key, timed_out, http_error, spend_unrecorded, scan_cancelled, Usage,
  Response, answered, threw, Reply, Context, World, CallOptions,
}
use fixor.Client.Prices.{calculate_cost}
use fixor.Client.Retry.{max_retries, is_retryable}
use fixor.Client.Call.{
  CallResult, live, ledger_write_failed, is_scan_cancelled, tally, on_context, disturb, account,
  book, price_of, send, add_scan_spend, write_ledger, write_in, mark_ledger_write_failed,
  attempt_from, settle_attempt, call_live, call_claude,
}
use fixor.Budget.Ledger.{sum_since, sum_since-record_cost, as_stored, as_stored-zero}

-- The context's scan belongs to id; its total is `spent` and its installation's sum `held`, or it is marked as one that
-- has lost a ledger write.
abbrev pub IsUnspent : (id : String) → (month spent held : ℕ) → World → Type 0
IsUnspent id month spent held w =
    (c : Context) × (w.context ≡ some c)
    × (c.installation_id ≡ id)
    × ((c.ledger_write_failed ≡ true)
        ⊎ ((c.scan_spend ≡ some spent) × (sum_since id month w.db.entries ≡ held)))

-- Since then the total has grown by one cost and the sum by that cost as it is stored, or the scan is marked.
abbrev pub IsBalanced : (id : String) → (month spent held : ℕ) → World → Type 0
IsBalanced id month spent held w =
    (c : Context) × (w.context ≡ some c)
    × (c.installation_id ≡ id)
    × ((c.ledger_write_failed ≡ true)
        ⊎ ((d : ℕ) × (c.scan_spend ≡ some (spent + d))
            × (sum_since id month w.db.entries ≡ held + as_stored d)))

module _ (id : String) (month spent held : ℕ) where
  idle-IsBalanced : (w : World) → IsUnspent id month spent held w → IsBalanced id month spent held w
  idle-IsBalanced w (c, inside, same, state) = (
    c,
    inside,
    same,
    elim state [
      | inl stopped ↦ inl stopped
      | inr (total, sum) ↦
          inr (0, rw total (ap some (ground arith)), ground (arith, sum, as_stored-zero))
    ],
  )

  send-IsUnspent :
      (passed broken : Bool) (w : World)
      → IsUnspent id month spent held w
      → IsUnspent id month spent held (send passed broken w)
  unfolding send
  send-IsUnspent passed broken w (c, inside, same, state) = (
    disturb passed broken c,
    ap (on_context (disturb passed broken)) inside,
    same,
    elim state [ inl stopped ↦ inl (ground (arith, stopped)) | inr even ↦ inr even ],
  )

  account-IsBalanced :
      (opts : CallOptions) (reason : Option FailReason) (cost : Option ℕ) (w : World)
      → IsBalanced id month spent held w
      → IsBalanced id month spent held (account opts reason cost w)
  unfolding account tally
  account-IsBalanced opts reason cost w balanced = elim (Bool-cases opts.is_auxiliary) [
    | inl yes' ↦ rw yes' balanced
    | inr no' ↦ rw no' balanced
  ]

  charge-IsBalanced :
      (fails : Bool) (cost now : ℕ) (w : World)
      → month ≤ now
      → IsUnspent id month spent held w
      → IsBalanced id month spent held (write_ledger fails cost now (add_scan_spend cost w))
  unfolding write_ledger write_in add_scan_spend mark_ledger_write_failed
  charge-IsBalanced fails cost now w later (c, inside, same, state) = elim (Bool-cases fails) [
    | inl lost ↦ rw (inside, lost) (_, refl, same, inl refl)
    | inr kept ↦
        rw (inside, kept)
          (
            _,
            refl,
            same,
            elim state [
              | inl stopped ↦ inl stopped
              | inr (total, sum) ↦ inr (
                cost,
                rw total (ap some (ground arith)),
                rw same (
                    ground (
                      arith,
                      sum,
                      eq_refl id,
                      sum_since-record_cost id id cost now month w.db later,
                    )),
              )
            ],
          )
  ]

  book-IsBalanced :
      (m : Model) (fails : Bool) (now : ℕ) (usage : Option Usage) (w : World)
      → month ≤ now
      → IsUnspent id month spent held w
      → IsBalanced id month spent held (book m fails now usage w)
  unfolding book
  book-IsBalanced m fails now none w later balanced = idle-IsBalanced w balanced
  book-IsBalanced m fails now (some usage) w later balanced =
      charge-IsBalanced fails (calculate_cost m usage) now w later balanced

  module _ {Input : Type 0} (opts : CallOptions) (replies : ℕ → Reply Input) where
    settle_attempt-IsBalanced :
        (attempt : ℕ) (response : Response Input) (fails : Bool) (now : ℕ)
        (again : CallResult Input × World) (w : World)
        → month ≤ now
        → IsUnspent id month spent held w
        → IsBalanced id month spent held again.1
        → IsBalanced id month spent held
            (settle_attempt opts replies attempt response fails now again w).1
    unfolding settle_attempt
    settle_attempt-IsBalanced attempt (answered blocks usage) fails now again w later balanced
          rest =
        account-IsBalanced opts none (price_of opts.model usage) (book opts.model fails now usage w)
          (book-IsBalanced opts.model fails now usage w later balanced)
    settle_attempt-IsBalanced attempt (threw err) fails now again w later balanced rest =
        let idle = idle-IsBalanced w balanced in
        elim (Bool-cases (err.is_error && err.is_abort)) [
          | inl aborted ↦ rw aborted (account-IsBalanced opts (some timed_out) none w idle)
          | inr other ↦ elim (Bool-cases (leb max_retries attempt || not (is_retryable err))) [
            | inl last ↦ rw (other, last) (account-IsBalanced opts (some http_error) none w idle)
            | inr more ↦ rw (other, more) rest
          ]
        ]

    attempt_from-IsBalanced :
        (rounds attempt : ℕ) (w : World)
        → ((n : ℕ) → month ≤ (replies n).now)
        → IsUnspent id month spent held w
        → IsBalanced id month spent held (attempt_from opts replies rounds attempt w).1
    unfolding attempt_from
    attempt_from-IsBalanced zero attempt w later balanced =
        account-IsBalanced opts (some http_error) none w (idle-IsBalanced w balanced)
    attempt_from-IsBalanced (suc rounds) attempt w later balanced =
        let passed = (replies attempt).deadline_passed in
        let broken = (replies attempt).other_write_failed in
        let sent = send-IsUnspent passed broken w balanced in
        elim (Bool-cases (ltb 0 attempt && ledger_write_failed w)) [
          | inl lost ↦
              rw lost (
                account-IsBalanced opts (some spend_unrecorded) none w (idle-IsBalanced w balanced))
          | inr sound ↦ elim (Bool-cases (ltb 0 attempt && is_scan_cancelled w)) [
            | inl over ↦
                rw (sound, over)
                  (account-IsBalanced opts (some scan_cancelled) none w
                    (idle-IsBalanced w balanced))
            | inr going ↦
                rw (sound, going)
                  (settle_attempt-IsBalanced attempt (replies attempt).response
                    (replies attempt).write_fails (replies attempt).now
                    (attempt_from opts replies rounds (attempt + 1) (send passed broken w))
                    (send passed broken w) (later attempt) sent
                    (attempt_from-IsBalanced rounds (attempt + 1) (send passed broken w) later
                      sent))
          ]
        ]

    -- A live call in a scan, if every reply comes in the month that is summed, adds one cost (or nothing) to the scan's
    -- total and that cost, rounded to millionths as the ledger stores it, to its installation's sum, or the scan is
    -- marked as one that has lost a ledger write.
    pub call_claude-IsBalanced :
        (has_client : Bool) (w : World)
        → ((n : ℕ) → month ≤ (replies n).now)
        → IsUnspent id month spent held w
        → IsBalanced id month spent held (call_claude opts replies live has_client w).1
    unfolding call_claude call_live
    call_claude-IsBalanced has_client w later balanced = elim (Bool-cases (ledger_write_failed w)) [
      | inl broken ↦
          rw broken
            (account-IsBalanced opts (some spend_unrecorded) none w (idle-IsBalanced w balanced))
      | inr sound ↦ elim (Bool-cases (is_scan_cancelled w)) [
        | inl over ↦
            rw (sound, over)
              (account-IsBalanced opts (some scan_cancelled) none w (idle-IsBalanced w balanced))
        | inr going ↦ elim (Bool-cases has_client) [
          | inl client ↦ rw (sound, going, client) (attempt_from-IsBalanced 4 0 w later balanced)
          | inr missing ↦
              rw (sound, going, missing)
                (account-IsBalanced opts (some no_api_key) none w (idle-IsBalanced w balanced))
        ]
      ]
    ]
