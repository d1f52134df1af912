-- ===== src/Mail/First.antt =====
-- The first-scan mail, with the calls of several scans interleaved.
use fixor.Prelude.{
  ℕ, zero, suc, ◌+◌, ◌≤◌, ◌≡◌, refl, ◌⊎◌, inl, inr, Bool, true, false, not, ◌&&◌, ◌||◌, Option,
  none, some, List, [], ◌∷◌, ◌++◌, String, arith, if◌then◌else◌, length, get_elem?, length-append,
}
use fixor.Mail.{
  MailRow, MailStatus, no_org, send_failed, MailEnv, Claim, not_claimed, claimed, address,
  claim_row, after_claim, has_address,
}

abbrev pub is_null : Option ℕ → Bool
is_null none = true
is_null (some t) = false

-- The claim and the probe after it; a failing statement is answered with send_failed and changes nothing.
unfoldable pub claim_first : MailEnv → ℕ → MailRow → Claim × MailRow
unfolding claim_row
claim_first env now row =
    if env.claim_fails
    then (not_claimed send_failed, row)
    else if env.probe_fails && not (is_null row.sent_at)
    then (not_claimed send_failed, row)
    else claim_row (is_null row.sent_at) now row

abbrev finish_claim : MailEnv → Claim × MailRow → MailStatus × MailRow
finish_claim env (not_claimed status, row) = (status, row)
finish_claim env (claimed email, row) = after_claim env (address email) row

-- A call that nothing interrupts; an organisation without a row has none to claim.
unfoldable pub maybe_send_first_scan_email :
    MailEnv → ℕ → Option MailRow → MailStatus × Option MailRow
unfolding claim_first after_claim
maybe_send_first_scan_email env now none =
    (if env.claim_fails || env.probe_fails then send_failed else no_org, none)
maybe_send_first_scan_email env now (some row) =
    let (status, row') = finish_claim env (claim_first env now row) in (status, some row')

-- The row, the calls between their claim and their end, and how often a mail was handed to the provider.
pub record MailState : Type 0 where
  pub row : MailRow
  pub pending : List (Option String)
  pub handed : ℕ

-- A call up to its claim; the end of a pending call; a new address from the dashboard.
pub data MailEvent : Type 0 where
  begins : MailEnv → (now : ℕ) → MailEvent
  ends : MailEnv → (call : ℕ) → MailEvent
  address_set : Option String → MailEvent

abbrev pub add_pending : Claim × MailRow → MailState → MailState
add_pending (not_claimed status, row) s = record s { row = row }
add_pending (claimed email, row) s = record s { row = row; pending = s.pending ++ email ∷ [] }

abbrev pub remove_at {ℓ} : {A : Type ℓ} → ℕ → List A → List A
remove_at i [] = []
remove_at zero (x ∷ xs) = xs
remove_at (suc i) (x ∷ xs) = x ∷ remove_at i xs

unfoldable pub end_call : MailEnv → ℕ → Option (Option String) → MailState → MailState
unfolding after_claim
end_call env call none s = s
end_call env call (some email) s = record s {
  row = (after_claim env (address email) s.row).1;
  pending = remove_at call s.pending;
  handed = if has_address (address email) then s.handed + 1 else s.handed;
}

unfoldable pub react_mail : MailState → MailEvent → MailState
unfolding claim_first end_call
react_mail s (begins env now) = add_pending (claim_first env now s.row) s
react_mail s (ends env call) = end_call env call (get_elem? s.pending call) s
react_mail s (address_set email) = record s { row = record s.row { installer_email = email } }

unfoldable pub play_mail : MailState → List MailEvent → MailState
unfolding react_mail
play_mail s [] = s
play_mail s (e ∷ es) = play_mail (react_mail s e) es

-- At most one call has claimed and not lost its claim, and then the column is set.
record IsClaimed (s : MailState) : Type 0 where
  single : s.handed + length s.pending ≤ 1
  stamped : (s.handed + length s.pending ≡ 0) ⊎ (is_null s.row.sent_at ≡ false)

length-remove_at {ℓ} :
    {A : Type ℓ} (i : ℕ) (xs : List A) (x : A)
    → get_elem? xs i ≡ some x
    → length (remove_at i xs) + 1 ≡ length xs
length-remove_at i [] x e = absurd (ground (arith, e))
length-remove_at zero (y ∷ xs) x e = omega arith
length-remove_at (suc i) (y ∷ xs) x e = omega (arith, length-remove_at i xs x e)

row_taken-IsClaimed :
    (free : Bool) (now : ℕ) (s : MailState)
    → is_null s.row.sent_at ≡ free
    → IsClaimed s
    → IsClaimed (add_pending (claim_row free now s.row) s)
unfolding claim_row
row_taken-IsClaimed false now s e ok = record { single = ok.single; stamped = ok.stamped }
row_taken-IsClaimed true now s e ok = record {
  single = omega (arith, none_yet, length-append s.pending (s.row.installer_email ∷ []));
  stamped = inr refl;
}
  where
    none_yet : s.handed + length s.pending ≡ 0
    none_yet = elim ok.stamped [ inl z ↦ z | inr set ↦ absurd (ground (arith, e, set)) ]

add_pending-IsClaimed :
    (env : MailEnv) (now : ℕ) (s : MailState)
    → IsClaimed s
    → IsClaimed (add_pending (claim_first env now s.row) s)
unfolding claim_first
add_pending-IsClaimed env now s ok =
    by_test env.claim_fails (env.probe_fails && not (is_null s.row.sent_at))
  where
    refused : Claim × MailRow
    refused = (not_claimed send_failed, s.row)

    gated : Bool → Bool → Claim × MailRow
    gated a b =
        if a then refused else if b then refused else claim_row (is_null s.row.sent_at) now s.row

    by_test : (a b : Bool) → IsClaimed (add_pending (gated a b) s)
    by_test true b = ok
    by_test false true = ok
    by_test false false = row_taken-IsClaimed (is_null s.row.sent_at) now s refl ok

end_call-IsClaimed :
    (env : MailEnv) (call : ℕ) (s : MailState) (found : Option (Option String))
    → get_elem? s.pending call ≡ found
    → IsClaimed s
    → IsClaimed (end_call env call found s)
unfolding end_call after_claim
end_call-IsClaimed env call s none e ok = ok
end_call-IsClaimed env call s (some email) e ok = by_address (address email)
  where
    fewer : length (remove_at call s.pending) + 1 ≡ length s.pending
    fewer = length-remove_at call s.pending email e

    kept_set : is_null s.row.sent_at ≡ false
    kept_set = elim ok.stamped [ inl z ↦ absurd (omega (arith, fewer, z)) | inr set ↦ set ]

    by_address :
        (to : Option String)
        → IsClaimed record s {
          row = (after_claim env to s.row).1;
          pending = remove_at call s.pending;
          handed = if has_address to then s.handed + 1 else s.handed;
        }
    by_address none = record {
      single = omega (arith, fewer, ok.single);
      stamped = inl (omega (arith, fewer, ok.single));
    }
    by_address (some to) = record {
      single = omega (arith, fewer, ok.single);
      stamped = inr kept_set;
    }

react_mail-IsClaimed : (s : MailState) (e : MailEvent) → IsClaimed s → IsClaimed (react_mail s e)
unfolding react_mail
react_mail-IsClaimed s (begins env now) ok = add_pending-IsClaimed env now s ok
react_mail-IsClaimed s (ends env call) ok =
    end_call-IsClaimed env call s (get_elem? s.pending call) refl ok
react_mail-IsClaimed s (address_set email) ok = record { single = ok.single; stamped = ok.stamped }

play_mail-IsClaimed :
    (es : List MailEvent) (s : MailState) → IsClaimed s → IsClaimed (play_mail s es)
unfolding play_mail
play_mail-IsClaimed [] s ok = ok
play_mail-IsClaimed (e ∷ es) s ok =
    play_mail-IsClaimed es (react_mail s e) (react_mail-IsClaimed s e ok)

-- Whatever the interleaving of calls, address changes and failures, from a row without a mail under way at most one
-- mail is handed to the provider; and once one has been, the column is set, so that later calls claim nothing.
pub mailed_once :
    (row : MailRow) (es : List MailEvent)
    → let s = play_mail record { row = row; pending = []; handed = 0 } es in
      (s.handed ≤ 1) × ((s.handed ≡ 0) ⊎ (is_null s.row.sent_at ≡ false))
mailed_once row es = (
  omega (arith, ok.single),
  elim ok.stamped [ inl z ↦ inl (omega (arith, z)) | inr set ↦ inr set ],
)
  where
    ok : IsClaimed (play_mail record { row = row; pending = []; handed = 0 } es)
    ok =
        play_mail-IsClaimed es record { row = row; pending = []; handed = 0 }
          record { single = omega arith; stamped = inl refl }

abbrev fresh_state : MailRow → ℕ → MailState
fresh_state row n = record { row = row; pending = []; handed = n }

-- A call that nothing interrupts is its claim and then its end.
pub maybe_send_first_scan_email_lem :
    (env : MailEnv) (now : ℕ) (row : MailRow) (n : ℕ)
    → some (play_mail (fresh_state row n) (begins env now ∷ ends env 0 ∷ [])).row
      ≡ (maybe_send_first_scan_email env now (some row)).1
unfolding play_mail react_mail maybe_send_first_scan_email end_call
maybe_send_first_scan_email_lem env now row n = both (claim_first env now row)
  where
    answer : Claim × MailRow → MailState
    answer c = add_pending c (fresh_state row n)

    both :
        (c : Claim × MailRow)
        → some (end_call env 0 (get_elem? (answer c).pending 0) (answer c)).row
          ≡ some (finish_claim env c).1
    both (not_claimed status, row') = refl
    both (claimed email, row') = refl
