-- ===== src/Mail/Tests.antt =====
-- Tests of the first-scan mail: two scans of one pull request, interleaved.
use fixor.Prelude.{◌≤◌, ◌≡◌, refl, ◌⊎◌, false, none, some, List, [], ◌∷◌}
use fixor.Mail.{MailRow, sent, MailEnv}
use fixor.Mail.First.{
  maybe_send_first_scan_email, MailEvent, begins, ends, address_set, play_mail, mailed_once,
  is_null,
}

abbrev works : MailEnv
works = record {
  claim_fails = false;
  probe_fails = false;
  rollback_fails = false;
  send_fails = false;
}

abbrev fresh : MailRow
fresh = record { installer_email = some "a@b.c"; sent_at = none }

abbrev nameless : MailRow
nameless = record { installer_email = none; sent_at = none }

-- A scan finds no address; another is refused meanwhile; after the roll-back and the address, one is mailed.
abbrev two_scans : List MailEvent
two_scans =
    begins works 5
    ∷ begins works 6
    ∷ ends works 0
    ∷ address_set (some "a@b.c")
    ∷ begins works 7
    ∷ begins works 8
    ∷ ends works 0
    ∷ ends works 0
    ∷ []

two_scans_test : play_mail record { row = nameless; pending = []; handed = 0 } two_scans ≡ record {
  row = record { installer_email = some "a@b.c"; sent_at = some 7 };
  pending = [];
  handed = 1;
}
unfolding play_mail
two_scans_test = refl

maybe_send_first_scan_email_test :
    maybe_send_first_scan_email works 5 (some fresh)
    ≡ (sent, some record { installer_email = some "a@b.c"; sent_at = some 5 })
unfolding maybe_send_first_scan_email
maybe_send_first_scan_email_test = refl

mailed_once_example :
    let s = play_mail record { row = nameless; pending = []; handed = 0 } two_scans in
    (s.handed ≤ 1) × ((s.handed ≡ 0) ⊎ (is_null s.row.sent_at ≡ false))
mailed_once_example = mailed_once nameless two_scans
