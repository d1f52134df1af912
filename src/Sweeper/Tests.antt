-- ===== src/Sweeper/Tests.antt =====
-- Tests of the sweep: three unfinished rows, and the theorems at it.
use fixor.Prelude.{ℕ, ◌≤◌, ◌≡◌, refl, false, none, [], ◌∷◌, String, get, put}
use fixor.ScanRun.{Status, running, retrying, Row, empty_outcome}
use fixor.ScanRun.Store.{
  mark_running, mark_retrying, finish, list_unfinished, has_newer_run, marks_running, here, next,
}
use fixor.Sweeper.{Report, sweep, sweep_rows, handle, default_limit, stale_after_ms}
use fixor.Sweeper.Database.{World, Callbacks, db_deps, total, Logged, sweep_accounts}
use fixor.Sweeper.Retries.{IsTame, Unrepeated, unswept, sweeps, rerun_at_most_once}

abbrev on_pull : String → ℕ → ℕ → Status → Row
on_pull repo pull t status = record {
  start = record {
    installation_id = "7";
    delivery_id = none;
    repo_full_name = repo;
    pull_number = pull;
    head_sha = "abc";
    started_at = t;
  };
  status = status;
  error_message = none;
  total_findings = 0;
  findings_by_family = [];
  fixes_generated = 0;
  cost_usd = 0;
  finished_at = none;
}

-- r1 has a later delivery for its pull request, r2 is on its second attempt, r3 never finished.
abbrev left_behind : World
left_behind = record {
  db = record {
    rows =
        ("r1", on_pull "o/r" 1 10 running)
        ∷ ("r2", on_pull "o/r" 2 20 retrying)
        ∷ ("r3", on_pull "o/r" 1 30 running)
        ∷ [];
    installations = "7" ∷ [];
  };
  clock = 900_000;
  reruns = [];
  notices = [];
}

-- A re-run that dies again, and a notice that GitHub refuses.
abbrev unlucky : Callbacks
unlucky = record {
  rerun_db = λ row db. mark_running row.0 db;
  rerun_returns = λ row db. false;
  notice_posted = λ row. false;
  listing_fails = false;
  newer_fails = λ row. false;
  marking_fails = λ id. false;
  finish_fails = λ id. false;
}

unlucky-IsTame : IsTame unlucky
unlucky-IsTame row db = next here (marks_running db row.0)

abbrev swept : Report × World
swept = sweep (db_deps unlucky) stale_after_ms default_limit left_behind

sweep_test :
    (swept.0
      ≡ record { retried = "r3" ∷ []; abandoned = "r2" ∷ []; skipped = []; superseded = "r1" ∷ [] })
    × (swept.1.reruns ≡ "r3" ∷ [])
    × (swept.1.notices ≡ "r2" ∷ [])
unfolding sweep sweep_rows handle list_unfinished has_newer_run mark_retrying finish mark_running
    get put empty_outcome
sweep_test = (refl, refl, refl)

sweep_accounts_example :
    Logged unlucky left_behind (list_unfinished 300_000 20 left_behind.db) swept.0 swept.1
    × (total swept.0 ≤ 20)
sweep_accounts_example = sweep_accounts unlucky stale_after_ms default_limit left_behind

rerun_at_most_once_example :
    Unrepeated (sweep (db_deps unlucky) stale_after_ms default_limit swept.1).1.reruns
rerun_at_most_once_example =
    rerun_at_most_once unlucky left_behind _ unlucky-IsTame refl
      (sweeps stale_after_ms default_limit (sweeps stale_after_ms default_limit unswept))
