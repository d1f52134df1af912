-- ===== src/ScanRun/Tests.antt =====
-- Tests of the scan_runs rows, and the theorems at concrete tables.
use fixor.Prelude.{ℕ, ◌≡◌, refl, true, none, some, [], ◌∷◌, String, get, put}
use fixor.ScanRun.{Status, Code, Start, Row, empty_outcome}
use fixor.ScanRun.Store.{
  Db, duplicate_delivery, pending_row, create_pending, closed_row, finish, list_unfinished,
  has_newer_run, creates, Steps, here, next,
}
use fixor.ScanRun.Verdict.{WorkflowResult, success}
use fixor.ScanRun.Store.Lifecycle.{Follows, Steps-Follows}
use fixor.ScanRun.Store.Deliveries.{empty, delivery_unique}

abbrev push_to : String → ℕ → Start
push_to delivery t = record {
  installation_id = "7";
  delivery_id = some delivery;
  repo_full_name = "o/r";
  pull_number = 3;
  head_sha = "abc";
  started_at = t;
}

abbrev one_row : Db
one_row = (create_pending "r1" (push_to "d1" 10) empty).0

one_row-Steps : Steps empty one_row
unfolding get
one_row-Steps = next here (creates empty "r1" (push_to "d1" 10) refl)

abbrev two_rows : Db
two_rows = (create_pending "r2" (push_to "d2" 20) one_row).0

two_rows-Steps : Steps empty two_rows
unfolding get create_pending put
two_rows-Steps = next one_row-Steps (creates one_row "r2" (push_to "d2" 20) refl)

abbrev first_row : Row
first_row = pending_row (push_to "d1" 10)

redelivered : (create_pending "r3" (push_to "d1" 30) two_rows).1 ≡ duplicate_delivery
unfolding create_pending get put
redelivered = refl

listed : list_unfinished 15 20 two_rows ≡ ("r1", first_row) ∷ []
unfolding list_unfinished create_pending get put
listed = refl

superseded_by : has_newer_run first_row two_rows ≡ true
unfolding has_newer_run create_pending get put
superseded_by = refl

Steps-Follows_example : (r' : Row) × (get "r1" two_rows.rows ≡ some r') × Follows first_row r'
unfolding create_pending get put
Steps-Follows_example =
    Steps-Follows "r1" first_row (next here (creates one_row "r2" (push_to "d2" 20) refl)) refl

delivery_unique_example : ◌≡◌ {A = String} "r1" "r1"
unfolding create_pending get put
delivery_unique_example =
    delivery_unique "r1" "r1" first_row first_row two_rows-Steps refl refl refl

abbrev closed : Db
closed = finish "r1" (empty_outcome Status.failed (some Code.timed_out)) 99 one_row

abbrev closed_first : Row
closed_first = closed_row (empty_outcome Status.failed (some Code.timed_out)) 99 first_row

abbrev clean_scan : WorkflowResult
clean_scan = record {
  status = success;
  total_findings = 2;
  findings_by_detector = none;
  fixes_generated = 1;
  coverage_failed = some 0;
  detector_failures = none;
}
