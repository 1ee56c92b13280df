-- ===== src/Examples/Ingesting.antt =====
-- The theorems on reports, diffs and the writes of the store, at a report with two cases.
use netflix_flaky_test_triag.Base.{
  ℕ, ◌≤◌, ◌≡◌, refl, ◌||◌, true, or_else, false, none, some, List, [], ◌∷◌, Text, codes, All, any,
  length, String, max, decimal, split_lines, starts_with, text_eq, replace, ap,
}
use netflix_flaky_test_triag.Models.Enums.{Outcome, ChangeType}
use netflix_flaky_test_triag.Models.Diff.{LineRange}
use netflix_flaky_test_triag.Models.Records.{RunMetadata, TestCaseResult}
use netflix_flaky_test_triag.Ingest.Ranges.Covered.{covers}
use netflix_flaky_test_triag.Ingest.Hunks.{from_match}
use netflix_flaky_test_triag.Ingest.Diff.{initial, commit_hunk, parse_unified_diff}
use netflix_flaky_test_triag.Ingest.Diff.WellFormed.{
  HasSeparatedRanges, parse_unified_diff-Separated,
}
use netflix_flaky_test_triag.Ingest.Diff.Kept.{headers_read, headers_bad, parse_unified_diff-keeps}
use netflix_flaky_test_triag.Ingest.Diff.Positions.{
  BodyLine, is_changed, new_side, old_side, read_body, read_body-covers,
}
use netflix_flaky_test_triag.Ingest.Elements.{Child, Element, duration_ms, seconds_of}
use netflix_flaky_test_triag.Ingest.Cases.{case_parts, no_parts}
use netflix_flaky_test_triag.Ingest.Cases.Outcomes.{
  first_failure, outcome_of, is_rerun, IsFirst, IsDescribedBy, case_parts-first_failure,
}
use netflix_flaky_test_triag.Ingest.Junit.{JunitParseResult, Event, Ending, Stream, parse_stream}
use netflix_flaky_test_triag.Ingest.Junit.Complete.{names, finished_names, parse_stream_complete}
use netflix_flaky_test_triag.Ingest.Pipeline.{IngestInput, IngestSummary, ingest}
use netflix_flaky_test_triag.Ingest.Pipeline.Steps.{FitsChange}
use netflix_flaky_test_triag.Ingest.Pipeline.Total.{HasIngested, ingest-total}
use netflix_flaky_test_triag.Ingest.Pipeline.Again.{AddsNothing, ingest-twice}
use netflix_flaky_test_triag.Store.Tables.{Database}
use netflix_flaky_test_triag.Store.Writes.{
  fits, fits_duration, fits_ranges, insert_run, upsert_identity,
}
use netflix_flaky_test_triag.Store.Writes.Repeated.{FitsCase, record_run-total}
use netflix_flaky_test_triag.Store.Writes.Keys.{HasKeys, Write, Written, empty_database, tables}
use netflix_flaky_test_triag.Store.Writes.Keys.Steps.{Written-HasKeys}
use netflix_flaky_test_triag.Examples.Sample.{runtime, digit_of, identity_config, login}

abbrev range : ℕ → ℕ → LineRange
range a b = record { start = a; end = b }

abbrev ranges : List LineRange
ranges = range 7 9 ∷ range 1 2 ∷ range 3 4 ∷ []

abbrev patch : Text
patch =
    codes "diff --git a/app.py b/app.py\n--- a/app.py\n+++ b/app.py\n@@ -1,2 +1,3 @@\n x\n+y\n z"

parse_unified_diff-Separated_example :
    All HasSeparatedRanges (parse_unified_diff digit_of (codes "patch") patch).files
parse_unified_diff-Separated_example = parse_unified_diff-Separated digit_of (codes "patch") patch

parse_unified_diff-keeps_example :
    let r = parse_unified_diff digit_of (codes "patch") patch in
    (headers_read (split_lines patch) ≤ length r.files)
    × (headers_bad (split_lines patch) ≤ length r.warnings)
    × (1 ≤ length r.files → length r.warnings ≡ headers_bad (split_lines patch))
parse_unified_diff-keeps_example = parse_unified_diff-keeps digit_of (codes "patch") patch

abbrev body : List BodyLine
body =
    BodyLine.context (codes "x")
    ∷ BodyLine.removed (codes "old")
    ∷ BodyLine.added (codes "new")
    ∷ BodyLine.no_newline (codes " No newline at end of file")
    ∷ []

read_body-covers_example :
    let q =
      read_body digit_of
        (codes "patch")
        body
        (record initial { hunk = some (from_match ((4, some 2), (5, some 2))) }) in
    let f = commit_hunk q.hunk q.current in
    (covers 6 f.new_ranges
      ≡ (covers 6 initial.current.new_ranges || is_changed (max 5 1) (new_side body) 6))
    × (covers 6 f.old_ranges
        ≡ (covers 6 initial.current.old_ranges || is_changed (max 4 1) (old_side body) 6))
unfolding starts_with
read_body-covers_example =
    read_body-covers digit_of (codes "patch") ((4, some 2), (5, some 2)) body initial 6
      (tt, (refl, (refl, (tt, tt)))) refl

abbrev failure : Child
failure = record {
  tag = codes "failure";
  attributes = (codes "message", codes "boom") ∷ [];
  text = some (codes "trace");
}

abbrev children : List Child
children = record { tag = codes "rerunFailure"; attributes = []; text = none } ∷ failure ∷ []

case_parts-first_failure_example :
    let p = case_parts runtime children no_parts in
    (p.outcome ≡ outcome_of runtime (first_failure runtime children))
    × (p.rerun_observed ≡ any (is_rerun runtime) children)
    × ((f : Child) (m : Text) → IsFirst runtime children f m → IsDescribedBy runtime f p)
case_parts-first_failure_example = case_parts-first_failure runtime children

abbrev case_of : String → List Child → Element
case_of name children = record {
  tag = codes "testcase";
  attributes = (codes "name", codes name) ∷ (codes "time", codes "2") ∷ [];
  text = none;
  children = children;
}

-- A document that breaks off after two cases of a suite.
abbrev truncated : Stream
truncated = record {
  events =
      Event.start (codes "testsuite") []
      ∷ Event.start (codes "testcase") []
      ∷ Event.finish (case_of "t_a" [])
      ∷ Event.start (codes "testcase") []
      ∷ Event.finish (case_of "t_b" (failure ∷ []))
      ∷ [];
  ending = Ending.malformed (codes "no element found");
}

parse_stream_complete_example :
    (r : JunitParseResult) × (parse_stream runtime (codes "junit.xml") truncated ≡ some r)
    × (names r.cases ≡ finished_names runtime truncated.events)
unfolding duration_ms seconds_of text_eq replace
parse_stream_complete_example =
    parse_stream_complete runtime (codes "junit.xml") truncated (some (codes "no element found"))
      refl (tt, (tt, ((λ _. (some 2000, refl)), (tt, ((λ _. (some 2000, refl)), tt)))))

abbrev metadata : RunMetadata
metadata = record {
  commit_sha = codes "c1";
  run_id = codes "run";
  attempt = 1;
  branch = none;
  shard_id = none;
  worker_id = none;
  started_at = 5;
}

abbrev case_named : String → TestCaseResult
case_named name = record {
  name = codes name;
  classname = codes "suite";
  suite_path = [];
  file_path = none;
  line = none;
  duration_ms = some 20;
  outcome = Outcome.pass;
  failure_type = none;
  failure_message = none;
  stack_trace = none;
  stdout = none;
  stderr = none;
  rerun_observed = false;
  source_file = none;
}

abbrev input : IngestInput
input = record {
  metadata = metadata;
  parsed = record {
    cases = case_named "t_a" ∷ case_named "t_b" ∷ [];
    warnings = [];
    files_parsed = 1;
    files_rejected = 0;
  };
  diff = some (
      record {
        path = codes "app.py";
        old_path = none;
        change_type = ChangeType.modified;
        binary = false;
        new_ranges = range 2 2 ∷ [];
        old_ranges = [];
      }
      ∷ []);
  extra_warnings = [];
}

abbrev clock : ℕ → Text
clock = decimal

attempt_fits : fits input.metadata.attempt ≡ true
unfolding fits
attempt_fits = refl

cases_fit : All FitsCase input.parsed.cases
unfolding fits fits_duration
cases_fit = (refl, (refl, tt))

lines_fit : All FitsChange (or_else input.diff [])
unfolding fits fits_ranges
lines_fit = (refl, tt)

ingest-total_example :
    (r : Database ℕ × IngestSummary) × (ingest runtime clock identity_config input empty_database
      ≡ some r)
    × HasIngested runtime input r.1.run_pk r.0
ingest-total_example =
    ingest-total runtime clock identity_config input empty_database attempt_fits cases_fit lines_fit

abbrev after : Database ℕ → Database ℕ × IngestSummary
after db = (ingest-total runtime clock identity_config input db attempt_fits cases_fit lines_fit).0

abbrev once : Database ℕ × IngestSummary
once = after empty_database

ingest-twice_example : AddsNothing once.0 once.1.run_pk 2 (after once.0)
ingest-twice_example =
    ingest-twice runtime clock clock identity_config identity_config input input empty_database
      once.0 (after once.0).0 once.1 (after once.0).1 refl refl
      (ingest-total runtime clock identity_config input empty_database attempt_fits cases_fit
        lines_fit).1
      (ingest-total runtime clock identity_config input once.0 attempt_fits cases_fit lines_fit).1

abbrev with_run : Database ℕ
with_run = record empty_database { runs = insert_run runtime (codes "now") metadata [] }

abbrev with_identity : Database ℕ
with_identity = (upsert_identity (codes "now") login with_run).0

Written-HasKeys_example : HasKeys with_identity
Written-HasKeys_example = Written-HasKeys runtime max (
    Written.then_write (Write.identity (codes "now") login)
      (Written.then_write (Write.run (codes "now") metadata) Written.start
        (ap tables (record_run-total runtime (codes "now") metadata empty_database attempt_fits).1))
      refl)
