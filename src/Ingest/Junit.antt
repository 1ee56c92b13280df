-- ===== src/Ingest/Junit.antt =====
-- ingest/junit.py: the parser of one result file, one event at a time, and the loop over files.
pub mod Complete
use netflix_flaky_test_triag.Base.{
  ℕ, ◌+◌, ◌-◌, Bool, true, false, not, ◌&&◌, ◌||◌, Option, none, some, List, [], ◌∷◌, ◌++◌, map,
  Text, codes, text_eq, strip, contains, is_empty, take, or_else, leb, ◌==◌, if◌then◌else◌, ◌>>=◌,
}
use netflix_flaky_test_triag.Runtime.{Runtime}
use netflix_flaky_test_triag.Models.Records.{TestCaseResult, ParseWarning}
use netflix_flaky_test_triag.Ingest.Elements.{Element, get, clean, lower_tag}
use netflix_flaky_test_triag.Ingest.Cases.{SuiteFrame, build_case}

pub record JunitParseResult : Type 0 where
  pub cases : List TestCaseResult
  pub warnings : List ParseWarning
  pub files_parsed : ℕ
  pub files_rejected : ℕ

-- `JUnitParseResult.ok`
abbrev pub is_ok : JunitParseResult → Bool
is_ok r = r.files_rejected == 0 && is_empty r.warnings

-- An event of `iterparse`: a start tag, or a whole element.
pub data Event : Type 0 where
  start : Text → List (Text × Text) → Event
  finish : Element → Event

-- How `iterparse` ends: at the end of the document, in a `ParseError` with its text, or in another
-- exception, such as the `LookupError` or `ValueError` for an encoding that it can not read.
pub data Ending : Type 0 where
  reached_end : Ending
  malformed : Text → Ending
  raises_other : Ending

-- What `iterparse` gives: its events, and then its ending.
pub record Stream : Type 0 where
  pub events : List Event
  pub ending : Ending

-- The text of the `ParseError` that is caught, if any; none for an exception that is not.
abbrev pub caught : Ending → Option (Option Text)
caught Ending.reached_end = some none
caught (Ending.malformed detail) = some (some detail)
caught Ending.raises_other = none

-- The variables of `_parse_stream`; the innermost suite comes first.
pub record Scan : Type 0 where
  pub cases : List TestCaseResult
  pub suites : List SuiteFrame
  pub case_depth : ℕ

abbrev pub no_cases : Scan
no_cases = record { cases = []; suites = []; case_depth = 0 }

abbrev pub if_none : Option Text → Option Text → Option Text
if_none none fallback = fallback
if_none (some own) fallback = some own

-- `_with_suite_output`
unfoldable pub with_suite_output : SuiteFrame → TestCaseResult → TestCaseResult
with_suite_output f c = record c {
  stdout = if_none c.stdout f.stdout;
  stderr = if_none c.stderr f.stderr;
}

-- `(suites[-1].cases if suites else cases).extend(found)`
unfoldable pub extend : List TestCaseResult → List SuiteFrame → Scan → Scan
extend found [] s = record s { suites = []; cases = s.cases ++ found }
extend found (f ∷ fs) s = record s { suites = record f { cases = f.cases ++ found } ∷ fs }

-- `emit(suites.pop())`
unfoldable pub emit : SuiteFrame → List SuiteFrame → Scan → Scan
unfolding extend with_suite_output
emit f fs s = extend (map (with_suite_output f) f.cases) fs s

-- The loop `while suites: emit(suites.pop())`, after what the last suite handed on.
unfoldable pub drain_from :
    List TestCaseResult → List SuiteFrame → List TestCaseResult → List TestCaseResult
unfolding with_suite_output
drain_from found [] cases = cases ++ found
drain_from found (f ∷ fs) cases = drain_from (map (with_suite_output f) (f.cases ++ found)) fs cases

unfoldable pub drain : List SuiteFrame → List TestCaseResult → List TestCaseResult
unfolding drain_from with_suite_output
drain [] cases = cases
drain (f ∷ fs) cases = drain_from (map (with_suite_output f) f.cases) fs cases

-- `_attach_suite_output`
unfoldable pub attach_suite_output : Text → Option Text → SuiteFrame → SuiteFrame
attach_suite_output tag text f =
    if text_eq tag (codes "system-out")
    then record f { stdout = clean text }
    else record f { stderr = clean text }

-- A start tag.
unfoldable pub opened : Text → List (Text × Text) → Scan → Scan
opened tag attributes s =
    if text_eq tag (codes "testsuite")
    then record s {
      suites =
          record {
            name = strip (or_else (get (codes "name") attributes) []);
            file = clean (get (codes "file") attributes);
            stdout = none;
            stderr = none;
            cases = [];
          }
          ∷ s.suites;
    }
    else if text_eq tag (codes "testcase")
    then record s { case_depth = s.case_depth + 1 }
    else s

-- The end of a suite, with the stack.
unfoldable pub close_suite : List SuiteFrame → Scan → Scan
unfolding emit
close_suite [] s = s
close_suite (f ∷ fs) s = emit f fs s

-- Captured output outside of the cases, with the stack.
unfoldable pub capture : Text → Option Text → List SuiteFrame → Scan → Scan
unfolding attach_suite_output
capture tag text [] s = s
capture tag text (f ∷ fs) s =
    if s.case_depth == 0 then record s { suites = attach_suite_output tag text f ∷ fs } else s

module _ {F : Type 0} (rt : Runtime F) (origin : Text) where
  -- The end of an element.
  unfoldable pub closed : Text → Element → Scan → Option Scan
  unfolding extend close_suite capture
  closed tag e s =
      if text_eq tag (codes "testcase")
      then (do
        case ← build_case rt e s.suites origin
        some (extend (case ∷ []) s.suites (record s { case_depth = s.case_depth - 1 })))
      else if text_eq tag (codes "testsuite")
      then some (close_suite s.suites s)
      else if text_eq tag (codes "system-out") || text_eq tag (codes "system-err")
      then some (capture tag e.text s.suites s)
      else some s

  -- The body of the loop over the events.
  unfoldable pub on_event : Event → Scan → Option Scan
  unfolding opened closed
  on_event (Event.start tag attributes) s = some (opened (lower_tag rt tag) attributes s)
  on_event (Event.finish e) s = closed (lower_tag rt e.tag) e s

  unfoldable pub scan : List Event → Scan → Option Scan
  unfolding on_event
  scan [] s = some s
  scan (event ∷ events) s = do next ← on_event event s; scan events next

  -- The result after the loop, with the recovered cases.
  unfoldable pub parsed : Option Text → List TestCaseResult → JunitParseResult
  parsed (some detail) cases = record {
    cases = cases;
    warnings =
        record { origin = origin; reason = codes "malformed_xml"; detail = some detail } ∷ [];
    files_parsed = 1;
    files_rejected = 0;
  }
  parsed none cases = record {
    cases = cases;
    warnings =
        if is_empty cases
        then record { origin = origin; reason = codes "no_testcases"; detail = none } ∷ []
        else [];
    files_parsed = 1;
    files_rejected = 0;
  }

  -- `_parse_stream`; none for the `OverflowError` of `_duration_ms` and for the exceptions of
  -- `iterparse` that are no `ParseError`.
  unfoldable pub parse_stream : Stream → Option JunitParseResult
  unfolding scan drain parsed
  parse_stream stream = do
    s ← scan stream.events no_cases
    error ← caught stream.ending
    some (parsed error (drain s.suites s.cases))
