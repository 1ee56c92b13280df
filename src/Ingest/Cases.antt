-- ===== src/Ingest/Cases.antt =====
-- ingest/junit.py: one test case from its element and the suites around it.
pub mod Outcomes
use netflix_flaky_test_triag.Base.{
  ℕ, Bool, true, false, not, ◌&&◌, ◌||◌, Option, none, some, List, [], ◌∷◌, ◌++◌, map, keep,
  reverse, Text, codes, text_eq, text_in, strip, is_empty, join, or_else, if◌then◌else◌, ◌>>=◌,
}
use netflix_flaky_test_triag.Runtime.{Runtime}
use netflix_flaky_test_triag.Models.Enums.{Outcome, is_pass}
use netflix_flaky_test_triag.Models.Records.{TestCaseResult}
use netflix_flaky_test_triag.Ingest.Elements.{
  Child, Element, get, clean, lower_tag, int_or_none, duration_ms,
}

-- `_SuiteFrame`
pub record SuiteFrame : Type 0 where
  pub name : Text
  pub file : Option Text
  pub stdout : Option Text
  pub stderr : Option Text
  pub cases : List TestCaseResult

-- `_FAILURE_TAGS.get(tag)`
abbrev pub failure_outcome : Text → Option Outcome
failure_outcome tag =
    if text_eq tag (codes "failure")
    then some Outcome.fail
    else if text_eq tag (codes "error")
    then some Outcome.error
    else if text_eq tag (codes "skipped")
    then some Outcome.skip
    else none

-- `_RERUN_TAGS`
abbrev pub rerun_tags : List Text
rerun_tags =
    codes "flakyfailure" ∷ codes "flakyerror" ∷ codes "rerunfailure" ∷ codes "rerunerror" ∷ []

-- The variables of `_build_case`.
pub record CaseParts : Type 0 where
  pub outcome : Outcome
  pub failure_type : Option Text
  pub failure_message : Option Text
  pub stack_trace : Option Text
  pub stdout : Option Text
  pub stderr : Option Text
  pub rerun_observed : Bool

abbrev pub no_parts : CaseParts
no_parts = record {
  outcome = Outcome.pass;
  failure_type = none;
  failure_message = none;
  stack_trace = none;
  stdout = none;
  stderr = none;
  rerun_observed = false;
}

abbrev pub with_failure : Outcome → Child → CaseParts → CaseParts
with_failure outcome c p = record p {
  outcome = outcome;
  failure_type = clean (get (codes "type") c.attributes);
  failure_message = clean (get (codes "message") c.attributes);
  stack_trace = clean c.text;
}

abbrev pub with_rerun : Child → Option Text → CaseParts → CaseParts
with_rerun c none p = record p {
  rerun_observed = true;
  failure_type = clean (get (codes "type") c.attributes);
  failure_message = clean (get (codes "message") c.attributes);
  stack_trace = clean c.text;
}
with_rerun c (some message) p = record p { rerun_observed = true }

-- The branches behind the first one.
unfoldable pub other_child : Text → Child → CaseParts → CaseParts
other_child tag c p =
    if text_in tag rerun_tags
    then with_rerun c p.failure_message p
    else if text_eq tag (codes "system-out")
    then record p { stdout = clean c.text }
    else if text_eq tag (codes "system-err")
    then record p { stderr = clean c.text }
    else p

-- The body of the loop over the children, by what `_FAILURE_TAGS` has for the tag.
unfoldable pub add_child : Text → Option Outcome → Child → CaseParts → CaseParts
unfolding other_child
add_child tag none c p = other_child tag c p
add_child tag (some outcome) c p =
    if is_pass p.outcome then with_failure outcome c p else other_child tag c p

-- `_inherited_file`; the innermost suite comes first.
abbrev pub first_file : List SuiteFrame → Option Text
first_file [] = none
first_file (f ∷ fs) = elim f.file [
  | none ↦ first_file fs
  | some file ↦ if is_empty file then first_file fs else some file
]

abbrev pub file_or : Option Text → Option Text → Option Text
file_or none inherited = inherited
file_or (some file) inherited = some file

module _ {F : Type 0} (rt : Runtime F) where
  -- The loop over the children of a test case.
  unfoldable pub case_parts : List Child → CaseParts → CaseParts
  unfolding add_child
  case_parts [] p = p
  case_parts (c ∷ cs) p =
      let tag = lower_tag rt c.tag in case_parts cs (add_child tag (failure_outcome tag) c p)

  -- `_build_case`, with the innermost suite first; none for the `OverflowError` of `_duration_ms`.
  unfoldable pub build_case : Element → List SuiteFrame → Text → Option TestCaseResult
  unfolding case_parts
  build_case e suites origin = do
    duration ← duration_ms rt (get (codes "time") e.attributes)
    let p = case_parts e.children no_parts
    some (record {
      name = strip (or_else (get (codes "name") e.attributes) []);
      classname = strip (
          or_else (get (codes "classname") e.attributes)
            (or_else (get (codes "class") e.attributes) []));
      suite_path =
          join (codes "/") (keep (λ s. not (is_empty s)) (map (λ f. f.name) (reverse suites)));
      file_path = file_or (clean (get (codes "file") e.attributes)) (first_file suites);
      line = int_or_none rt (get (codes "line") e.attributes);
      duration_ms = duration;
      outcome = p.outcome;
      failure_type = p.failure_type;
      failure_message = p.failure_message;
      stack_trace = p.stack_trace;
      stdout = p.stdout;
      stderr = p.stderr;
      rerun_observed = p.rerun_observed;
      source_file = some origin;
    })
