-- ===== src/Classify/Context.antt =====
-- classify/prompt.py: the text that a model is given about one test.
use netflix_flaky_test_triag.Base.{
  ℕ, ◌+◌, ◌-◌, suc, Bool, true, false, ◌&&◌, ◌||◌, not, Option, none, some, List, [], ◌∷◌, ◌++◌,
  map, Text, codes, is_empty, if◌then◌else◌, strip, length, ltb, leb, ◌==◌, split_lines, join,
  text_in, decimal,
}
use netflix_flaky_test_triag.Runtime.{Runtime}
use netflix_flaky_test_triag.Models.Enums.{Outcome, ChangeType}
use netflix_flaky_test_triag.Models.Records.{display_name}
use netflix_flaky_test_triag.Models.Diff.{LineRange, FileChange, change_for}
use netflix_flaky_test_triag.Detect.Footprint.{is_noise_line, extract_paths}
use netflix_flaky_test_triag.Detect.Results.{
  FlakeSignal, Verdict, Confidence, SignalEvidence, Detection,
}
pub mod Budget
pub mod Message

-- The marker between the head of a trace and the frames kept from the rest.
abbrev pub omitted : Text
omitted = codes "    ... framework frames omitted ..."

-- The first loop of `truncate_trace`: the lines that fit, and those from the first that does not.
unfoldable pub head_lines : ℕ → ℕ → List Text → List Text × List Text
head_lines budget used [] = ([], [])
head_lines budget used (line ∷ lines) =
    let rest = head_lines budget (used + length line + 1) lines in
    if ltb budget (used + length line + 1) then ([], line ∷ lines) else (line ∷ rest.0, rest.1)

-- What lines take when joined, each with its line feed.
abbrev pub size_of : List Text → ℕ
size_of [] = 0
size_of (line ∷ lines) = length line + 1 + size_of lines

-- `str(value)` of the enumerations.
abbrev pub outcome_value : Outcome → Text
outcome_value Outcome.pass = codes "pass"
outcome_value Outcome.fail = codes "fail"
outcome_value Outcome.error = codes "error"
outcome_value Outcome.skip = codes "skip"

abbrev pub verdict_value : Verdict → Text
verdict_value Verdict.flaky = codes "flaky"
verdict_value Verdict.regression = codes "regression"
verdict_value Verdict.new_failure = codes "new_failure"
verdict_value Verdict.persistent_failure = codes "persistent_failure"
verdict_value Verdict.healthy = codes "healthy"

abbrev pub confidence_value : Confidence → Text
confidence_value Confidence.high = codes "high"
confidence_value Confidence.medium = codes "medium"
confidence_value Confidence.low = codes "low"

abbrev pub signal_value : FlakeSignal → Text
signal_value FlakeSignal.same_sha_divergence = codes "same_sha_divergence"
signal_value FlakeSignal.cross_attempt_divergence = codes "cross_attempt_divergence"
signal_value FlakeSignal.branch_independent = codes "branch_independent_intermittency"
signal_value FlakeSignal.historical_instability = codes "historical_instability"

abbrev pub change_value : ChangeType → Text
change_value ChangeType.added = codes "added"
change_value ChangeType.modified = codes "modified"
change_value ChangeType.deleted = codes "deleted"
change_value ChangeType.renamed = codes "renamed"

unfoldable pub range_text : LineRange → Text
range_text r = decimal r.start ++ codes "-" ++ decimal r.end

-- The line of `relevant_diff` for a change.
unfoldable pub entry_of : FileChange → Text
entry_of change =
    let ranges = join (codes ", ") (map range_text change.new_ranges) in
    let entry =
      codes "- " ++ change.path ++ codes " (" ++ change_value change.change_type ++ codes ")" in
    if is_empty ranges then entry else entry ++ codes " changed lines " ++ ranges

abbrev add_entry : Text → List Text → List Text
add_entry entry lines = if text_in entry lines then lines else lines ++ entry ∷ []

-- The loop of `relevant_diff` over the footprint.
unfoldable pub diff_lines : List FileChange → List Text → List Text → List Text
diff_lines files lines [] = lines
diff_lines files lines (path ∷ paths) =
    diff_lines files
      (elim (change_for files path) [
        | none ↦ lines
        | some change ↦ add_entry (entry_of change) lines
      ])
      paths

-- `relevant_diff`
unfoldable pub relevant_diff : Option (List FileChange) → List Text → Text
relevant_diff none footprint = []
relevant_diff (some files) footprint =
    let lines = diff_lines files [] footprint in
    if is_empty footprint
    then []
    else if is_empty lines
    then codes "The change under test touches none of the files this test's failure mentions."
    else join (codes "\n") lines

-- `_outcome_line`
unfoldable pub outcome_line : {F : Type 0} → Detection F → Text
outcome_line d = codes "Most recent outcome: " ++ elim d.latest_outcome [
  | none ↦ codes "unknown"
  | some Outcome.fail ↦
      codes "assertion failure (the framework ran the test and the check did not hold)"
  | some Outcome.error ↦ codes "harness error (the test did not complete normally)"
  | some outcome ↦ outcome_value outcome
]

unfoldable pub evidence_line : SignalEvidence → Text
evidence_line e = codes "- " ++ signal_value e.signal ++ codes ": " ++ e.detail

-- `signals_summary`
unfoldable pub signals_summary : {F : Type 0} → Detection F → Text
signals_summary d =
    if is_empty d.signals
    then codes "- none fired; this test was selected on its failure alone"
    else join (codes "\n") (map evidence_line d.signals)

-- A line of a list where a text is given and not empty.
abbrev pub labelled : Text → Option Text → List Text
labelled label none = []
labelled label (some text) = if is_empty text then [] else (label ++ text) ∷ []

module _ {F : Type 0} (rt : Runtime F) where
  -- `_looks_like_project_line`
  unfoldable pub looks_like_project_line : Text → Bool
  looks_like_project_line line = not (is_empty (extract_paths rt true (some line)))

  -- The second loop of `truncate_trace`.
  unfoldable pub tail_lines : ℕ → List Text → List Text
  tail_lines remaining [] = []
  tail_lines remaining (line ∷ lines) =
      let skipped = tail_lines remaining lines in
      let kept = tail_lines (remaining - (length line + 1)) lines in
      if is_noise_line rt line || not (looks_like_project_line line)
      then skipped
      else if ltb remaining (length line + 1)
      then []
      else line ∷ kept

  -- `int(budget * _HEAD_FRACTION)`, float arithmetic cut to an integer.
  module _ (head_budget : ℕ → ℕ) where
    unfoldable pub cut_trace : Text → ℕ → Text
    cut_trace text budget =
        let split = head_lines (head_budget budget) 0 (split_lines text) in
        let tail = tail_lines (budget - size_of split.0) split.1 in
        join (codes "\n") (if is_empty tail then split.0 else split.0 ++ omitted ∷ tail)

    -- `truncate_trace`
    unfoldable pub truncate_trace : Option Text → ℕ → Text
    truncate_trace none budget = []
    truncate_trace (some trace) budget =
        let text = strip trace in if leb (length text) budget then text else cut_trace text budget

    -- `_failure_block`
    unfoldable pub failure_block : Detection F → ℕ → Text
    failure_block d budget =
        let trace = truncate_trace d.stack_trace budget in
        let lines =
          labelled (codes "Type: ") d.failure_type
          ++ labelled (codes "Message: ") d.failure_message
          ++ (if is_empty trace
              then []
              else (codes "Trace:\n```\n" ++ trace ++ codes "\n```") ∷ []) in
        if is_empty lines
        then codes "No failure message or trace was captured for this failure."
        else join (codes "\n") lines
