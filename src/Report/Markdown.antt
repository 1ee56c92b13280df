-- ===== src/Report/Markdown.antt =====
-- report/renderers.py: the comment on a pull request.
pub mod Rows
use netflix_flaky_test_triag.Base.{
  ℕ, ◌+◌, ◌-◌, Bool, true, false, not, ◌&&◌, Option, none, some, List, [], ◌∷◌, ◌++◌, map, Text,
  codes, is_empty, take, keep, length, ltb, ◌==◌, decimal, join, if◌then◌else◌,
}
use netflix_flaky_test_triag.Runtime.{Runtime}
use netflix_flaky_test_triag.Models.Records.{Classification, is_abstention, display_name}
use netflix_flaky_test_triag.Detect.Results.{Verdict, SignalEvidence, Detection}
use netflix_flaky_test_triag.Classify.Context.{verdict_value, confidence_value, signal_value}
use netflix_flaky_test_triag.Obs.Prometheus.{cause_value, reason_value}
use netflix_flaky_test_triag.Report.Findings.{verdict_order, lookup, sort_for_report}

abbrev pub comment_marker : Text
comment_marker = codes "<!-- flaketriage:report -->"

abbrev pub has_verdict : {F : Type 0} → Verdict → Detection F → Bool
has_verdict v d = verdict_order d.verdict == verdict_order v

-- The sentences for the numbers of regressions and of flaky tests.
unfoldable pub headline : ℕ → ℕ → List Text
headline regressions flaky =
    (if regressions == 0
      then []
      else (codes "**"
          ++ decimal regressions
          ++ codes
              " failure(s) look like real regressions** introduced by a change, not flakes. These are not eligible for quarantine.")
        ∷ [])
    ++ (if flaky == 0
        then []
        else if regressions == 0
        then (codes "**These "
            ++ decimal flaky
            ++ codes " failure(s) appear unrelated to your change** -- they are known-flaky tests.")
          ∷ []
        else (decimal flaky ++ codes " further failure(s) appear unrelated to your change.") ∷ [])

-- The head of the table, with the column of causes or without.
abbrev pub table_head : Bool → List Text
table_head true =
    codes "| verdict | confidence | flake rate | proposed cause | test |"
    ∷ codes "|---|---|---|---|---|"
    ∷ []
table_head false =
    codes "| verdict | confidence | flake rate | test |" ∷ codes "|---|---|---|---|" ∷ []

abbrev pub signal_line : SignalEvidence → Text
signal_line e = codes "- `" ++ signal_value e.signal ++ codes "`: " ++ e.detail

abbrev pub pivot_lines : Option Text → List Text
pivot_lines none = []
pivot_lines (some sha) =
    if is_empty sha then [] else (codes "- pivots on commit `" ++ take 12 sha ++ codes "`") ∷ []

abbrev pub has_sha : Option Text → Bool
has_sha none = false
has_sha (some sha) = not (is_empty sha)

-- The closing lines, by whether the classifier was run.
abbrev pub closing_line : Bool → Text
closing_line false = codes "_Deterministic detection only; the cause classifier was not run._"
closing_line true =
    codes
      "_Causes are proposed by a model and are advisory. Quarantine decisions are made by deterministic policy._"

-- The findings of the comment.
unfoldable pub markdown_rows : {F : Type 0} → Runtime F → List (Detection F) → List (Detection F)
unfolding sort_for_report
markdown_rows rt detections =
    keep (λ d. not (has_verdict Verdict.healthy d)) (sort_for_report rt detections)

-- `rows[:max_rows]`, the rows of the table and of the evidence.
unfoldable pub shown_rows : {F : Type 0} → ℕ → List (Detection F) → List (Detection F)
shown_rows max_rows rows = take max_rows rows

-- How many findings the comment says are omitted, if any.
unfoldable pub omitted_rows : {F : Type 0} → ℕ → List (Detection F) → ℕ
omitted_rows max_rows rows = length rows - max_rows

-- `percent` is `f"{x:.0%}"`.
module _ {F : Type 0} (rt : Runtime F) (percent : F → Text) where
  -- `_markdown_cause`
  unfoldable pub markdown_cause : Option (Classification F) → Text
  markdown_cause none = codes "-"
  markdown_cause (some c) =
      if is_abstention c
      then codes "UNKNOWN (`" ++ reason_value c.downgrade_reason ++ codes "`)"
      else codes "`" ++ cause_value c.cause ++ codes "` " ++ percent c.confidence

  -- The cells of one row.
  unfoldable pub cells_of : List (ℕ × Classification F) → Detection F → List Text
  unfolding markdown_cause
  cells_of resolved d =
      let name =
        display_name d.identity
        ++ (if d.merged_uncertain then codes " _(merged_uncertain)_" else []) in
      let rate = if d.observations == 0 then codes "-" else percent d.flake_rate in
      verdict_value d.verdict
      ∷ confidence_value d.confidence
      ∷ rate
      ∷ ((if is_empty resolved then [] else markdown_cause (lookup d.identity_id resolved) ∷ [])
          ++ (codes "`" ++ name ++ codes "`") ∷ [])

  unfoldable pub table_row : List (ℕ × Classification F) → Detection F → Text
  unfolding cells_of
  table_row resolved d = codes "| " ++ join (codes " | ") (cells_of resolved d) ++ codes " |"

  -- The lines about a cause, in the evidence of one test.
  unfoldable pub cause_lines : Option (Classification F) → List Text
  cause_lines none = []
  cause_lines (some c) =
      if is_abstention c
      then (codes "- cause `UNKNOWN` (`"
          ++ reason_value c.downgrade_reason
          ++ codes "`); no cause is proposed")
        ∷ []
      else (codes "- proposed cause `"
          ++ cause_value c.cause
          ++ codes "` ("
          ++ percent c.confidence
          ++ codes " model confidence, advisory only): "
          ++ c.reasoning)
        ∷ (map (λ item. codes "  - evidence: " ++ item) c.evidence
            ++ (if is_empty c.suggested_action
                then []
                else (codes "  - suggested: " ++ c.suggested_action) ∷ []))

  unfoldable pub evidence_lines : List (ℕ × Classification F) → Detection F → List Text
  unfolding cause_lines
  evidence_lines resolved d =
      (codes "**`" ++ display_name d.identity ++ codes "`** -- " ++ verdict_value d.verdict)
      ∷ (map signal_line d.signals
          ++ pivot_lines d.regression_sha
          ++ (if is_empty d.signals && not (has_sha d.regression_sha)
              then codes "- no flake signal fired; insufficient history to classify" ∷ []
              else [])
          ++ cause_lines (lookup d.identity_id resolved)
          ++ codes "" ∷ [])

  abbrev pub concat_lines : List (List Text) → List Text
  concat_lines [] = []
  concat_lines (xs ∷ rest) = xs ++ concat_lines rest

  -- The lines of the comment when there is a finding.
  unfoldable pub finding_lines :
      ℕ → Bool → List (ℕ × Classification F) → List (Detection F) → List Text
  unfolding table_row evidence_lines headline shown_rows omitted_rows
  finding_lines max_rows llm_enabled resolved rows =
      let shown = shown_rows max_rows rows in
      let flaky = keep (has_verdict Verdict.flaky) rows in
      let regressions = keep (has_verdict Verdict.regression) rows in
      headline (length regressions) (length flaky)
      ++ codes "" ∷ []
      ++ table_head (not (is_empty resolved))
      ++ map (table_row resolved) shown
      ++ (if ltb max_rows (length rows)
          then codes ""
            ∷ (codes "_"
                ++ decimal (omitted_rows max_rows rows)
                ++ codes " further finding(s) omitted._")
            ∷ []
          else [])
      ++ codes "" ∷ codes "<details>" ∷ codes "<summary>Evidence</summary>" ∷ codes "" ∷ []
      ++ concat_lines (map (evidence_lines resolved) shown)
      ++ closing_line llm_enabled ∷ codes "" ∷ codes "</details>" ∷ codes "" ∷ []

  -- `render_markdown`
  unfoldable pub render_markdown :
      ℕ → Bool → List (ℕ × Classification F) → List (Detection F) → Text
  unfolding finding_lines markdown_rows
  render_markdown max_rows llm_enabled classifications detections =
      let rows = markdown_rows rt detections in
      let opening = comment_marker ∷ codes "### Flaky test triage" ∷ codes "" ∷ [] in
      if is_empty rows
      then join (codes "\n")
          (opening ++ codes "No flakes, regressions or unexplained failures were detected." ∷ [])
        ++ codes "\n"
      else join (codes "\n") (opening ++ finding_lines max_rows llm_enabled classifications rows)
