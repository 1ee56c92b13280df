-- ===== src/Report/Findings/Order.antt =====
-- report/renderers.py: the order of findings, and that none is lost.
use netflix_flaky_test_triag.Base.{
  ℕ, ◌≤◌, ◌≡◌, true, false, List, sum_of, sum-sort_by, Ascends, Ascends-sort_by, arith, ◌==◌,
  Bool-cases, inl, inr,
}
use netflix_flaky_test_triag.Runtime.{Runtime}
use netflix_flaky_test_triag.Detect.Results.{Detection}
use netflix_flaky_test_triag.Report.Findings.{verdict_order, report_leb, sort_for_report}

-- The place of a finding's verdict.
abbrev pub place : {F : Type 0} → Detection F → ℕ
place d = verdict_order d.verdict

module _ {F : Type 0} (rt : Runtime F) where
  below-report_leb : (a b : Detection F) → report_leb rt a b ≡ true → place a ≤ place b
  unfolding report_leb
  below-report_leb a b h = elim (Bool-cases (place a == place b)) [
    | inl e ↦ ground (arith, e)
    | inr e ↦ ground (arith, e, h)
  ]

  above-report_leb : (a b : Detection F) → report_leb rt a b ≡ false → place b ≤ place a
  unfolding report_leb
  above-report_leb a b h = elim (Bool-cases (place a == place b)) [
    | inl e ↦ ground (arith, e)
    | inr e ↦ ground (arith, e, h)
  ]

  -- Every report lists regressions first, then flaky tests, persistent failures, new failures and
  -- healthy tests, and the findings are those that are given, each as often: every sum over them is
  -- the same.
  pub sort_for_report-Ascends :
      (detections : List (Detection F))
      → Ascends place 0 (sort_for_report rt detections)
        × ((f : Detection F → ℕ) → sum_of f (sort_for_report rt detections) ≡ sum_of f detections)
  unfolding sort_for_report
  sort_for_report-Ascends detections = (
    Ascends-sort_by (report_leb rt) place below-report_leb above-report_leb detections,
    λ f. sum-sort_by (report_leb rt) f detections,
  )
