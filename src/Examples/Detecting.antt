-- ===== src/Examples/Detecting.antt =====
-- The detector's theorems on short histories.
use netflix_flaky_test_triag.Base.{
  ℕ, ◌≤◌, ◌≡◌, refl, false, ◌&&◌, not, none, some, List, [], ◌∷◌, Text, codes, any, All, count_of,
  keep, length, leb, arith,
}
use netflix_flaky_test_triag.Models.Enums.{Outcome, ChangeType}
use netflix_flaky_test_triag.Models.Diff.{FileChange}
use netflix_flaky_test_triag.Detect.Window.{ShaWindow, sha_window, is_diverged, status}
use netflix_flaky_test_triag.Detect.History.{History, build_history, observations}
use netflix_flaky_test_triag.Detect.History.Totals.{
  infra, counts, build_history_totals, windows-keep,
}
use netflix_flaky_test_triag.Detect.History.Separation.{
  windows_at, WindowBelongs, build_history-windows,
}
use netflix_flaky_test_triag.Detect.Rates.{divergence_rate, intermittency_rate, flake_rate}
use netflix_flaky_test_triag.Detect.Rates.Bounds.{InUnit, rates-InUnit}
use netflix_flaky_test_triag.Detect.Results.{Verdict}
use netflix_flaky_test_triag.Detect.Signals.{RegressionFinding, regression_in, find_regression}
use netflix_flaky_test_triag.Detect.Signals.Transition.{
  IsTransition, regression_in-IsTransition, regression_in_complete,
}
use netflix_flaky_test_triag.Detect.Detector.{detect_for_history, latest_fails}
use netflix_flaky_test_triag.Detect.Detector.Precedence.{
  is_present, verdict_by_precedence, weak_signal, verdict-verdict_by_precedence,
}
use netflix_flaky_test_triag.Detect.Detector.Healthy.{clean_healthy}
use netflix_flaky_test_triag.Examples.Sample.{
  runtime, ordered, detect_config, execution, torn, login,
}

abbrev files : List FileChange
files =
    record {
      path = codes "src/app.py";
      change_type = ChangeType.modified;
      old_path = none;
      binary = false;
      new_ranges = [];
      old_ranges = [];
    }
    ∷ []

abbrev torn_window : ShaWindow
torn_window =
    sha_window (codes "a") (execution 1 Outcome.fail (codes "a") 1)
      (execution 2 Outcome.pass (codes "a") 2 ∷ [])

build_history_totals_example :
    let h = build_history runtime detect_config torn in
    (observations h ≡ count_of (λ r. not (infra runtime detect_config r) && counts r) torn)
    × (h.infra_excluded ≡ count_of (infra runtime detect_config) torn)
    × (h.skipped ≡ count_of (λ r. not (infra runtime detect_config r) && not (counts r)) torn)
build_history_totals_example = build_history_totals runtime detect_config torn

windows-keep_example :
    (build_history runtime detect_config torn).windows
    ≡ (build_history runtime detect_config
        (keep (λ r. not (infra runtime detect_config r)) torn)).windows
windows-keep_example = windows-keep runtime detect_config torn

build_history-windows_example :
    let ws = (build_history runtime detect_config torn).windows in
    ((sha : Text) → windows_at sha ws ≤ 1) × All (WindowBelongs runtime detect_config) ws
build_history-windows_example = build_history-windows runtime detect_config torn

abbrev torn_history : History
torn_history = record { windows = torn_window ∷ []; infra_excluded = 0; skipped = 1 }

rates-InUnit_example :
    InUnit runtime ordered (divergence_rate runtime detect_config torn_history)
    × InUnit runtime ordered (intermittency_rate runtime detect_config torn_history)
    × InUnit runtime ordered (flake_rate runtime detect_config torn_history)
rates-InUnit_example = rates-InUnit runtime ordered detect_config torn_history (refl, refl)

abbrev passing_window : ShaWindow
passing_window = sha_window (codes "a") (execution 1 Outcome.pass (codes "a") 1) []

abbrev failing_window : ShaWindow
failing_window = sha_window (codes "b") (execution 2 Outcome.fail (codes "b") 1) []

abbrev found : RegressionFinding
found = record { pivot_sha = codes "b"; pass_streak = 1; fail_streak = 1 }

abbrev broken_windows : List ShaWindow
broken_windows = passing_window ∷ failing_window ∷ []

regression_in-IsTransition_example : IsTransition detect_config broken_windows found
unfolding regression_in sha_window status
regression_in-IsTransition_example =
    regression_in-IsTransition detect_config broken_windows found (omega arith) refl

regression_in_complete_example :
    (n : ℕ) × (1 ≤ n)
    × (regression_in detect_config broken_windows
        ≡ some (record { pivot_sha = failing_window.commit_sha; pass_streak = n; fail_streak = 1 }))
unfolding sha_window status
regression_in_complete_example =
    regression_in_complete detect_config [] (passing_window ∷ []) failing_window [] (refl, tt)
      (refl, tt) refl (omega arith) (omega arith) (omega arith)

abbrev broken_history : History
broken_history = record { windows = broken_windows; infra_excluded = 0; skipped = 0 }

verdict-verdict_by_precedence_example :
    (detect_for_history runtime detect_config login 1 broken_history [] false).verdict
    ≡ verdict_by_precedence
        (any is_diverged broken_history.windows)
        (is_present (find_regression detect_config broken_history))
        (latest_fails broken_history)
        (weak_signal runtime detect_config login broken_history [])
        (leb (length broken_history.windows) 1)
verdict-verdict_by_precedence_example =
    verdict-verdict_by_precedence runtime detect_config login 1 broken_history [] false

abbrev calm_history : History
calm_history = record { windows = passing_window ∷ []; infra_excluded = 0; skipped = 0 }

clean_healthy_example :
    (detect_for_history runtime detect_config login 1 calm_history [] false).verdict
    ≡ Verdict.healthy
unfolding sha_window
clean_healthy_example =
    clean_healthy runtime detect_config login 1 calm_history [] false (omega arith)
      ((refl, refl), tt)
