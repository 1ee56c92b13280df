-- ===== src/Detect/Signals.antt =====
-- detect/detector.py: the four signals and the regression check over one history.
pub mod Transition
pub mod Streaks
use netflix_flaky_test_triag.Base.{
  ℕ, zero, suc, ◌+◌, ◌-◌, ◌*◌, Bool, true, false, ◌&&◌, ◌||◌, not, Option, none, some, List, [],
  ◌∷◌, ◌++◌, map, reverse, Text, codes, text_eq, is_empty, any, keep, length, take, get_elem?,
  last?, sum_of, ltb, leb, decimal, join, if◌then◌else◌,
}
use netflix_flaky_test_triag.Runtime.{Runtime}
use netflix_flaky_test_triag.Config.{DetectConfig}
use netflix_flaky_test_triag.Detect.Window.{
  ShaWindow, WindowStatus, status, is_diverged, has_failure, diverged_across_attempts,
  observations as window_observations,
}
use netflix_flaky_test_triag.Detect.History.{History, observations, latest, retry_data_available}
use netflix_flaky_test_triag.Detect.Rates.{data_windows, is_diverged_status, flake_rate}
use netflix_flaky_test_triag.Detect.Footprint.{diff_touches_footprint}
use netflix_flaky_test_triag.Detect.Results.{FlakeSignal, SignalEvidence, Confidence}

-- `[:12]` of the last window's commit.
last_sha : List ShaWindow → Text
last_sha ws = elim (last? ws) [ none ↦ [] | some w ↦ take 12 w.commit_sha ]

unfoldable pub same_sha_evidence : List ShaWindow → SignalEvidence
unfolding last_sha
same_sha_evidence diverged = record {
  signal = FlakeSignal.same_sha_divergence;
  detail =
      decimal (length diverged)
      ++ codes " commit(s) produced both a pass and a failure; most recent: "
      ++ last_sha diverged;
  observations = sum_of window_observations diverged;
}

unfoldable pub cross_attempt_evidence : List ShaWindow → SignalEvidence
unfolding last_sha
cross_attempt_evidence across =
    let attempts : List Text = elim (last? across) [
      | none ↦ []
      | some w ↦ map decimal w.attempts
    ] in
    record {
      signal = FlakeSignal.cross_attempt_divergence;
      detail =
          codes "outcome differed between attempts at "
          ++ last_sha across
          ++ codes " (attempts "
          ++ join (codes ", ") attempts
          ++ codes ")";
      observations = sum_of window_observations across;
    }

-- `find_same_sha_divergence`
unfoldable pub find_same_sha_divergence : History → List SignalEvidence
unfolding same_sha_evidence cross_attempt_evidence
find_same_sha_divergence h =
    let diverged = keep is_diverged h.windows in
    let across = keep diverged_across_attempts diverged in
    if is_empty diverged
    then []
    else same_sha_evidence diverged
      ∷ (if is_empty across then [] else cross_attempt_evidence across ∷ [])

pub record RegressionFinding : Type 0 where
  pub pivot_sha : Text
  pub pass_streak : ℕ
  pub fail_streak : ℕ

abbrev pub is_failed : WindowStatus → Bool
is_failed WindowStatus.failed = true
is_failed _ = false

abbrev pub is_passed : WindowStatus → Bool
is_passed WindowStatus.passed = true
is_passed _ = false

-- The loop that counts windows of a status and stops at the first other one.
unfoldable pub streak : (WindowStatus → Bool) → List ShaWindow → ℕ
streak wanted [] = 0
streak wanted (w ∷ ws) = let rest = suc (streak wanted ws) in if wanted (status w) then rest else 0

regression_at : List ShaWindow → ℕ → ℕ → Option RegressionFinding
regression_at windows trailing leading = elim (get_elem? windows (length windows - trailing)) [
  | none ↦ none
  | some pivot ↦
      some (record { pivot_sha = pivot.commit_sha; pass_streak = leading; fail_streak = trailing })
]

module _ {F : Type 0} (config : DetectConfig F) where
  -- `find_regression`, on the windows that produced data.
  unfoldable pub regression_in : List ShaWindow → Option RegressionFinding
  unfolding streak regression_at
  regression_in windows =
      let trailing = streak is_failed (reverse windows) in
      let preceding = take (length windows - trailing) windows in
      let leading = streak is_passed (reverse preceding) in
      if any (λ w. is_diverged_status (status w)) windows
      then none
      else if ltb trailing config.regression_fail_streak
      then none
      else if ltb leading config.regression_pass_streak
      then none
      else regression_at windows trailing leading

  -- `find_regression`
  unfoldable pub find_regression : History → Option RegressionFinding
  unfolding regression_in data_windows
  find_regression h = regression_in (data_windows h)

  -- `window.branch == settings.main_branch and window.status is PASSED`
  passed_on_main : ShaWindow → Bool
  passed_on_main w = text_eq w.branch config.main_branch && is_passed (status w)

  unfoldable pub branch_evidence : ShaWindow → List Text → List ShaWindow → SignalEvidence
  branch_evidence w test_footprint on_main = record {
    signal = FlakeSignal.branch_independent;
    detail =
        codes "fails on "
        ++ w.branch
        ++ codes " whose diff touches none of "
        ++ decimal (length test_footprint)
        ++ codes " file(s) this test exercises, and passes on "
        ++ config.main_branch;
    observations = length on_main;
  }

  unfoldable pub branch_signal : History → List Text → List Text → ShaWindow → Option SignalEvidence
  unfolding branch_evidence passed_on_main
  branch_signal h diff_paths test_footprint w =
      let on_main = keep passed_on_main h.windows in
      if not (has_failure w)
        || text_eq w.branch config.main_branch
        || is_empty w.branch
        || is_empty diff_paths
        || is_empty test_footprint
        || diff_touches_footprint diff_paths test_footprint
        || is_empty on_main
      then none
      else some (branch_evidence w test_footprint on_main)

  -- `find_branch_independent`
  unfoldable pub find_branch_independent : History → List Text → List Text → Option SignalEvidence
  unfolding branch_signal
  find_branch_independent h diff_paths test_footprint = elim (latest h) [
    | none ↦ none
    | some w ↦ branch_signal h diff_paths test_footprint w
  ]

module _ {F : Type 0} (rt : Runtime F) (config : DetectConfig F) where
  instability_evidence : History → SignalEvidence
  instability_evidence h =
      let basis =
        if retry_data_available h
        then codes "same-commit divergence"
        else codes "outcome flips between commits (no retry data in this pipeline)" in
      record {
        signal = FlakeSignal.historical_instability;
        detail =
            codes "flake rate "
            ++ rt.percent (flake_rate rt config h)
            ++ codes " over "
            ++ decimal (observations h)
            ++ codes " observations exceeds "
            ++ rt.percent config.flake_rate_threshold
            ++ codes ", measured from "
            ++ basis;
        observations = observations h;
      }

  -- `find_historical_instability`
  unfoldable pub find_historical_instability : History → Option SignalEvidence
  unfolding instability_evidence
  find_historical_instability h =
      if ltb (observations h) config.min_observations
        || rt.le (flake_rate rt config h) config.flake_rate_threshold
      then none
      else some (instability_evidence h)
