-- ===== src/Detect/Detector/Healthy.antt =====
-- `detect_for_history` of detect/detector.py on histories without failures.
use netflix_flaky_test_triag.Base.{
  ℕ, ◌<◌, ◌≡◌, refl, Bool, false, not, none, List, [], ◌∷◌, Text, any, keep, reverse, All, arith,
  Bool-cases, inl, inr,
}
use netflix_flaky_test_triag.Runtime.{Runtime}
use netflix_flaky_test_triag.Config.{DetectConfig}
use netflix_flaky_test_triag.Models.Records.{TestIdentity}
use netflix_flaky_test_triag.Detect.Window.{ShaWindow, has_failure, is_diverged, status}
use netflix_flaky_test_triag.Detect.History.{History}
use netflix_flaky_test_triag.Detect.Rates.{data_windows, is_no_data}
use netflix_flaky_test_triag.Detect.Results.{Verdict}
use netflix_flaky_test_triag.Detect.Signals.{streak, is_failed, find_regression, regression_in}
use netflix_flaky_test_triag.Detect.Signals.Streaks.{All-reverse}
use netflix_flaky_test_triag.Detect.Detector.{detect_for_history, latest_fails}
use netflix_flaky_test_triag.Detect.Detector.Precedence.{verdict-verdict_by_precedence}

-- No failure was observed in the window, by an outcome or by the runner.
abbrev pub IsClean : ShaWindow → Type 0
IsClean w = (has_failure w ≡ false) × (w.rerun_observed ≡ false)

abbrev NotFailed : ShaWindow → Type 0
NotFailed w = is_failed (status w) ≡ false

status-NotFailed : (w : ShaWindow) → IsClean w → NotFailed w
unfolding status
status-NotFailed w h = ground arith

keep-NotFailed :
    (p : ShaWindow → Bool) (ws : List ShaWindow) → All IsClean ws → All NotFailed (keep p ws)
keep-NotFailed p [] h = tt
keep-NotFailed p (w ∷ ws) (h, hs) = elim (Bool-cases (p w)) [
  | inl e ↦ rw e (status-NotFailed w h, keep-NotFailed p ws hs)
  | inr e ↦ rw e (keep-NotFailed p ws hs)
]

streak_none : (ws : List ShaWindow) → All NotFailed ws → streak is_failed ws ≡ 0
unfolding streak
streak_none [] h = refl
streak_none (w ∷ ws) (h, hs) = rw h

any_clean : (ws : List ShaWindow) → All IsClean ws → any is_diverged ws ≡ false
any_clean [] h = refl
any_clean (w ∷ ws) (h, hs) = ground (arith, any_clean ws hs)

latest_clean :
    (ws : List ShaWindow) (n m : ℕ)
    → All IsClean ws
    → latest_fails (record { windows = ws; infra_excluded = n; skipped = m }) ≡ false
latest_clean [] n m h = refl
latest_clean (w ∷ []) n m (h, hs) = h.0
latest_clean (w ∷ v ∷ ws) n m (h, hs) = latest_clean (v ∷ ws) n m hs

module _ {F : Type 0} (rt : Runtime F) (config : DetectConfig F) where
  regression_none :
      (h : History)
      → 0 < config.regression_fail_streak
      → All IsClean h.windows
      → find_regression config h ≡ none
  unfolding find_regression data_windows
  regression_none h pos c =
      let zero_streak = streak_none (reverse (data_windows h)) (
        All-reverse NotFailed (data_windows h)
          (keep-NotFailed (λ w. not (is_no_data (status w))) h.windows c)) in
      unfold regression_in in ground arith

  -- With a fail streak of at least one configured, a history in which no window has a failing
  -- outcome or a rerun is healthy, whatever its rates, its diff and its identity are.
  pub clean_healthy :
      (i : TestIdentity) (n : ℕ) (h : History) (diff_paths : List Text) (uncertain : Bool)
      → 0 < config.regression_fail_streak
      → All IsClean h.windows
      → (detect_for_history rt config i n h diff_paths uncertain).verdict ≡ Verdict.healthy
  clean_healthy i n h diff_paths uncertain pos c = rw (
    verdict-verdict_by_precedence rt config i n h diff_paths uncertain,
    any_clean h.windows c,
    regression_none h pos c,
    latest_clean h.windows h.infra_excluded h.skipped c,
  )
