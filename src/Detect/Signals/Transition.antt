-- ===== src/Detect/Signals/Transition.antt =====
-- `find_regression` of detect/detector.py and transitions from passing to failing.
use netflix_flaky_test_triag.Base.{
  ℕ, ◌-◌, ◌≤◌, ◌<◌, ◌≡◌, refl, sym, ap, ◌∙◌, true, false, some, List, [], ◌∷◌, ◌++◌, reverse,
  reverse-append, length, length-append, length-reverse, take, All, arith, any,
}
use netflix_flaky_test_triag.Config.{DetectConfig}
use netflix_flaky_test_triag.Detect.Window.{ShaWindow, status}
use netflix_flaky_test_triag.Detect.Rates.{is_diverged_status}
use netflix_flaky_test_triag.Detect.Signals.{
  streak, regression_in, regression_at, RegressionFinding, is_failed, is_passed,
}
use netflix_flaky_test_triag.Detect.Signals.Streaks.{
  Has, tail_split, streak-stop, streak-le, get_elem?-append, take-append, All-reverse,
}

-- A clean transition: a pass streak and then a fail streak that ends the history, both as long as
-- configured, with no divergence anywhere, and the commit of the first failure.
pub record IsTransition {F : Type 0} (config : DetectConfig F) (ws : List ShaWindow)
    (r : RegressionFinding) : Type 0 where
  pub earlier : List ShaWindow
  pub passes : List ShaWindow
  pub pivot : ShaWindow
  pub fails : List ShaWindow
  pub split : ws ≡ (earlier ++ passes) ++ pivot ∷ fails
  pub all_passed : All (Has is_passed) passes
  pub all_failed : All (Has is_failed) (pivot ∷ fails)
  pub no_divergence : any (λ w. is_diverged_status (status w)) ws ≡ false
  pub pass_length : length passes ≡ r.pass_streak
  pub fail_length : length (pivot ∷ fails) ≡ r.fail_streak
  pub pass_enough : config.regression_pass_streak ≤ r.pass_streak
  pub fail_enough : config.regression_fail_streak ≤ r.fail_streak
  pub pivot_commit : pivot.commit_sha ≡ r.pivot_sha

module _ {F : Type 0} (config : DetectConfig F) where
  regression_in-parts :
      (ws : List ShaWindow) (r : RegressionFinding)
      → regression_in config ws ≡ some r
      → let trailing = streak is_failed (reverse ws) in
        let leading = streak is_passed (reverse (take (length ws - trailing) ws)) in
        (any (λ w. is_diverged_status (status w)) ws ≡ false)
        × (config.regression_fail_streak ≤ trailing)
        × (config.regression_pass_streak ≤ leading)
        × (regression_at ws trailing leading ≡ some r)
  unfolding regression_in
  regression_in-parts ws r h = ground arith

  -- The window at the start of the fail streak.
  regression_at-append :
      (before : List ShaWindow) (pivot : ShaWindow) (fails : List ShaWindow) (trailing leading : ℕ)
      → length (pivot ∷ fails) ≡ trailing
      → regression_at (before ++ pivot ∷ fails) trailing leading
        ≡ some
            (record { pivot_sha = pivot.commit_sha; pass_streak = leading; fail_streak = trailing })
  unfolding regression_at
  regression_at-append before pivot fails trailing leading l =
      let at : length (before ++ pivot ∷ fails) - trailing ≡ length before =
        omega (arith, l, length-append before (pivot ∷ fails)) in
      ground (arith, get_elem?-append before pivot fails)

  IsTransition-of :
      (ws before fs : List ShaWindow) (r : RegressionFinding)
      → 0 < config.regression_fail_streak
      → regression_in config ws ≡ some r
      → ws ≡ before ++ fs
      → All (Has is_failed) fs
      → length fs ≡ streak is_failed (reverse ws)
      → take (length ws - streak is_failed (reverse ws)) ws ≡ before
      → IsTransition config ws r
  IsTransition-of ws before [] r pos h q a l t =
      let (_, enough, _, _) = regression_in-parts ws r h in absurd (omega (arith, enough, l))
  IsTransition-of ws before (pivot ∷ fails) r pos h q a l t =
      let trailing = streak is_failed (reverse ws) in
      let leading = streak is_passed (reverse (take (length ws - trailing) ws)) in
      let (clean, fail_ok, pass_ok, found) = regression_in-parts ws r h in
      let (earlier, passes, q', a', l', _) = tail_split is_passed before in
      let value : some
            (record { pivot_sha = pivot.commit_sha; pass_streak = leading; fail_streak = trailing })
          ≡ some r =
        sym (regression_at-append before pivot fails trailing leading l)
        ∙ ap (λ x. regression_at x trailing leading) (sym q)
        ∙ found in
      let lead : length passes ≡ leading = l' ∙ ap (λ x. streak is_passed (reverse x)) (sym t) in
      let streak_of : leading ≡ r.pass_streak = ground arith in
      let tail_of : trailing ≡ r.fail_streak = ground arith in
      record {
        earlier = earlier;
        passes = passes;
        pivot = pivot;
        fails = fails;
        split = q ∙ ap (λ x. x ++ pivot ∷ fails) q';
        all_passed = a';
        all_failed = a;
        no_divergence = clean;
        pass_length = lead ∙ streak_of;
        fail_length = l ∙ tail_of;
        pass_enough = omega (arith, pass_ok, streak_of);
        fail_enough = omega (arith, fail_ok, tail_of);
        pivot_commit = ground arith;
      }

  -- With a fail streak of at least one configured, every regression that is found is a clean
  -- transition of the windows with data: no window diverges, they end in a pass streak and a fail
  -- streak of the reported and at least the configured lengths, and the pivot is the first failure.
  pub regression_in-IsTransition :
      (ws : List ShaWindow) (r : RegressionFinding)
      → 0 < config.regression_fail_streak
      → regression_in config ws ≡ some r
      → IsTransition config ws r
  regression_in-IsTransition ws r pos h =
      let (before, fs, q, a, l, t) = tail_split is_failed ws in
      IsTransition-of ws before fs r pos h q a l t

  regression_in-found :
      (ws : List ShaWindow) (trailing leading : ℕ)
      → any (λ w. is_diverged_status (status w)) ws ≡ false
      → streak is_failed (reverse ws) ≡ trailing
      → streak is_passed (reverse (take (length ws - trailing) ws)) ≡ leading
      → config.regression_fail_streak ≤ trailing
      → config.regression_pass_streak ≤ leading
      → regression_in config ws ≡ regression_at ws trailing leading
  unfolding regression_in
  regression_in-found ws trailing leading clean et el hf hp = rw (et, el) (ground arith)

  trailing_exact :
      (before fs : List ShaWindow) (q : ShaWindow) (rest : List ShaWindow)
      → reverse before ≡ q ∷ rest
      → is_passed (status q) ≡ true
      → All (Has is_failed) fs
      → streak is_failed (reverse (before ++ fs)) ≡ length fs
  trailing_exact before fs q rest e hq a =
      ap (streak is_failed) (reverse-append before fs ∙ ap (λ x. reverse fs ++ x) e)
      ∙ streak-stop is_failed (reverse fs) q rest (All-reverse (Has is_failed) fs a) (ground arith)
      ∙ length-reverse fs

  found_at :
      (earlier passes : List ShaWindow) (pivot : ShaWindow) (fails : List ShaWindow)
      (back : List ShaWindow)
      → let ws = (earlier ++ passes) ++ pivot ∷ fails in
        reverse passes ≡ back
        → All (Has is_passed) back
        → All (Has is_failed) (pivot ∷ fails)
        → any (λ w. is_diverged_status (status w)) ws ≡ false
        → 0 < config.regression_pass_streak
        → config.regression_pass_streak ≤ length passes
        → config.regression_fail_streak ≤ length (pivot ∷ fails)
        → (n : ℕ) × (length passes ≤ n)
          × (regression_in config ws
              ≡ some (record {
                pivot_sha = pivot.commit_sha;
                pass_streak = n;
                fail_streak = length (pivot ∷ fails);
              }))
  found_at earlier passes pivot fails [] e ap_ af clean pos hp hf =
      absurd (omega (arith, ap length e, length-reverse passes))
  found_at earlier passes pivot fails (q ∷ qs) e (hq, hqs) af clean pos hp hf =
      let before = earlier ++ passes in
      let fs = pivot ∷ fails in
      let ws = before ++ fs in
      let backwards : reverse before ≡ (q ∷ qs) ++ reverse earlier =
        reverse-append earlier passes ∙ ap (λ x. x ++ reverse earlier) e in
      let cut : take (length ws - length fs) ws ≡ before =
        rw
          (let size : length ws - length fs ≡ length before =
              omega (arith, length-append before fs) in
            size)
          (take-append before fs) in
      let n : ℕ = streak is_passed (reverse before) in
      let enough : length passes ≤ n = rw backwards (
        omega (
          arith,
          streak-le is_passed (q ∷ qs) (reverse earlier) (hq, hqs),
          ap length e,
          length-reverse passes,
        )) in
      (
        n,
        enough,
        regression_in-found ws (length fs) n clean
              (trailing_exact before fs q (qs ++ reverse earlier) backwards hq af)
              (ap (λ x. streak is_passed (reverse x)) cut) hf (omega (arith, enough, hp))
            ∙ regression_at-append before pivot fails (length fs) n refl,
      )

  -- With a pass streak of at least one configured, every clean transition is found: when no window
  -- with data diverges and they end in passes and then failures that are both at least as many as
  -- configured, the regression found pivots on the first of
  -- those failures, with their number as its fail streak and at least those passes before it.
  pub regression_in_complete :
      (earlier passes : List ShaWindow) (pivot : ShaWindow) (fails : List ShaWindow)
      → let ws = (earlier ++ passes) ++ pivot ∷ fails in
        All (Has is_passed) passes
        → All (Has is_failed) (pivot ∷ fails)
        → any (λ w. is_diverged_status (status w)) ws ≡ false
        → 0 < config.regression_pass_streak
        → config.regression_pass_streak ≤ length passes
        → config.regression_fail_streak ≤ length (pivot ∷ fails)
        → (n : ℕ) × (length passes ≤ n)
          × (regression_in config ws
              ≡ some (record {
                pivot_sha = pivot.commit_sha;
                pass_streak = n;
                fail_streak = length (pivot ∷ fails);
              }))
  regression_in_complete earlier passes pivot fails hp hf clean pos ep ef =
      found_at earlier passes pivot fails (reverse passes) refl
        (All-reverse (Has is_passed) passes hp) hf clean pos ep ef
