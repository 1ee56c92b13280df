-- ===== src/Detect/Detector/Precedence.antt =====
-- The verdict and the confidence of `detect_for_history`, by the precedence of its signals.
use netflix_flaky_test_triag.Base.{
  ℕ, ◌≡◌, refl, ap, ◌∙◌, Bool, true, false, ◌||◌, not, Option, none, some, List, [], ◌∷◌, Text,
  is_empty, any, keep, length, leb, count_of, if◌then◌else◌, arith, Bool-cases, inl, inr,
}
use netflix_flaky_test_triag.Runtime.{Runtime}
use netflix_flaky_test_triag.Config.{DetectConfig}
use netflix_flaky_test_triag.Models.Records.{TestIdentity}
use netflix_flaky_test_triag.Detect.Window.{ShaWindow, is_diverged, diverged_across_attempts}
use netflix_flaky_test_triag.Detect.History.{History}
use netflix_flaky_test_triag.Detect.Results.{Verdict, Confidence, SignalEvidence}
use netflix_flaky_test_triag.Detect.Signals.{
  RegressionFinding, find_same_sha_divergence, find_regression, find_branch_independent,
  find_historical_instability, same_sha_evidence, cross_attempt_evidence, branch_evidence,
}
use netflix_flaky_test_triag.Detect.Detector.{
  confidence, decide, latest_fails, footprint_of, regression_of, signals_of, detect_for_history,
  is_divergence, append_signal,
}

abbrev pub is_present : {A : Type 0} → Option A → Bool
is_present none = false
is_present (some _) = true

is_empty-keep : (p : ShaWindow → Bool) (ws : List ShaWindow) → is_empty (keep p ws) ≡ not (any p ws)
is_empty-keep p [] = refl
is_empty-keep p (w ∷ ws) = ground (arith, is_empty-keep p ws)

-- The first signal of the list is there exactly when a window diverged, and it leads.
find_same_sha_divergence-none :
    (h : History) → any is_diverged h.windows ≡ false → find_same_sha_divergence h ≡ []
unfolding find_same_sha_divergence
find_same_sha_divergence-none h e = ground (arith, is_empty-keep is_diverged h.windows)

find_same_sha_divergence-some :
    (h : History)
    → any is_diverged h.windows ≡ true
    → (e : SignalEvidence) × (es : List SignalEvidence) × (find_same_sha_divergence h ≡ e ∷ es)
      × (is_divergence e.signal ≡ true)
unfolding find_same_sha_divergence same_sha_evidence
find_same_sha_divergence-some h e =
    let across = keep diverged_across_attempts (keep is_diverged h.windows) in
    (
      same_sha_evidence (keep is_diverged h.windows),
      if is_empty across then [] else cross_attempt_evidence across ∷ [],
      ground (arith, is_empty-keep is_diverged h.windows),
      refl,
    )

-- The verdict by five facts about a history, in order of precedence: some window diverged, there is
-- a regression, the latest window has a failure, a weaker signal fired, there is at most one window.
abbrev pub verdict_by_precedence : Bool → Bool → Bool → Bool → Bool → Verdict
verdict_by_precedence true _ _ _ _ = Verdict.flaky
verdict_by_precedence false true _ _ _ = Verdict.regression
verdict_by_precedence false false false _ _ = Verdict.healthy
verdict_by_precedence false false true true _ = Verdict.flaky
verdict_by_precedence false false true false true = Verdict.new_failure
verdict_by_precedence false false true false false = Verdict.persistent_failure

abbrev pivot_of : Option RegressionFinding → Option Text
pivot_of none = none
pivot_of (some r) = some r.pivot_sha

-- The signal, if any, is none of the two divergences.
abbrev IsWeak : Option SignalEvidence → Type 0
IsWeak o = (e : SignalEvidence) → o ≡ some e → is_divergence e.signal ≡ false

module _ {F : Type 0} (config : DetectConfig F) where
  decide_loud :
      (h : History) (e : SignalEvidence) (es : List SignalEvidence) (r : Option RegressionFinding)
      → is_divergence e.signal ≡ true
      → decide config h (e ∷ es) r ≡ (
        Verdict.flaky,
        if leb 2 (count_of is_diverged h.windows) then Confidence.high else Confidence.medium,
      )
  unfolding decide confidence
  decide_loud h e es r k = rw k

  decide_quiet :
      (h : History) (r : Option RegressionFinding) (b s : Option SignalEvidence)
      → IsWeak b
      → IsWeak s
      → (decide config h (elim r [ some _ ↦ [] | none ↦ append_signal (append_signal [] b) s ]) r).0
        ≡ verdict_by_precedence false
            (is_present r)
            (latest_fails h)
            (is_present b || is_present s)
            (leb (length h.windows) 1)
  unfolding decide
  decide_quiet h (some r) b s wb ws = refl
  decide_quiet h none none none wb ws = ground arith
  decide_quiet h none (some e) none wb ws = ground (arith, wb e refl)
  decide_quiet h none (some e) (some f) wb ws = ground (arith, wb e refl)
  decide_quiet h none none (some f) wb ws = ground (arith, ws f refl)

  branch_signal-IsWeak :
      (h : History) (diff_paths test_footprint : List Text)
      → IsWeak (find_branch_independent config h diff_paths test_footprint)
  unfolding find_branch_independent branch_evidence
  branch_signal-IsWeak h diff_paths test_footprint e q = ground arith

module _ {F : Type 0} (rt : Runtime F) (config : DetectConfig F) where
  instability-IsWeak : (h : History) → IsWeak (find_historical_instability rt config h)
  unfolding find_historical_instability
  instability-IsWeak h e q = ground arith

  abbrev pub weak_signal : TestIdentity → History → List Text → Bool
  weak_signal i h diff_paths =
      is_present (find_branch_independent config h diff_paths (footprint_of rt config i h))
      || is_present (find_historical_instability rt config h)

  signals_of-loud :
      (h : History) (diff_paths test_footprint : List Text) (e : SignalEvidence)
      (es : List SignalEvidence)
      → find_same_sha_divergence h ≡ e ∷ es
      → signals_of rt config h diff_paths test_footprint
        ≡ e
          ∷ append_signal
              (append_signal es (find_branch_independent config h diff_paths test_footprint))
              (find_historical_instability rt config h)
  unfolding signals_of
  signals_of-loud h diff_paths test_footprint e es q = ground arith

  regression_of-loud :
      (h : History) (e : SignalEvidence) (es : List SignalEvidence)
      → find_same_sha_divergence h ≡ e ∷ es
      → regression_of rt config h ≡ none
  unfolding regression_of
  regression_of-loud h e es q = ground arith

  signals_of-quiet :
      (h : History) (diff_paths test_footprint : List Text)
      → find_same_sha_divergence h ≡ []
      → signals_of rt config h diff_paths test_footprint ≡ elim (find_regression config h) [
        | some _ ↦ []
        | none ↦
            append_signal
              (append_signal [] (find_branch_independent config h diff_paths test_footprint))
              (find_historical_instability rt config h)
      ]
  unfolding signals_of
  signals_of-quiet h diff_paths test_footprint q = ground arith

  regression_of-quiet :
      (h : History)
      → find_same_sha_divergence h ≡ []
      → regression_of rt config h ≡ find_regression config h
  unfolding regression_of
  regression_of-quiet h q = ground arith

  -- For every history, the verdict is the one that the precedence gives: a divergence makes it
  -- flaky, then a regression counts, then a latest window with no failure is healthy, then a weaker
  -- signal makes it flaky, and a failure with no signal is new in a history of one window.
  pub verdict-verdict_by_precedence :
      (i : TestIdentity) (n : ℕ) (h : History) (diff_paths : List Text) (uncertain : Bool)
      → (detect_for_history rt config i n h diff_paths uncertain).verdict
        ≡ verdict_by_precedence
            (any is_diverged h.windows)
            (is_present (find_regression config h))
            (latest_fails h)
            (weak_signal i h diff_paths)
            (leb (length h.windows) 1)
  unfolding detect_for_history
  verdict-verdict_by_precedence i n h diff_paths uncertain =
      let fp = footprint_of rt config i h in
      elim (Bool-cases (any is_diverged h.windows)) [
        | inl e ↦
            let (x, xs, q, k) = find_same_sha_divergence-some h e in
            rw (e, signals_of-loud h diff_paths fp x xs q)
              (ap (λ p. p.0) (decide_loud config h x _ (regression_of rt config h) k))
        | inr e ↦
            let q = find_same_sha_divergence-none h e in
            rw (e, signals_of-quiet h diff_paths fp q, regression_of-quiet h q)
              (decide_quiet config h (find_regression config h)
                (find_branch_independent config h diff_paths fp)
                (find_historical_instability rt config h)
                (branch_signal-IsWeak config h diff_paths fp) (instability-IsWeak h))
      ]

  -- A history with a diverged window is reported flaky with no regression commit, whatever else it
  -- holds, at high confidence if two windows or more diverged and at medium confidence otherwise.
  divergence_wins :
      (i : TestIdentity) (n : ℕ) (h : History) (diff_paths : List Text) (uncertain : Bool)
      → any is_diverged h.windows ≡ true
      → let d = detect_for_history rt config i n h diff_paths uncertain in
        (d.verdict ≡ Verdict.flaky)
        × (d.confidence ≡ (
            if leb 2 (count_of is_diverged h.windows) then Confidence.high else Confidence.medium))
        × (d.regression_sha ≡ none)
  unfolding detect_for_history
  divergence_wins i n h diff_paths uncertain e =
      let fp = footprint_of rt config i h in
      let (x, xs, q, k) = find_same_sha_divergence-some h e in
      let es =
        append_signal (append_signal xs (find_branch_independent config h diff_paths fp))
          (find_historical_instability rt config h) in
      let both = decide_loud config h x es (regression_of rt config h) k in
      let r = regression_of-loud h x xs q in
      rw (signals_of-loud h diff_paths fp x xs q)
        (ap (λ p. p.0) both, ap (λ p. p.1) both, ap pivot_of r)

  -- A clean regression is never called flaky: with no diverged window, a transition that
  -- `find_regression` found gives the verdict regression, its pivot as the regression commit, and
  -- no flake signal at all.
  pub regression_reported :
      (i : TestIdentity) (n : ℕ) (h : History) (diff_paths : List Text) (uncertain : Bool)
      (r : RegressionFinding)
      → any is_diverged h.windows ≡ false
      → find_regression config h ≡ some r
      → let d = detect_for_history rt config i n h diff_paths uncertain in
        (d.verdict ≡ Verdict.regression) × (d.regression_sha ≡ some r.pivot_sha) × (d.signals ≡ [])
  unfolding detect_for_history decide
  regression_reported i n h diff_paths uncertain r e found =
      let fp = footprint_of rt config i h in
      let q = find_same_sha_divergence-none h e in
      let signals : signals_of rt config h diff_paths fp ≡ [] =
        rw (signals_of-quiet h diff_paths fp q, found) in
      let finding : regression_of rt config h ≡ some r = regression_of-quiet h q ∙ found in
      rw (signals, finding) (refl, ap pivot_of finding, refl)
