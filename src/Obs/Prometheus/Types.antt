-- ===== src/Obs/Prometheus/Types.antt =====
-- obs/metrics.py: the type lines of the text for Prometheus.
use netflix_flaky_test_triag.Base.{
  ℕ, ◌+◌, ◌≤◌, ◌≡◌, refl, ap, ◌∙◌, Bool, true, false, ◌||◌, List, [], ◌∷◌, ◌++◌, Text, codes,
  starts_with, any, any-append, String, count_of, arith, ◌==◌, Bool-cases, inl, inr,
}
use netflix_flaky_test_triag.Runtime.{Runtime}
use netflix_flaky_test_triag.Obs.Summary.{MetricsSummary}
use netflix_flaky_test_triag.Obs.Prometheus.{
  Metric, type_prefix, add_metric, add_metrics, metrics_of, prometheus_lines, labelled, named,
  cause_value, reason_value,
}

abbrev pub has_space : Text → Bool
has_space s = any (λ c. c == b' ') s

same_word :
    (p q k : Text)
    → has_space p ≡ false
    → has_space q ≡ false
    → starts_with (p ++ codes " ") (q ++ b' ' ∷ k) ≡ true
    → p ≡ q
unfolding starts_with
same_word [] [] k h g e = refl
same_word [] (d ∷ q) k h g e = ground (arith, g, e)
same_word (c ∷ p) [] k h g e = ground (arith, h, e)
same_word (c ∷ p) (d ∷ q) k h g e = ground (arith, same_word p q k, h, g, e)

count-append :
    (p : Text → Bool) (xs ys : List Text) → count_of p (xs ++ ys) ≡ count_of p xs + count_of p ys
count-append p [] ys = omega arith
count-append p (x ∷ xs) ys = ground (arith, count-append p xs ys)

count_none : (p : Text → Bool) (xs : List Text) → any p xs ≡ false → count_of p xs ≡ 0
count_none p [] h = refl
count_none p (x ∷ xs) h = ground (arith, count_none p xs, h)

-- The number of lines that give the type of a metric.
abbrev pub type_lines : Text → List Text → ℕ
type_lines name lines = count_of (starts_with (type_prefix name)) lines

module _ {F : Type 0} (rt : Runtime F) (show_g : F → Text) where
  add_metric-type_lines :
      (name : Text) (m : Metric F) (lines : List Text)
      → has_space name ≡ false
      → has_space m.name ≡ false
      → type_lines name lines ≤ 1
      → type_lines name (add_metric rt show_g m lines) ≤ 1
  unfolding add_metric starts_with
  add_metric-type_lines name m lines h g few =
      elim (Bool-cases (any (starts_with (type_prefix m.name)) lines)) [
        | inl e ↦ rw (e, count-append) (omega (arith, few))
        | inr e ↦ elim (Bool-cases (starts_with (name ++ codes " ") (m.name ++ b' ' ∷ m.kind))) [
          | inl same ↦
              let word = same_word name m.name m.kind h g same in
              let none_yet : type_lines name lines ≡ 0 =
                ap (λ n. type_lines n lines) word
                ∙ count_none (starts_with (type_prefix m.name)) lines e in
              rw (e, count-append, same) (omega (arith, none_yet))
          | inr other ↦ rw (e, count-append, other) (omega (arith, few))
        ]
      ]

  add_metrics-type_lines :
      (name : Text) (ms : List (Metric F)) (lines : List Text)
      → has_space name ≡ false
      → any (λ m. has_space m.name) ms ≡ false
      → type_lines name lines ≤ 1
      → type_lines name (add_metrics rt show_g ms lines) ≤ 1
  unfolding add_metrics
  add_metrics-type_lines name [] lines h g few = few
  add_metrics-type_lines name (m ∷ ms) lines h g few =
      add_metrics-type_lines name ms (add_metric rt show_g m lines) h (ground (arith, g))
        (add_metric-type_lines name m lines h (ground (arith, g)) few)

  labelled_names :
      (name help_text label : String) (groups : List (Text × ℕ))
      → has_space (codes name) ≡ false
      → any (λ m. has_space m.name) (labelled rt show_g name help_text label groups) ≡ false
  labelled_names name help_text label [] h = refl
  labelled_names name help_text label (g ∷ groups) h =
      rw (h, labelled_names name help_text label groups h) refl

  metrics_of_names :
      (s : MetricsSummary F) → any (λ m. has_space m.name) (metrics_of rt show_g s) ≡ false
  unfolding metrics_of
  metrics_of_names s =
      let causes =
        labelled rt show_g "classifications_by_cause_total"
          "Classifications grouped by proposed cause." "cause" (named cause_value s.by_cause) in
      let reasons =
        labelled rt show_g "downgrades_total" "Abstentions grouped by reason." "reason"
          (named reason_value s.by_downgrade_reason) in
      any-append (λ m. has_space m.name) causes reasons
      ∙ ap (λ b. b || any (λ m. has_space m.name) reasons)
          (labelled_names "classifications_by_cause_total"
            "Classifications grouped by proposed cause." "cause" (named cause_value s.by_cause)
            refl)
      ∙ labelled_names "downgrades_total" "Abstentions grouped by reason." "reason"
          (named reason_value s.by_downgrade_reason) refl

  -- In the text of every summary for Prometheus, each name without a space has at most one line that
  -- gives its type, though a series with labels calls `metric` once for each label.
  pub prometheus_lines-type_lines :
      (s : MetricsSummary F) (name : Text)
      → has_space name ≡ false
      → type_lines name (prometheus_lines rt show_g s) ≤ 1
  unfolding prometheus_lines
  prometheus_lines-type_lines s name h =
      add_metrics-type_lines name (metrics_of rt show_g s) [] h (metrics_of_names s) (omega arith)
