-- ===== src/Report/Markdown/Rows.antt =====
-- report/renderers.py: which findings the comment on a pull request has.
use mathlib.Core.Path.{subst}
use netflix_flaky_test_triag.Base.{
  zero, suc, take, drop, length, ◌<◌, ◌-◌, ◌++◌, ap, sym, ℕ, ◌≡◌, refl, ◌∙◌, Bool, not, List, [],
  ◌∷◌, keep, sum_of, Ascends, Ascends-weaken, arith, Bool-cases, inl, inr, if◌then◌else◌,
}
use netflix_flaky_test_triag.Runtime.{Runtime}
use netflix_flaky_test_triag.Detect.Results.{Verdict, Detection}
use netflix_flaky_test_triag.Report.Findings.{sort_for_report}
use netflix_flaky_test_triag.Report.Findings.Order.{place, sort_for_report-Ascends}
use netflix_flaky_test_triag.Report.Markdown.{has_verdict, markdown_rows, shown_rows, omitted_rows}

module _ {A : Type 0} (p : A → Bool) where
  Ascends-keep : (key : A → ℕ) (b : ℕ) (xs : List A) → Ascends key b xs → Ascends key b (keep p xs)
  Ascends-keep key b [] h = tt
  Ascends-keep key b (x ∷ xs) (h, hs) = elim (Bool-cases (p x)) [
    | inl e ↦ rw e (h, Ascends-keep key (key x) xs hs)
    | inr e ↦ rw e (Ascends-weaken key (key x) b (keep p xs) h (Ascends-keep key (key x) xs hs))
  ]

  -- The sum over what is kept, as a sum over all.
  sum-keep :
      (f : A → ℕ) (xs : List A) → sum_of f (keep p xs) ≡ sum_of (λ x. if p x then f x else 0) xs
  sum-keep f [] = refl
  sum-keep f (x ∷ xs) = ground (arith, sum-keep f xs)

-- A list that is cut off.
module _ {A : Type 0} where
  take-drop : (n : ℕ) (xs : List A) → take n xs ++ drop n xs ≡ xs
  take-drop zero xs = refl
  take-drop (suc n) [] = refl
  take-drop (suc n) (x ∷ xs) = ap (λ ys. x ∷ ys) (take-drop n xs)

  length-drop : (n : ℕ) (xs : List A) → length (drop n xs) ≡ length xs - n
  length-drop zero xs = omega arith
  length-drop (suc n) [] = omega arith
  length-drop (suc n) (x ∷ xs) = omega (arith, length-drop n xs)

  length-take : (n : ℕ) (xs : List A) → 0 < length (drop n xs) → length (take n xs) ≡ n
  length-take zero xs h = refl
  length-take (suc n) [] h = absurd (omega (arith, h))
  length-take (suc n) (x ∷ xs) h = omega (arith, length-take n xs h)

module _ {F : Type 0} (rt : Runtime F) where
  -- A finding that is not a healthy test.
  abbrev pub is_unhealthy : Detection F → Bool
  is_unhealthy d = not (has_verdict Verdict.healthy d)

  -- What a comment with a limit shows of some findings.
  pub record ShowsWorst (max_rows : ℕ) (detections : List (Detection F)) : Type 0 where
    pub rest : List (Detection F)
    pub in_order : Ascends place 0 (shown_rows max_rows (markdown_rows rt detections) ++ rest)
    pub all_findings :
        (f : Detection F → ℕ)
        → sum_of f (shown_rows max_rows (markdown_rows rt detections) ++ rest)
          ≡ sum_of (λ d. if is_unhealthy d then f d else 0) detections
    pub rest_counted : length rest ≡ omitted_rows max_rows (markdown_rows rt detections)
    pub rest_needed :
        0 < length rest → length (shown_rows max_rows (markdown_rows rt detections)) ≡ max_rows

  -- The comment shows at most `max_rows` findings, the worst ones. With the omitted ones behind them
  -- they are the findings that are given and are no healthy test, each as often, regressions first,
  -- then flaky tests, persistent failures and new failures; the number omitted is the one that the
  -- comment reports, and when a finding is omitted, `max_rows` are shown.
  pub shown_rows-ShowsWorst :
      (max_rows : ℕ) (detections : List (Detection F)) → ShowsWorst max_rows detections
  unfolding markdown_rows shown_rows omitted_rows
  shown_rows-ShowsWorst max_rows detections =
      let sorted = sort_for_report rt detections in
      let (order, sums) = sort_for_report-Ascends rt detections in
      let rows = keep is_unhealthy sorted in
      let whole = take-drop max_rows rows in
      record {
        rest = drop max_rows rows;
        in_order =
            subst (Ascends place 0) (sym whole) (Ascends-keep is_unhealthy place 0 sorted order);
        all_findings = λ f.
            ap (sum_of f) whole
            ∙ sum-keep is_unhealthy f sorted
            ∙ sums (λ d. if is_unhealthy d then f d else 0);
        rest_counted = length-drop max_rows rows;
        rest_needed = λ h. length-take max_rows rows h;
      }
