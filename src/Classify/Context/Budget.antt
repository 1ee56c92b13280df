-- ===== src/Classify/Context/Budget.antt =====
-- The length of what `truncate_trace` of classify/prompt.py leaves.
use netflix_flaky_test_triag.Base.{
  ℕ, ◌+◌, ◌-◌, ◌≤◌, ◌≡◌, refl, some, List, [], ◌∷◌, ◌++◌, Text, codes, strip, length, ltb,
  split_lines, join, arith, Bool-cases, inl, inr,
}
use netflix_flaky_test_triag.Runtime.{Runtime}
use netflix_flaky_test_triag.Classify.Context.{
  omitted, head_lines, size_of, tail_lines, cut_trace, truncate_trace,
}

length_++ : {A : Type 0} (xs ys : List A) → length (xs ++ ys) ≡ length xs + length ys
length_++ [] ys = omega arith
length_++ (x ∷ xs) ys = omega (arith, length_++ xs ys)

size-append : (xs ys : List Text) → size_of (xs ++ ys) ≡ size_of xs + size_of ys
size-append [] ys = omega arith
size-append (x ∷ xs) ys = omega (arith, size-append xs ys)

length-join : (lines : List Text) → length (join (codes "\n") lines) ≤ size_of lines - 1
unfolding join
length-join [] = omega arith
length-join (s ∷ []) = omega arith
length-join (s ∷ t ∷ ts) =
    let j = join (codes "\n") (t ∷ ts) in
    let feed : length (s ++ codes "\n") ≡ length s + 1 = length_++ s (codes "\n") in
    let whole : length (join (codes "\n") (s ∷ t ∷ ts)) ≡ length (s ++ codes "\n") + length j =
      length_++ (s ++ codes "\n") j in
    let size : size_of (s ∷ t ∷ ts) ≡ length s + 1 + size_of (t ∷ ts) = refl in
    let positive : 1 ≤ size_of (t ∷ ts) = omega arith in
    omega (arith, length-join (t ∷ ts), feed, whole, size, positive)

size-head_lines :
    (budget used : ℕ) (lines : List Text)
    → used ≤ budget
    → used + size_of (head_lines budget used lines).0 ≤ budget
unfolding head_lines
size-head_lines budget used [] h = omega arith
size-head_lines budget used (line ∷ lines) h =
    elim (Bool-cases (ltb budget (used + length line + 1))) [
      | inl e ↦ ground arith
      | inr e ↦
          let fits : used + length line + 1 ≤ budget = ground arith in
          let rest = size-head_lines budget (used + length line + 1) lines fits in
          ground (arith, rest)
    ]

module _ {F : Type 0} (rt : Runtime F) where
  size-tail_lines :
      (remaining : ℕ) (lines : List Text) → size_of (tail_lines rt remaining lines) ≤ remaining
  unfolding tail_lines
  size-tail_lines remaining [] = omega arith
  size-tail_lines remaining (line ∷ lines) = ground (
    arith,
    size-tail_lines remaining lines,
    size-tail_lines (remaining - (length line + 1)) lines,
  )

  -- If the head of a trace gets no more than the budget, then a trace is at most 36 characters
  -- longer than the budget after `truncate_trace`, which is the length of the marker it puts in,
  -- and one that is within the budget once stripped is only stripped.
  truncate_trace-length :
      (head_budget : ℕ → ℕ) (trace : Text) (budget : ℕ)
      → head_budget budget ≤ budget
      → (length (truncate_trace rt head_budget (some trace) budget) ≤ budget + 36)
        × (length (strip trace) ≤ budget
            → truncate_trace rt head_budget (some trace) budget ≡ strip trace)
  unfolding truncate_trace cut_trace
  truncate_trace-length head_budget trace budget h =
      let text = strip trace in
      let split = head_lines (head_budget budget) 0 (split_lines text) in
      let tail = tail_lines rt (budget - size_of split.0) split.1 in
      let head_fits = size-head_lines (head_budget budget) 0 (split_lines text) (omega arith) in
      let tail_fits = size-tail_lines (budget - size_of split.0) split.1 in
      (
        ground (
          arith,
          head_fits,
          tail_fits,
          length-join split.0,
          length-join (split.0 ++ omitted ∷ tail),
          size-append split.0 (omitted ∷ tail),
        ),
        λ k. ground arith,
      )
