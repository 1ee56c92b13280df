-- ===== src/Ingest/Ranges/Covered.antt =====
-- ingest/diff.py: the lines that ranges cover, before and after merging.
use netflix_flaky_test_triag.Base.{
  ℕ, ◌+◌, ◌≤◌, ◌≡◌, refl, Bool, ◌||◌, List, [], ◌∷◌, any, leb, ◌==◌, max, sort_by, Ascends,
  Ascends-weaken, ◌∙◌, Bool-cases, inl, inr, any-sort_by, arith,
}
use netflix_flaky_test_triag.Models.Diff.{LineRange, in_range}
use netflix_flaky_test_triag.Ingest.Ranges.{
  ranges_after, ranges_of, ranges_from_lines, range_leb, merge_after, merge_sorted, merge_ranges,
}
use netflix_flaky_test_triag.Ingest.Ranges.Separated.{sorted-Ascends}

-- Whether one of the ranges contains the line.
abbrev pub covers : ℕ → List LineRange → Bool
covers n rs = any (λ r. in_range r n) rs

covers-ranges_after :
    (n : ℕ) (last : LineRange) (lines : List ℕ)
    → last.start ≤ last.end
    → covers n (ranges_after last lines) ≡ (in_range last n || any (λ k. k == n) lines)
unfolding ranges_after in_range
covers-ranges_after n last [] h = ground arith
covers-ranges_after n last (line ∷ lines) h = ground (
  arith,
  covers-ranges_after n (record { start = last.start; end = line }) lines,
  covers-ranges_after n (record { start = line; end = line }) lines,
)

covers-ranges_of : (n : ℕ) (lines : List ℕ) → covers n (ranges_of lines) ≡ any (λ k. k == n) lines
unfolding ranges_of in_range
covers-ranges_of n [] = refl
covers-ranges_of n (line ∷ lines) =
    ground (arith, covers-ranges_after n (record { start = line; end = line }) lines)

pub covers-ranges_from_lines :
    (n : ℕ) (lines : List ℕ) → covers n (ranges_from_lines lines) ≡ any (λ k. k == n) lines
unfolding ranges_from_lines
covers-ranges_from_lines n lines =
    covers-ranges_of n (sort_by leb lines) ∙ any-sort_by leb (λ k. k == n) lines

covers-merge_after :
    (n : ℕ) (last : LineRange) (rest : List LineRange)
    → Ascends (λ r. r.start) last.start rest
    → covers n (merge_after last rest) ≡ (in_range last n || covers n rest)
unfolding merge_after in_range
covers-merge_after n last [] a = ground arith
covers-merge_after n last (current ∷ rest) (a, low) =
    let joined : LineRange = record { start = last.start; end = max last.end current.end } in
    elim (Bool-cases (leb current.start (last.end + 1))) [
      | inl e ↦ ground (
        arith,
        covers-merge_after n joined rest
            (Ascends-weaken (λ r. r.start) current.start last.start rest a low),
      )
      | inr e ↦ ground (arith, covers-merge_after n current rest low)
    ]

covers-merge_sorted :
    (n : ℕ) (rs : List LineRange)
    → Ascends (λ r. r.start) 0 rs
    → covers n (merge_sorted rs) ≡ covers n rs
unfolding merge_sorted
covers-merge_sorted n [] a = refl
covers-merge_sorted n (r ∷ rs) (a, low) = covers-merge_after n r rs low

-- For every list of ranges, a line is in one of the ranges after `_merge_ranges` exactly when it is
-- in one of them before.
covers-merge_ranges : (n : ℕ) (rs : List LineRange) → covers n (merge_ranges rs) ≡ covers n rs
unfolding merge_ranges
covers-merge_ranges n rs =
    covers-merge_sorted n (sort_by range_leb rs) (sorted-Ascends rs)
    ∙ any-sort_by range_leb (λ r. in_range r n) rs
