-- ===== src/Ingest/Ranges/Separated.antt =====
-- ingest/diff.py: the order of merged ranges.
use netflix_flaky_test_triag.Base.{
  ℕ, ◌+◌, ◌≤◌, ◌<◌, List, [], ◌∷◌, All, leb, ◌==◌, sort_by, All-sort_by, Ascends, Ascends-sort_by,
  Ascends-weaken, Bool-cases, inl, inr, arith,
}
use netflix_flaky_test_triag.Models.Diff.{LineRange}
use netflix_flaky_test_triag.Ingest.Ranges.{
  ranges_after, ranges_of, ranges_from_lines, range_leb, merge_after, merge_sorted, merge_ranges,
}

-- What `LineRange` validates.
abbrev pub IsRange : LineRange → Type 0
IsRange r = (1 ≤ r.start) × (r.start ≤ r.end)

-- Ranges in ascending order above a bound, with an unchanged line between two of them.
abbrev pub Separated : ℕ → List LineRange → Type 0
Separated b [] = Unit
Separated b (r ∷ rs) = (b < r.start) × (r.start ≤ r.end) × Separated (r.end + 1) rs

pub sorted-Ascends : (rs : List LineRange) → Ascends (λ r. r.start) 0 (sort_by range_leb rs)
unfolding range_leb
sorted-Ascends rs =
    Ascends-sort_by range_leb (λ r. r.start) (λ x y e. ground arith) (λ x y e. ground arith) rs

merge_after-Separated :
    (b : ℕ) (last : LineRange) (rest : List LineRange)
    → b < last.start
    → last.start ≤ last.end
    → Ascends (λ r. r.start) last.start rest
    → All IsRange rest
    → Separated b (merge_after last rest)
unfolding merge_after
merge_after-Separated b last [] h v a k = (h, v, tt)
merge_after-Separated b last (current ∷ rest) h v (a, low) (k, ks) =
    elim (Bool-cases (leb current.start (last.end + 1))) [
      | inl e ↦ rw e (
          merge_after-Separated b _ rest h (omega arith)
            (Ascends-weaken (λ r. r.start) current.start last.start rest a low) ks)
      | inr e ↦
          rw e (h, v, merge_after-Separated (last.end + 1) current rest (ground arith) k.1 low ks)
    ]

merge_sorted-Separated :
    (rs : List LineRange)
    → Ascends (λ r. r.start) 0 rs
    → All IsRange rs
    → Separated 0 (merge_sorted rs)
unfolding merge_sorted
merge_sorted-Separated [] a h = tt
merge_sorted-Separated (r ∷ rs) (a, low) (h, hs) = merge_after-Separated 0 r rs h.0 h.1 low hs

-- `_merge_ranges` of ranges that `LineRange` accepts gives ranges that it accepts, in ascending
-- order, with at least one unchanged line between two of them.
pub merge_ranges-Separated : (rs : List LineRange) → All IsRange rs → Separated 0 (merge_ranges rs)
unfolding merge_ranges
merge_ranges-Separated rs h =
    merge_sorted-Separated (sort_by range_leb rs) (sorted-Ascends rs)
      (All-sort_by range_leb IsRange rs h)

ranges_after-IsRange :
    (last : LineRange) (lines : List ℕ)
    → IsRange last
    → All (λ n. 1 ≤ n) lines
    → All IsRange (ranges_after last lines)
unfolding ranges_after
ranges_after-IsRange last [] h k = (h, tt)
ranges_after-IsRange last (line ∷ lines) h (k, ks) = elim (Bool-cases (line == last.end + 1)) [
  | inl e ↦ rw e (ranges_after-IsRange _ lines (h.0, ground arith) ks)
  | inr e ↦ rw e (h, ranges_after-IsRange _ lines (k, ground arith) ks)
]

ranges_of-IsRange : (lines : List ℕ) → All (λ n. 1 ≤ n) lines → All IsRange (ranges_of lines)
unfolding ranges_of
ranges_of-IsRange [] h = tt
ranges_of-IsRange (n ∷ ns) (h, hs) = ranges_after-IsRange _ ns (h, ground arith) hs

pub ranges_from_lines-IsRange :
    (lines : List ℕ) → All (λ n. 1 ≤ n) lines → All IsRange (ranges_from_lines lines)
unfolding ranges_from_lines
ranges_from_lines-IsRange lines h =
    ranges_of-IsRange (sort_by leb lines) (All-sort_by leb (λ n. 1 ≤ n) lines h)
