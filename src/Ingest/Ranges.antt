-- ===== src/Ingest/Ranges.antt =====
-- ingest/diff.py: line ranges from changed lines, and their merging.
pub mod Covered
pub mod Separated
use netflix_flaky_test_triag.Base.{
  ℕ, ◌+◌, Bool, List, [], ◌∷◌, leb, ltb, ◌==◌, max, if◌then◌else◌, sort_by,
}
use netflix_flaky_test_triag.Models.Diff.{LineRange}

-- The loop of `_ranges_from_lines`, after the ranges whose last one is `last`.
unfoldable pub ranges_after : LineRange → List ℕ → List LineRange
ranges_after last [] = last ∷ []
ranges_after last (line ∷ lines) =
    let joined = ranges_after (record { start = last.start; end = line }) lines in
    let next = last ∷ ranges_after (record { start = line; end = line }) lines in
    if line == last.end + 1 then joined else next

unfoldable pub ranges_of : List ℕ → List LineRange
unfolding ranges_after
ranges_of [] = []
ranges_of (line ∷ lines) = ranges_after (record { start = line; end = line }) lines

-- `_ranges_from_lines`
unfoldable pub ranges_from_lines : List ℕ → List LineRange
unfolding ranges_of
ranges_from_lines lines = ranges_of (sort_by leb lines)

-- The key `(r.start, r.end)`.
unfoldable pub range_leb : LineRange → LineRange → Bool
range_leb r s = if r.start == s.start then leb r.end s.end else ltb r.start s.start

-- The loop of `_merge_ranges`, after the ranges whose last one is `last`.
unfoldable pub merge_after : LineRange → List LineRange → List LineRange
merge_after last [] = last ∷ []
merge_after last (current ∷ rest) =
    let joined = merge_after (record { start = last.start; end = max last.end current.end }) rest in
    let next = last ∷ merge_after current rest in
    if leb current.start (last.end + 1) then joined else next

unfoldable pub merge_sorted : List LineRange → List LineRange
unfolding merge_after
merge_sorted [] = []
merge_sorted (r ∷ rs) = merge_after r rs

-- `_merge_ranges`
unfoldable pub merge_ranges : List LineRange → List LineRange
unfolding merge_sorted range_leb
merge_ranges ranges = merge_sorted (sort_by range_leb ranges)
