-- ===== src/Ingest/Diff/WellFormed.antt =====
-- ingest/diff.py: the ranges of every file that the parser returns.
use mathlib.Core.Path.{subst}
use netflix_flaky_test_triag.Base.{
  ℕ, ◌≤◌, ◌≡◌, Option, none, some, List, [], ◌∷◌, Text, All, All-append, sym, codes, starts_with,
  arith, Bool-cases, Option-cases, inl, inr, split_lines,
}
use netflix_flaky_test_triag.Models.Diff.{FileChange}
use netflix_flaky_test_triag.Ingest.Ranges.Separated.{
  IsRange, Separated, merge_ranges-Separated, ranges_from_lines-IsRange,
}
use netflix_flaky_test_triag.Ingest.Headers.{hunk_header, diff_header}
use netflix_flaky_test_triag.Ingest.Hunks.{
  FileAccumulator, finish, HunkState, from_match, consume, header_range, commit,
}
use netflix_flaky_test_triag.Ingest.Diff.{
  Parser, initial, commit_hunk, append_option, flush, start_file, old_file_line, new_file_line,
  path_line, file_line, hunk_line, other_line, step, parse_lines, with_empty_warning,
  parse_unified_diff, body_line, DiffParseResult,
}

-- Ranges in ascending order that neither meet nor touch, on each side.
abbrev pub HasSeparatedRanges : FileChange → Type 0
HasSeparatedRanges c = Separated 0 c.new_ranges × Separated 0 c.old_ranges

abbrev HasRanges : FileAccumulator → Type 0
HasRanges f = All IsRange f.new_ranges × All IsRange f.old_ranges

record IsHunk (h : HunkState) : Type 0 where
  old_positive : 1 ≤ h.old_cursor
  new_positive : 1 ≤ h.new_cursor
  added_positive : All (λ n. 1 ≤ n) h.added
  removed_positive : All (λ n. 1 ≤ n) h.removed

abbrev IsOpen : Option HunkState → Type 0
IsOpen none = Unit
IsOpen (some h) = IsHunk h

record IsParser (p : Parser) : Type 0 where
  files : All HasSeparatedRanges p.changes
  accumulated : HasRanges p.current
  open_hunk : IsOpen p.hunk

from_match-IsHunk : (found : (ℕ × Option ℕ) × (ℕ × Option ℕ)) → IsHunk (from_match found)
unfolding from_match
from_match-IsHunk ((a, b), (c, d)) = record {
  old_positive = omega arith;
  new_positive = omega arith;
  added_positive = tt;
  removed_positive = tt;
}

consume-IsHunk : (line : Text) (h : HunkState) → IsHunk h → IsHunk (consume line h)
unfolding consume
consume-IsHunk line h k = ground (
  arith,
  All-append (λ n. 1 ≤ n) h.added (h.new_cursor ∷ []) k.added_positive,
  All-append (λ n. 1 ≤ n) h.removed (h.old_cursor ∷ []) k.removed_positive,
)

header_range-IsRange : (start count : ℕ) → 1 ≤ start → All IsRange (header_range start count)
unfolding header_range
header_range-IsRange start count h = ground arith

commit-HasRanges :
    (h : HunkState) (f : FileAccumulator) → IsHunk h → HasRanges f → HasRanges (commit h f)
unfolding commit
commit-HasRanges h f k (new, old) = elim (Bool-cases h.seen_body) [
  | inl e ↦ rw e (
    All-append IsRange f.new_ranges _ new (ranges_from_lines-IsRange h.added k.added_positive),
    All-append IsRange f.old_ranges _ old (ranges_from_lines-IsRange h.removed k.removed_positive),
  )
  | inr e ↦ rw e (
    All-append IsRange f.new_ranges _ new
        (header_range-IsRange h.new_cursor h.header_counts.1 k.new_positive),
    All-append IsRange f.old_ranges _ old
        (header_range-IsRange h.old_cursor h.header_counts.0 k.old_positive),
  )
]

commit_hunk-HasRanges :
    (o : Option HunkState) (f : FileAccumulator)
    → IsOpen o
    → HasRanges f
    → HasRanges (commit_hunk o f)
commit_hunk-HasRanges none f h k = k
commit_hunk-HasRanges (some o) f h k = commit-HasRanges o f h k

append_finish-All :
    (changes : List FileChange) (f : FileAccumulator)
    → All HasSeparatedRanges changes
    → HasRanges f
    → All HasSeparatedRanges (append_option changes (finish f))
unfolding finish
append_finish-All changes f h (new, old) = elim (Option-cases f.path) [
  | inl e ↦ rw e h
  | inr (path, e) ↦ rw e (
      All-append HasSeparatedRanges changes _ h
        ((merge_ranges-Separated f.new_ranges new, merge_ranges-Separated f.old_ranges old), tt))
]

body_line-IsOpen : (line : Text) (o : Option HunkState) → IsOpen o → IsOpen (body_line line o)
body_line-IsOpen line none h = tt
body_line-IsOpen line (some o) h = consume-IsHunk line o h

-- The lines that change the current file leave its ranges alone.
file_line-ranges :
    (line : Text) (f g : FileAccumulator)
    → file_line line f ≡ some g
    → (g.new_ranges ≡ f.new_ranges) × (g.old_ranges ≡ f.old_ranges)
unfolding file_line path_line old_file_line new_file_line
file_line-ranges line f g e = ground arith

file_line-HasRanges :
    (line : Text) (f g : FileAccumulator) → file_line line f ≡ some g → HasRanges f → HasRanges g
file_line-HasRanges line f g e (new, old) =
    let (a, b) = file_line-ranges line f g e in
    (subst (All IsRange) (sym a) new, subst (All IsRange) (sym b) old)

flush-IsParser : (p : Parser) → IsParser p → IsParser (flush p)
unfolding flush
flush-IsParser p k = record {
  files =
      append_finish-All p.changes (commit_hunk p.hunk p.current) k.files
        (commit_hunk-HasRanges p.hunk p.current k.open_hunk k.accumulated);
  accumulated = (tt, tt);
  open_hunk = tt;
}

start_file-IsParser :
    (origin line : Text) (found : Option (Text × Text)) (p : Parser)
    → IsParser p
    → IsParser (start_file origin line found p)
unfolding start_file
start_file-IsParser origin line none p k = record {
  files = k.files;
  accumulated = k.accumulated;
  open_hunk = k.open_hunk;
}
start_file-IsParser origin line (some (old, new)) p k = record {
  files = k.files;
  accumulated = k.accumulated;
  open_hunk = k.open_hunk;
}

hunk_line-IsParser :
    (found : Option ((ℕ × Option ℕ) × (ℕ × Option ℕ))) (line : Text) (p : Parser)
    → IsParser p
    → IsParser (hunk_line found line p)
unfolding hunk_line
hunk_line-IsParser none line p k = record {
  files = k.files;
  accumulated = k.accumulated;
  open_hunk = body_line-IsOpen line p.hunk k.open_hunk;
}
hunk_line-IsParser (some found) line p k = record {
  files = k.files;
  accumulated = commit_hunk-HasRanges p.hunk p.current k.open_hunk k.accumulated;
  open_hunk = from_match-IsHunk found;
}

other_line-IsParser :
    (digit_of : ℕ → Option ℕ) (line : Text) (p : Parser)
    → IsParser p
    → IsParser (other_line digit_of (file_line line p.current) line p)
unfolding other_line
other_line-IsParser digit_of line p k = elim (Option-cases (file_line line p.current)) [
  | inl e ↦ rw e (hunk_line-IsParser (hunk_header digit_of line) line p k)
  | inr (f, e) ↦ rw e (record {
    files = k.files;
    accumulated = file_line-HasRanges line p.current f e k.accumulated;
    open_hunk = k.open_hunk;
  })
]

step-IsParser :
    (digit_of : ℕ → Option ℕ) (origin line : Text) (p : Parser)
    → IsParser p
    → IsParser (step digit_of origin line p)
unfolding step
step-IsParser digit_of origin line p k =
    elim (Bool-cases (starts_with (codes "diff --git ") line)) [
      | inl e ↦
          rw e (start_file-IsParser origin line (diff_header line) (flush p) (flush-IsParser p k))
      | inr e ↦ rw e (other_line-IsParser digit_of line p k)
    ]

parse_lines-IsParser :
    (digit_of : ℕ → Option ℕ) (origin : Text) (lines : List Text) (p : Parser)
    → IsParser p
    → IsParser (parse_lines digit_of origin lines p)
unfolding parse_lines
parse_lines-IsParser digit_of origin [] p k = k
parse_lines-IsParser digit_of origin (raw ∷ rest) p k =
    parse_lines-IsParser digit_of origin rest _ (step-IsParser digit_of origin _ p k)

with_empty_warning-files :
    (origin text : Text) (r : DiffParseResult) → (with_empty_warning origin text r).files ≡ r.files
unfolding with_empty_warning
with_empty_warning-files origin text r = ground arith

-- For every text, each file that `parse_unified_diff` returns has, on both sides, ranges that
-- `LineRange` accepts (they start at 1 or later and do not end before they start), in ascending
-- order, with at least one unchanged line between two of them.
pub parse_unified_diff-Separated :
    (digit_of : ℕ → Option ℕ) (origin text : Text)
    → All HasSeparatedRanges (parse_unified_diff digit_of origin text).files
unfolding parse_unified_diff
parse_unified_diff-Separated digit_of origin text =
    let start : IsParser initial = record { files = tt; accumulated = (tt, tt); open_hunk = tt } in
    let p = parse_lines digit_of origin (split_lines text) initial in
    let k =
      flush-IsParser p (parse_lines-IsParser digit_of origin (split_lines text) initial start) in
    rw with_empty_warning-files k.files
