-- ===== src/Ingest/Diff/Kept.antt =====
-- ingest/diff.py: the `diff --git` lines of a text, and the files and warnings they lead to.
use netflix_flaky_test_triag.Base.{
  ℕ, ◌+◌, ◌≤◌, ◌≡◌, refl, Option, none, some, List, [], ◌∷◌, Text, codes, starts_with, arith,
  Bool-cases, Option-cases, inl, inr, length, length-append, split_lines, reverse, drop_while, take,
  ap, ◌==◌, if◌then◌else◌,
}
use netflix_flaky_test_triag.Ingest.Headers.{diff_header}
use netflix_flaky_test_triag.Ingest.Hunks.{FileAccumulator, finish, HunkState, commit}
use netflix_flaky_test_triag.Ingest.Diff.{
  Parser, initial, commit_hunk, append_option, flush, start_file, old_file_line, new_file_line,
  path_line, file_line, hunk_line, other_line, step, parse_lines, with_empty_warning,
  parse_unified_diff, DiffParseResult,
}

abbrev pub without_returns : Text → Text
without_returns raw = reverse (drop_while (λ c. c == b'\r') (reverse raw))

abbrev one_if : {A : Type 0} → Option A → ℕ
one_if none = 0
one_if (some a) = 1

abbrev none_if : {A : Type 0} → Option A → ℕ
none_if none = 1
none_if (some a) = 0

-- 1 for a `diff --git` line whose paths can be read, and for one whose paths can not.
abbrev read_header : Text → ℕ
read_header line = if starts_with (codes "diff --git ") line then one_if (diff_header line) else 0

abbrev bad_header : Text → ℕ
bad_header line = if starts_with (codes "diff --git ") line then none_if (diff_header line) else 0

-- How many of the lines of a diff are such lines.
abbrev pub headers_read : List Text → ℕ
headers_read [] = 0
headers_read (raw ∷ rest) = read_header (without_returns raw) + headers_read rest

abbrev pub headers_bad : List Text → ℕ
headers_bad [] = 0
headers_bad (raw ∷ rest) = bad_header (without_returns raw) + headers_bad rest

-- The files that are certain after the lines so far.
abbrev certain : Parser → ℕ
certain p = length p.changes + one_if p.current.path

commit_hunk-path : (o : Option HunkState) (f : FileAccumulator) → (commit_hunk o f).path ≡ f.path
unfolding commit
commit_hunk-path none f = refl
commit_hunk-path (some h) f = ground arith

length-append_option :
    {A : Type 0} (xs : List A) (o : Option A) → length (append_option xs o) ≡ length xs + one_if o
length-append_option xs none = omega arith
length-append_option xs (some x) = length-append xs (x ∷ [])

one_if-finish : (f : FileAccumulator) → one_if (finish f) ≡ one_if f.path
unfolding finish
one_if-finish f = elim (Option-cases f.path) [ inl e ↦ rw e refl | inr (path, e) ↦ rw e refl ]

flush-certain : (p : Parser) → length (flush p).changes ≡ certain p
unfolding flush
flush-certain p =
    let f = commit_hunk p.hunk p.current in
    ground (
      arith,
      length-append_option p.changes (finish f),
      one_if-finish f,
      commit_hunk-path p.hunk p.current,
    )

file_line-path :
    (line : Text) (f g : FileAccumulator)
    → file_line line f ≡ some g
    → one_if f.path ≤ one_if g.path
unfolding file_line path_line old_file_line new_file_line
file_line-path line f g e = ground arith

other_line-certain :
    (digit_of : ℕ → Option ℕ) (line : Text) (p : Parser)
    → certain p ≤ certain (other_line digit_of (file_line line p.current) line p)
unfolding other_line hunk_line
other_line-certain digit_of line p = elim (Option-cases (file_line line p.current)) [
  | inl e ↦ rw e (ground (arith, commit_hunk-path p.hunk p.current))
  | inr (f, e) ↦ rw e (omega (arith, file_line-path line p.current f e))
]

other_line-warnings :
    (digit_of : ℕ → Option ℕ) (o : Option FileAccumulator) (line : Text) (p : Parser)
    → (other_line digit_of o line p).warnings ≡ p.warnings
unfolding other_line hunk_line
other_line-warnings digit_of o line p = ground arith

start_file_kept :
    (origin line : Text) (found : Option (Text × Text)) (p : Parser)
    → (length p.changes + one_if found ≤ certain (start_file origin line found p))
      × (length p.warnings + none_if found ≡ length (start_file origin line found p).warnings)
unfolding start_file
start_file_kept origin line none p = (
  omega arith,
  omega (
    arith,
    length-append p.warnings (
        record { origin = origin; reason = codes "bad_diff_header"; detail = some (take 200 line) }
        ∷ []),
  ),
)
start_file_kept origin line (some (old, new)) p = (omega arith, omega arith)

flush-warnings : (p : Parser) → (flush p).warnings ≡ p.warnings
unfolding flush
flush-warnings p = refl

step_kept :
    (digit_of : ℕ → Option ℕ) (origin line : Text) (p : Parser)
    → (certain p + read_header line ≤ certain (step digit_of origin line p))
      × (length p.warnings + bad_header line ≡ length (step digit_of origin line p).warnings)
unfolding step
step_kept digit_of origin line p = elim (Bool-cases (starts_with (codes "diff --git ") line)) [
  | inl e ↦
      let (a, b) = start_file_kept origin line (diff_header line) (flush p) in
      rw e (omega (arith, a, flush-certain p), omega (arith, ap length (flush-warnings p), b))
  | inr e ↦ rw e (
    omega (arith, other_line-certain digit_of line p),
    omega (arith, ap length (other_line-warnings digit_of (file_line line p.current) line p)),
  )
]

parse_lines_kept :
    (digit_of : ℕ → Option ℕ) (origin : Text) (lines : List Text) (p : Parser)
    → (certain p + headers_read lines ≤ certain (parse_lines digit_of origin lines p))
      × (length p.warnings + headers_bad lines
          ≡ length (parse_lines digit_of origin lines p).warnings)
unfolding parse_lines
parse_lines_kept digit_of origin [] p = (omega arith, omega arith)
parse_lines_kept digit_of origin (raw ∷ rest) p =
    let (a, b) = step_kept digit_of origin (without_returns raw) p in
    let (c, d) =
      parse_lines_kept digit_of origin rest (step digit_of origin (without_returns raw) p) in
    (omega (arith, a, c), omega (arith, b, d))

with_empty_warning_kept :
    (origin text : Text) (r : DiffParseResult)
    → ((with_empty_warning origin text r).files ≡ r.files)
      × (length r.warnings ≤ length (with_empty_warning origin text r).warnings)
      × (1 ≤ length r.files → (with_empty_warning origin text r).warnings ≡ r.warnings)
unfolding with_empty_warning
with_empty_warning_kept origin text r = ground arith

-- For every text, `parse_unified_diff` returns a file at least for each `diff --git` line whose
-- paths can be read and a warning at least for each such line whose paths can not; if it returns a
-- file, the warnings are exactly those.
pub parse_unified_diff-keeps :
    (digit_of : ℕ → Option ℕ) (origin text : Text)
    → let r = parse_unified_diff digit_of origin text in
      (headers_read (split_lines text) ≤ length r.files)
      × (headers_bad (split_lines text) ≤ length r.warnings)
      × (1 ≤ length r.files → length r.warnings ≡ headers_bad (split_lines text))
unfolding parse_unified_diff
parse_unified_diff-keeps digit_of origin text =
    let p = parse_lines digit_of origin (split_lines text) initial in
    let (a, b) = parse_lines_kept digit_of origin (split_lines text) initial in
    let found : DiffParseResult = record {
      files = (flush p).changes;
      warnings = (flush p).warnings;
    } in
    let (same, more, exact) = with_empty_warning_kept origin text found in
    let known = ap length (flush-warnings p) in
    (
      omega (arith, a, flush-certain p, ap length same),
      omega (arith, b, known, more),
      λ h. omega (arith, b, known, ap length (exact (omega (arith, h, ap length same)))),
    )
