-- ===== src/Ingest/Headers.antt =====
-- ingest/diff.py: the regular expressions on header lines, and the paths in them.
use netflix_flaky_test_triag.Base.{
  ℕ, ◌+◌, ◌*◌, Option, none, some, List, [], ◌∷◌, reverse, Text, codes, strip, strip_of, ◌==◌,
  if◌then◌else◌, or_else, ◌>>=◌,
}

-- The second way, where the first gives nothing.
abbrev pub or_try : {A : Type 0} → Option A → Option A → Option A
or_try none b = b
or_try (some a) b = some a

-- The rest of a text behind a prefix.
abbrev pub behind : Text → Text → Option Text
behind [] s = some s
behind (p ∷ ps) [] = none
behind (p ∷ ps) (c ∷ s) = let rest = behind ps s in if p == c then rest else none

-- `.+` up to the end of a line: what is left, if it is not empty.
abbrev pub some_text : Text → Option Text
some_text [] = none
some_text (c ∷ s) = some (c ∷ s)

-- `^prefix(?P<path>.+)$`, as `_OLD_FILE`, `_NEW_FILE`, `_RENAME_FROM` and `_RENAME_TO` have it.
unfoldable pub path_behind : Text → Text → Option Text
path_behind prefix line = do rest ← behind prefix line; some_text rest

-- `(?:b/)?(?P<new>.+)$`: the prefix is given back when nothing would be left.
unfoldable pub new_path : Text → Option Text
new_path s = or_try (path_behind (codes "b/") s) (some_text s)

-- `.+? (?:b/)?(?P<new>.+)$` after the reversed beginning of the old path: it ends at the first
-- space that a new path follows.
unfoldable pub old_path_from : Text → Text → Option (Text × Text)
unfolding new_path
old_path_from taken [] = none
old_path_from taken (c ∷ s) =
    let longer = old_path_from (c ∷ taken) s in
    let here = or_try (do path ← new_path s; some (reverse taken, path)) longer in
    if c == b' ' then here else longer

-- The old path has one code point at least.
unfoldable pub paths_of : Text → Option (Text × Text)
unfolding old_path_from
paths_of [] = none
paths_of (c ∷ s) = old_path_from (c ∷ []) s

-- `_DIFF_HEADER.match`: the old and the new path of a `diff --git` line.
unfoldable pub diff_header : Text → Option (Text × Text)
unfolding paths_of
diff_header line = do
  rest ← behind (codes "diff --git ") line
  or_try (do s ← behind (codes "a/") rest; paths_of s) (paths_of rest)

-- The prefixes that `_strip_prefix` tries, in turn.
unfoldable pub without_prefix : List Text → Text → Text
without_prefix [] path = path
without_prefix (prefix ∷ prefixes) path =
    or_else (behind prefix path) (without_prefix prefixes path)

-- `_strip_prefix`
unfoldable pub strip_prefix : Text → Text
unfolding without_prefix strip
strip_prefix path =
    without_prefix (codes "a/" ∷ codes "b/" ∷ codes "./" ∷ [])
      (strip_of (λ c. c == b'"') (strip path))

-- `digit_of` is the value of a decimal digit, as `\d` and `int` know the digits of Unicode.
module _ (digit_of : ℕ → Option ℕ) where
  -- The value of a greedy `\d*`, after the value so far, and the rest.
  unfoldable pub digits_from : ℕ → Text → ℕ × Text
  digits_from value [] = (value, [])
  digits_from value (c ∷ s) = elim (digit_of c) [
    | none ↦ (value, c ∷ s)
    | some d ↦ digits_from (value * 10 + d) s
  ]

  -- `\d+`
  unfoldable pub number : Text → Option (ℕ × Text)
  unfolding digits_from
  number [] = none
  number (c ∷ s) = do d ← digit_of c; some (digits_from d s)

  -- `(?:,(?P<count>\d+))?`
  unfoldable pub optional_count : Text → Option ℕ × Text
  unfolding number
  optional_count s = elim (do rest ← behind (codes ",") s; number rest) [
    | none ↦ (none, s)
    | some (n, rest) ↦ (some n, rest)
  ]

  -- `_HUNK_HEADER.match`: the start and the count of the old side and of the new side.
  unfoldable pub hunk_header : Text → Option ((ℕ × Option ℕ) × (ℕ × Option ℕ))
  unfolding optional_count number
  hunk_header line = do
    rest ← behind (codes "@@ -") line
    (old_start, rest) ← number rest
    let (old_count, rest) = optional_count rest
    rest ← behind (codes " +") rest
    (new_start, rest) ← number rest
    let (new_count, rest) = optional_count rest
    rest ← behind (codes " @@") rest
    some ((old_start, old_count), (new_start, new_count))

-- `_count_or_default`
abbrev pub count_or_default : Option ℕ → ℕ
count_or_default value = or_else value 1
