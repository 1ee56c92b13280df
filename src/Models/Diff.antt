-- ===== src/Models/Diff.antt =====
-- models.py: line ranges, changed files and the look-up of a change by path.
pub mod Lookup
use netflix_flaky_test_triag.Base.{
  ℕ, Bool, true, false, ◌&&◌, ◌||◌, Option, none, some, List, [], ◌∷◌, ◌++◌, Text, codes, text_eq,
  text_in, any, leb, ◌==◌, ends_with, starts_with, drop_while, replace, if◌then◌else◌, or_else, map,
}
use netflix_flaky_test_triag.Models.Enums.{ChangeType}

pub record LineRange : Type 0 where
  pub start : ℕ
  pub end : ℕ

-- `LineRange(start, end)`: its bounds and its order are validated.
unfoldable pub line_range : ℕ → ℕ → Option LineRange
line_range s e =
    if leb 1 s && leb 1 e && leb s e then some (record { start = s; end = e }) else none

-- `LineRange.contains`
unfoldable pub in_range : LineRange → ℕ → Bool
in_range r line = leb r.start line && leb line r.end

-- `LineRange.overlaps`
unfoldable pub overlaps : LineRange → LineRange → Bool
overlaps r s = leb r.start s.end && leb s.start r.end

pub record FileChange : Type 0 where
  pub path : Text
  pub change_type : ChangeType
  pub old_path : Option Text
  pub binary : Bool
  pub new_ranges : List LineRange
  pub old_ranges : List LineRange

-- `str.removeprefix` of a two-character prefix such as `a/`.
remove_prefix : ℕ → ℕ → Text → Text
remove_prefix a b (c ∷ d ∷ s) = if c == a && d == b then s else c ∷ d ∷ s
remove_prefix a b s = s

-- `_normalize_path`
unfoldable pub normalize_path : Text → Text
unfolding remove_prefix
normalize_path path =
    let stripped = drop_while (λ c. c == b'.' || c == b'/') (replace b'\\' b'/' path) in
    remove_prefix b'b' b'/' (remove_prefix b'a' b'/' stripped)

-- The normalized candidates of one change.
unfoldable pub candidates : FileChange → List Text
candidates c =
    normalize_path c.path ∷ elim c.old_path [ none ↦ [] | some p ↦ normalize_path p ∷ [] ]

unfoldable pub is_exact : Text → FileChange → Bool
is_exact needle c = text_in needle (candidates c)

unfoldable pub is_suffix : Text → FileChange → Bool
is_suffix needle c = any (λ p. ends_with (codes "/" ++ needle) p) (candidates c)

abbrev only : List FileChange → Option FileChange
only (c ∷ []) = some c
only _ = none

-- The loop of `DiffSummary.change_for`, with the suffix matches found so far.
change_loop : Text → List FileChange → List FileChange → Option FileChange
change_loop needle suffix_matches [] = only suffix_matches
change_loop needle suffix_matches (c ∷ cs) =
    let rest =
      change_loop needle (if is_suffix needle c then suffix_matches ++ c ∷ [] else suffix_matches)
        cs in
    if is_exact needle c then some c else rest

-- `DiffSummary.change_for`
unfoldable pub change_for : List FileChange → Text → Option FileChange
unfolding change_loop normalize_path
change_for files path = change_loop (normalize_path path) [] files

-- `DiffSummary.touches`
unfoldable pub touches : List FileChange → Text → Bool
touches files path = elim (change_for files path) [ none ↦ false | some _ ↦ true ]
