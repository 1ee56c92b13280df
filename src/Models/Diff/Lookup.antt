-- ===== src/Models/Diff/Lookup.antt =====
-- `change_for` of models.py and the first and the only match.
use netflix_flaky_test_triag.Base.{
  ◌≡◌, Option, none, some, List, [], ◌∷◌, ◌++◌, Text, keep, if◌then◌else◌, append_assoc, append-nil,
  arith,
}
use netflix_flaky_test_triag.Models.Diff.{
  FileChange, change_for, change_loop, only, is_exact, is_suffix, normalize_path,
}

-- The first change whose path is the needle.
abbrev pub first_exact : Text → List FileChange → Option FileChange
first_exact needle [] = none
first_exact needle (c ∷ cs) = if is_exact needle c then some c else first_exact needle cs

-- What the look-up promises: the first exact match, or else the suffix match if there is just one.
abbrev pub best_change : Text → List FileChange → Option FileChange
best_change needle files = elim (first_exact needle files) [
  | some c ↦ some c
  | none ↦ only (keep (is_suffix needle) files)
]

change_loop_lem :
    (needle : Text) (found files : List FileChange)
    → change_loop needle found files ≡ elim (first_exact needle files) [
      | some c ↦ some c
      | none ↦ only (found ++ keep (is_suffix needle) files)
    ]
unfolding change_loop
change_loop_lem needle found [] = rw append-nil
change_loop_lem needle found (c ∷ cs) = ground (
  arith,
  change_loop_lem needle (found ++ c ∷ []) cs,
  change_loop_lem needle found cs,
  append_assoc found (c ∷ []) (keep (is_suffix needle) cs),
)

-- For every list of changes and every path, the look-up returns the first change whose old or new
-- path equals the normalized path, and without one the only change with a matching suffix; with
-- several suffix matches, or with none, it returns nothing.
change_for_lem :
    (files : List FileChange) (path : Text)
    → change_for files path ≡ best_change (normalize_path path) files
unfolding change_for
change_for_lem files path = change_loop_lem (normalize_path path) [] files
