-- ===== src/Examples/Texts.antt =====
-- Runs of the text operations at one input each.
use netflix_flaky_test_triag.Base.{
  ◌≡◌, refl, true, false, codes, text_eq, strip, strip_of, replace, contains, ends_with, join,
  drop_while, decimal, split_lines, ◌∷◌, [], ◌++◌,
}
use netflix_flaky_test_triag.Identity.Similarity.{edit_distance}
use netflix_flaky_test_triag.Identity.Fingerprint.{normalize_dotted, split_parameters}
use netflix_flaky_test_triag.Policy.Ownership.{glob_matches}
use netflix_flaky_test_triag.Detect.Footprint.{drop_dot_slash}

kitten : edit_distance (codes "kitten") (codes "sitting") ≡ 3
unfolding edit_distance text_eq
kitten = refl

glob_test : glob_matches (codes "tests/**/*.py") (codes "tests/unit/deep/test_a.py") true ≡ true
unfolding glob_matches
glob_test = refl

segment_test : glob_matches (codes "tests/*.py") (codes "tests/unit/test_a.py") true ≡ false
unfolding glob_matches
segment_test = refl

dotted_test : normalize_dotted (codes "com.example.OrderTest") ≡ codes "com/example::OrderTest"
unfolding normalize_dotted strip strip_of replace contains ends_with join drop_while drop_dot_slash
dotted_test = refl

parameters_test : split_parameters (codes "test_x[a[0]=1]") ≡ (codes "test_x", codes "a[0]=1")
unfolding split_parameters strip
parameters_test = refl

strip_test : strip (codes "  a b ") ≡ codes "a b"
unfolding strip
strip_test = refl

decimal_test : decimal 1024 ≡ codes "1024"
unfolding decimal
decimal_test = refl

contains_test : contains (codes "pull") (codes "error pulling image") ≡ true
unfolding contains
contains_test = refl

split_lines_test :
    split_lines (codes "ab" ++ 13 ∷ 10 ∷ codes "c" ++ 10 ∷ []) ≡ codes "ab" ∷ codes "c" ∷ []
unfolding split_lines
split_lines_test = refl
