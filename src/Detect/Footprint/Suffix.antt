-- ===== src/Detect/Footprint/Suffix.antt =====
-- `footprint` and `diff_touches_footprint` of detect/footprint.py and the file of the test.
use netflix_flaky_test_triag.Base.{
  ◌≡◌, true, false, Option, List, [], ◌∷◌, ◌++◌, Text, text_in, text_eq_refl, is_empty, arith,
}
use netflix_flaky_test_triag.Runtime.{Runtime}
use netflix_flaky_test_triag.Detect.Footprint.{
  normalize, add_text, add_texts, extract_paths, footprint,
}

text_in-snoc : (t u : Text) (ts : List Text) → text_in t ts ≡ true → text_in t (ts ++ u ∷ []) ≡ true
unfolding text_in
text_in-snoc t u [] h = cc
text_in-snoc t u (x ∷ xs) h = ground (arith, text_in-snoc t u xs)

add_texts-keep :
    (t : Text) (ts seen : List Text) → text_in t seen ≡ true → text_in t (add_texts ts seen) ≡ true
unfolding add_texts add_text
add_texts-keep t [] seen h = h
add_texts-keep t (u ∷ us) seen h =
    add_texts-keep t us (add_text u seen) (ground (arith, text_in-snoc t u seen h))

-- A test file with a name is in the footprint, whatever the traces say.
pub footprint-own :
    {F : Type 0} (rt : Runtime F) (file : Text) (trace message : Option Text)
    → is_empty file ≡ false
    → text_in (normalize file) (footprint rt file trace message) ≡ true
unfolding footprint
footprint-own rt file trace message h =
    add_texts-keep (normalize file) (extract_paths rt true message) _ (
      add_texts-keep (normalize file) (extract_paths rt true trace) _
        (rw h (unfold text_in in rw text_eq_refl)))
