-- ===== src/Ingest/Elements.antt =====
-- ingest/junit.py: XML elements as `iterparse` hands them out, and the readers of their attributes.
use netflix_flaky_test_triag.Base.{
  ℕ, not, ◌||◌, Option, none, some, List, [], ◌∷◌, Text, codes, text_eq, strip, reverse, replace,
  before, contains, if◌then◌else◌, ◌>>=◌,
}
use netflix_flaky_test_triag.Runtime.{Runtime, ℤ}

-- A child of an element, as far as a test case looks at it.
pub record Child : Type 0 where
  pub tag : Text
  pub attributes : List (Text × Text)
  pub text : Option Text

pub record Element : Type 0 where
  pub tag : Text
  pub attributes : List (Text × Text)
  pub text : Option Text
  pub children : List Child

-- `element.get(key)`
abbrev pub get : Text → List (Text × Text) → Option Text
get key [] = none
get key ((k, v) ∷ rest) = if text_eq k key then some v else get key rest

-- The part of a text behind its last closing brace, or all of it.
abbrev pub behind_brace : Text → Text
behind_brace name = reverse (before (codes "}") (reverse name))

-- `_localname`, with the tag a `str`.
unfoldable pub localname : Text → Text
localname name = if contains (codes "}") name then behind_brace name else name

-- `stripped or None`
abbrev pub non_empty : Text → Option Text
non_empty [] = none
non_empty (c ∷ s) = some (c ∷ s)

-- `_clean`
unfoldable pub clean : Option Text → Option Text
clean none = none
clean (some value) = non_empty (strip value)

module _ {F : Type 0} (rt : Runtime F) where
  abbrev pub lower_tag : Text → Text
  lower_tag tag = rt.lower (localname tag)

  -- `_int_or_none`
  unfoldable pub int_or_none : Option Text → Option ℤ
  int_or_none none = none
  int_or_none (some value) = rt.int_of value

  -- The seconds that `_duration_ms` goes on with: a number that is no NaN and not negative.
  unfoldable pub seconds_of : Text → Option F
  seconds_of value = do
    seconds ← rt.float_of (replace b',' b'.' value)
    if not (rt.eq seconds seconds) || rt.lt seconds (rt.of_nat 0) then none else some seconds

  -- `round(seconds * 1000)`, which raises for an infinity: the outer none.
  abbrev pub milliseconds : Option F → Option (Option ℕ)
  milliseconds none = some none
  milliseconds (some seconds) = do
    ms ← rt.round_to_int (rt.mul seconds (rt.of_nat 1000))
    some (some ms)

  -- `_duration_ms`; the outer none is the `OverflowError`.
  unfoldable pub duration_ms : Option Text → Option (Option ℕ)
  unfolding seconds_of
  duration_ms none = some none
  duration_ms (some value) = milliseconds (seconds_of value)
