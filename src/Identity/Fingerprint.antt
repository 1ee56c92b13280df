-- ===== src/Identity/Fingerprint.antt =====
-- identity/fingerprint.py: the parts of a test's identity and their hash.
pub mod Parameters
use netflix_flaky_test_triag.Base.{
  ℕ, ◌≡◌, refl, Bool, true, false, ◌&&◌, ◌||◌, not, Option, none, some, List, [], ◌∷◌, ◌++◌, map,
  Text, codes, length, take, last?, is_empty, all, any, leb, ltb, ◌==◌, contains, ends_with, strip,
  strip_of, replace, join, reverse, drop_while, String, if◌then◌else◌,
}
use netflix_flaky_test_triag.Runtime.{Runtime}
use netflix_flaky_test_triag.Models.Records.{TestIdentity}
use netflix_flaky_test_triag.Detect.Footprint.{drop_dot_slash}

-- The text before the first bracket and the text behind it, if there is one.
split_bracket : Text → Option (Text × Text)
split_bracket [] = none
split_bracket (c ∷ s) =
    let rest = elim (split_bracket s) as (λ _. Option (Text × Text)) [
      | none ↦ none
      | some (b, p) ↦ some (c ∷ b, p)
    ] in
    if c == b'[' then some ([], s) else rest

-- All but the last character, if that one is a closing bracket.
drop_close : Text → Option Text
drop_close [] = none
drop_close (c ∷ []) = if c == b']' then some [] else none
drop_close (c ∷ d ∷ s) = elim (drop_close (d ∷ s)) as (λ _. Option Text) [
  | none ↦ none
  | some t ↦ some (c ∷ t)
]

is_line_feed : ℕ → Bool
is_line_feed c = c == 10

-- `_TRAILING_BRACKET.match` of a stripped name: a dot matches no line feed, the base is the
-- shortest, and the last character closes the parameters.
trailing_bracket : Text → Option (Text × Text)
trailing_bracket s =
    let parts = elim (split_bracket s) as (λ _. Option (Text × Text)) [
      | none ↦ none
      | some (b, p) ↦ elim (drop_close p) as (λ _. Option (Text × Text)) [
        | none ↦ none
        | some t ↦ some (b, t)
      ]
    ] in
    if any is_line_feed s then none else parts

-- `split_parameters`
unfoldable pub split_parameters : Text → Text × Text
unfolding trailing_bracket split_bracket drop_close is_line_feed
split_parameters name =
    let stripped = strip name in
    elim (trailing_bracket stripped) [
      | none ↦ (stripped, [])
      | some (b, p) ↦ if is_empty (strip b) then (stripped, []) else (strip b, strip p)
    ]

-- `_normalize_file_path`
unfoldable pub normalize_file_path : Text → Text
normalize_file_path path =
    strip_of (λ c. c == b'/') (drop_dot_slash (replace b'\\' b'/' (strip path)))

-- `text.split(sep)` at every character that the test holds of, after a reversed part.
split_from : (ℕ → Bool) → Text → Text → List Text
split_from sep acc [] = reverse acc ∷ []
split_from sep acc (c ∷ s) =
    let cut = reverse acc ∷ split_from sep [] s in
    let more = split_from sep (c ∷ acc) s in if sep c then cut else more

is_word : ℕ → Bool
is_word c =
    (leb b'A' c && leb c b'Z')
    || (leb b'a' c && leb c b'z')
    || (leb b'0' c && leb c b'9')
    || c == b'_'

-- `[A-Za-z0-9_]*$`, which a final line feed may follow.
word_tail : Text → Bool
word_tail [] = true
word_tail (c ∷ []) = is_word c || c == 10
word_tail (c ∷ d ∷ s) = is_word c && word_tail (d ∷ s)

-- `_CLASS_SEGMENT.match`
unfoldable pub is_class_segment : Text → Bool
unfolding word_tail is_word
is_class_segment [] = false
is_class_segment (c ∷ s) = leb b'A' c && leb c b'Z' && word_tail s

abbrev source_suffixes : List Text
source_suffixes =
    map codes (".py" ∷ ".js" ∷ ".jsx" ∷ ".ts" ∷ ".tsx" ∷ ".java" ∷ ".kt" ∷ ".go" ∷ ".rb" ∷ [])

is_dot : ℕ → Bool
is_dot c = c == b'.'

all_but_last : List Text → List Text
all_but_last [] = []
all_but_last (s ∷ []) = []
all_but_last (s ∷ t ∷ ts) = s ∷ all_but_last (t ∷ ts)

last_text : List Text → Text
last_text ss = elim (last? ss) [ none ↦ [] | some s ↦ s ]

-- `_normalize_dotted`
unfoldable pub normalize_dotted : Text → Text
unfolding normalize_file_path split_from all_but_last last_text is_class_segment is_dot
normalize_dotted classname =
    let cleaned = strip_of is_dot (strip classname) in
    let segments = split_from is_dot [] cleaned in
    if is_empty cleaned
    then []
    else if contains (codes "/") cleaned || any (λ x. ends_with x cleaned) source_suffixes
    then normalize_file_path cleaned
    else if ltb 1 (length segments) && is_class_segment (last_text segments)
    then join (codes "/") (all_but_last segments) ++ codes "::" ++ last_text segments
    else join (codes "/") segments

-- `_class_qualifier`
unfoldable pub class_qualifier : Text → Text
unfolding split_from last_text is_class_segment is_dot
class_qualifier classname =
    let cleaned = strip_of is_dot (strip classname) in
    let tail = last_text (split_from (λ c. c == b'.' || c == b'/') [] cleaned) in
    if is_empty cleaned then [] else if is_class_segment tail then tail else []

-- `normalize_suite_path`
unfoldable pub normalize_suite_path : Text → Text → Option Text → Text
unfolding normalize_file_path normalize_dotted class_qualifier
normalize_suite_path classname suite_path file_path =
    let fallback =
      if is_empty classname then normalize_file_path suite_path else normalize_dotted classname in
    let qualifier = class_qualifier classname in
    elim file_path [
      | none ↦ fallback
      | some p ↦
          if is_empty p
          then fallback
          else if is_empty qualifier
          then normalize_file_path p
          else normalize_file_path p ++ codes "::" ++ qualifier
    ]

-- `"\x1f".join((suite_path, test_name, parameters))`
unfoldable pub payload : Text → Text → Text → Text
payload suite_path test_name parameters = suite_path ++ 0x1f ∷ (test_name ++ 0x1f ∷ parameters)

-- `fingerprint`
unfoldable pub fingerprint : {F : Type 0} → Runtime F → Text → Text → Text → Text
fingerprint rt suite_path test_name parameters =
    take 16 (rt.sha256 (payload suite_path test_name parameters))

-- The fields of `TestCaseResult` that decide the identity.
pub record CaseNames : Type 0 where
  pub name : Text
  pub classname : Text
  pub suite_path : Text
  pub file_path : Option Text

-- `identity_for`
unfoldable pub identity_for : {F : Type 0} → Runtime F → CaseNames → TestIdentity
unfolding split_parameters normalize_suite_path normalize_file_path fingerprint
identity_for rt c =
    let (test_name, parameters) = split_parameters c.name in
    let suite_path = normalize_suite_path c.classname c.suite_path c.file_path in
    record {
      fingerprint = fingerprint rt suite_path test_name parameters;
      suite_path = suite_path;
      test_name = test_name;
      parameters = parameters;
      file_path = elim c.file_path [
        | none ↦ none
        | some p ↦ if is_empty p then none else some (normalize_file_path p)
      ];
    }
