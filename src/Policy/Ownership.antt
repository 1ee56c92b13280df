-- ===== src/Policy/Ownership.antt =====
-- policy/ownership.py: CODEOWNERS rules, the glob subset, and the owner of a test.
pub mod Rules
use netflix_flaky_test_triag.Base.{
  ℕ, ◌≡◌, refl, zero, suc, Bool, true, false, ◌&&◌, ◌||◌, not, Option, none, some, List, [], ◌∷◌,
  ◌++◌, Text, codes, text_eq, is_empty, length, leb, ltb, ◌==◌, starts_with, ends_with, contains,
  drop_while, strip, replace, join, split_lines, is_space, reverse, if◌then◌else◌,
}
use netflix_flaky_test_triag.Runtime.{Runtime}
use netflix_flaky_test_triag.Policy.Owners.{OwnerSource, Owner, unresolved_owner}

pub record Rule : Type 0 where
  pub pattern : Text
  pub owners : List Text

-- `_COMMENT.sub("", line)`: up to the first `#`.
cut_comment : Text → Text
cut_comment [] = []
cut_comment (c ∷ s) = let rest = c ∷ cut_comment s in if c == b'#' then [] else rest

-- `line.split()`, after the reversed beginning of a word.
words_from : Text → Text → List Text
words_from acc [] = if is_empty acc then [] else reverse acc ∷ []
words_from acc (c ∷ s) =
    let gap = words_from [] s in
    let word = reverse acc ∷ words_from [] s in
    let more = words_from (c ∷ acc) s in
    if is_space c then (if is_empty acc then gap else word) else more

rule_of : List Text → Option Rule
rule_of (pattern ∷ owner ∷ owners) = some (record { pattern = pattern; owners = owner ∷ owners })
rule_of _ = none

parse_lines : List Text → List Rule
parse_lines [] = []
parse_lines (l ∷ ls) =
    let rest = parse_lines ls in
    elim (rule_of (words_from [] (strip (cut_comment l)))) [ none ↦ rest | some r ↦ r ∷ rest ]

-- `CodeOwners.parse`
unfoldable pub parse : Text → List Rule
unfolding parse_lines rule_of words_from cut_comment strip split_lines is_space
parse text = parse_lines (split_lines text)

-- The parts of `re.split(r"(\*\*/|\*\*|\*)", pattern)`.
pub data GlobPart : Type 0 where
  dirs anything segment : GlobPart
  literal : ℕ → GlobPart

-- The parts from left to right; a literal run is a part for each of its characters.
unfoldable pub glob_parts : Text → List GlobPart
glob_parts [] = []
glob_parts (c ∷ []) = (if c == b'*' then GlobPart.segment else GlobPart.literal c) ∷ []
glob_parts (c ∷ d ∷ []) =
    if c == b'*' && d == b'*'
    then GlobPart.anything ∷ []
    else (if c == b'*' then GlobPart.segment else GlobPart.literal c) ∷ glob_parts (d ∷ [])
glob_parts (c ∷ d ∷ e ∷ s) =
    let three = GlobPart.dirs ∷ glob_parts s in
    let two = GlobPart.anything ∷ glob_parts (e ∷ s) in
    let one =
      (if c == b'*' then GlobPart.segment else GlobPart.literal c) ∷ glob_parts (d ∷ e ∷ s) in
    if c == b'*' && d == b'*' then (if e == b'/' then three else two) else one

-- `[^/]*` and then the rest.
star : (Text → Bool) → Text → Bool
star k [] = k []
star k (c ∷ s) = k (c ∷ s) || (not (c == b'/') && star k s)

-- `.*` and then the rest; a dot matches no line feed.
dot_star : (Text → Bool) → Text → Bool
dot_star k [] = k []
dot_star k (c ∷ s) = k (c ∷ s) || (not (c == 10) && dot_star k s)

-- `(?:[^/]+/)*` and then the rest; `inside` says that a directory's name has begun.
dirs_star : (Text → Bool) → Bool → Text → Bool
dirs_star k inside [] = not inside && k []
dirs_star k inside (c ∷ s) =
    (not inside && k (c ∷ s))
    || (if c == b'/' then inside && dirs_star k false s else dirs_star k true s)

-- The expression that `_glob_matches` builds, at the front of a text, and then `k`.
glob_front : List GlobPart → (Text → Bool) → Text → Bool
glob_front [] k s = k s
glob_front (GlobPart.literal c ∷ ps) k [] = false
glob_front (GlobPart.literal c ∷ ps) k (d ∷ s) = c == d && glob_front ps k s
glob_front (GlobPart.segment ∷ ps) k s = star (glob_front ps k) s
glob_front (GlobPart.anything ∷ ps) k s = dot_star (glob_front ps k) s
glob_front (GlobPart.dirs ∷ ps) k s = dirs_star (glob_front ps k) false s

-- `$`: the end, or a line feed before it.
at_end : Text → Bool
at_end [] = true
at_end (c ∷ []) = c == 10
at_end (c ∷ d ∷ s) = false

-- `re.search(f"(^|/){expression}$", path)`, from a place behind the start.
search_from : List GlobPart → Text → Bool
search_from ps [] = false
search_from ps (c ∷ s) = (c == b'/' && glob_front ps at_end s) || search_from ps s

-- `_glob_matches`
unfoldable pub glob_matches : Text → Text → Bool → Bool
unfolding glob_parts glob_front star dot_star dirs_star at_end search_from
glob_matches pattern path anchored =
    let ps = glob_parts pattern in
    glob_front ps is_empty path
    || (not anchored && (glob_front ps at_end path || search_from ps path))

is_slash : ℕ → Bool
is_slash c = c == b'/'

-- The branches of `_matches` on a pattern with no leading slash.
matches_cleaned : Text → Text → Bool → Bool
matches_cleaned cleaned path anchored =
    if ends_with (codes "/") cleaned
    then (if anchored
        then starts_with cleaned path
        else contains (codes "/" ++ cleaned) (codes "/" ++ path))
    else if not (contains (codes "*") cleaned)
    then text_eq path cleaned
      || starts_with (cleaned ++ codes "/") path
      || (not anchored
          && (ends_with (codes "/" ++ cleaned) path
              || contains (codes "/" ++ cleaned ++ codes "/") (codes "/" ++ path)))
    else glob_matches cleaned path anchored

-- `_matches`
unfoldable pub matches : Text → Text → Bool
unfolding matches_cleaned glob_matches is_slash strip starts_with ends_with contains drop_while
    text_eq
matches pattern path =
    let cleaned = strip pattern in
    if is_empty cleaned
    then false
    else if text_eq cleaned (codes "*")
    then true
    else matches_cleaned (drop_while is_slash cleaned) path (starts_with (codes "/") cleaned)

-- The loop of `owners_for`: the last rule that matches wins.
owners_from : List Text → List Rule → Text → List Text
owners_from matched [] target = matched
owners_from matched (r ∷ rs) target =
    owners_from (if matches r.pattern target then r.owners else matched) rs target

-- `path.replace("\\", "/").lstrip("./")`
unfoldable pub target_of : Text → Text
target_of path = drop_while (λ c. c == b'.' || c == b'/') (replace b'\\' b'/' path)

-- `CodeOwners.owners_for`
unfoldable pub owners_for : List Rule → Text → List Text
unfolding owners_from target_of
owners_for rules path = owners_from [] rules (target_of path)

-- `last_committer`: nothing if git did not run, failed or named nobody.
unfoldable pub last_committer : {F : Type 0} → Runtime F → Text → Option Text
last_committer rt path = elim (rt.git_log path) [
  | none ↦ none
  | some (code, out) ↦ if not (code == 0) || is_empty (strip out) then none else some (strip out)
]

-- `resolve_owner`
unfoldable pub resolve_owner : {F : Type 0} → Runtime F → Text → Option (List Rule) → Bool → Owner
resolve_owner rt file_path codeowners allow_git =
    let by_git = elim (last_committer rt file_path) as (λ _. Owner) [
      | none ↦ unresolved_owner
      | some name ↦ record { name = name; source = OwnerSource.last_committer }
    ] in
    let fallback = if allow_git then by_git else unresolved_owner in
    let declared : List Text = elim codeowners [
      | none ↦ []
      | some rules ↦ owners_for rules file_path
    ] in
    if is_empty file_path
    then unresolved_owner
    else if is_empty declared
    then fallback
    else record { name = join (codes ", ") declared; source = OwnerSource.codeowners }
