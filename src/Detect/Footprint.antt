-- ===== src/Detect/Footprint.antt =====
-- detect/footprint.py: the source files that a failure touched, and whether a diff touches them.
-- The matches of `_PATH_TOKEN` in a line are the runtime's.
pub mod Suffix
use netflix_flaky_test_triag.Base.{
  ℕ, Bool, true, false, ◌&&◌, ◌||◌, not, Option, none, some, List, [], ◌∷◌, ◌++◌, map, Text, codes,
  text_eq, text_in, is_empty, any, leb, ◌==◌, contains, ends_with, strip, replace, split_lines,
  if◌then◌else◌,
}
use netflix_flaky_test_triag.Runtime.{Runtime}

abbrev noise_markers : List Text
noise_markers = map codes (
    "site-packages/" ∷ "dist-packages/" ∷ "node_modules/" ∷ "/usr/lib/" ∷ "/usr/local/lib/"
    ∷ "_pytest/" ∷ "pluggy/" ∷ "unittest/case.py" ∷ "runpy.py" ∷ "asyncio/base_events.py"
    ∷ "jest-circus/" ∷ "jest-runtime/" ∷ "jest-each/" ∷ "internal/process/" ∷ "internal/modules/"
    ∷ "playwright-core/" ∷ "/gems/" ∷ "vendor/bundle/" ∷ [])

abbrev noise_line_markers : List Text
noise_line_markers = map codes (
    "java.base/" ∷ "java.util." ∷ "java.lang.reflect" ∷ "java.lang.thread" ∷ "jdk.internal"
    ∷ "jdk.proxy" ∷ "sun.nio" ∷ "sun.reflect" ∷ "org.junit." ∷ "org.gradle."
    ∷ "org.apache.maven.surefire" ∷ "org.testng." ∷ "kotlin.coroutines" ∷ [])

-- `while normalized.startswith("./"): normalized = normalized[2:]`
unfoldable pub drop_dot_slash : Text → Text
drop_dot_slash (c ∷ d ∷ s) = if c == b'.' && d == b'/' then drop_dot_slash s else c ∷ d ∷ s
drop_dot_slash s = s

-- `normalize`
unfoldable pub normalize : Text → Text
unfolding drop_dot_slash
normalize path = drop_dot_slash (replace b'\\' b'/' (strip path))

-- `is_project_frame`: both branches of the source test the same condition.
unfoldable pub is_project_frame : {F : Type 0} → Runtime F → Text → Bool
is_project_frame rt path =
    let candidate = rt.lower (normalize path) in
    if is_empty candidate then false else not (any (λ m. contains m candidate) noise_markers)

-- `is_noise_line`
unfoldable pub is_noise_line : {F : Type 0} → Runtime F → Text → Bool
is_noise_line rt line = any (λ m. contains m (rt.lower line)) noise_line_markers

-- `seen.setdefault(candidate, None)`
unfoldable pub add_text : Text → List Text → List Text
add_text t seen = if text_in t seen then seen else seen ++ t ∷ []

module _ {F : Type 0} (rt : Runtime F) (project_only : Bool) where
  add_token : Text → List Text → List Text
  unfolding normalize add_text is_project_frame
  add_token token seen =
      let candidate = normalize token in
      if is_empty candidate || (project_only && not (is_project_frame rt candidate))
      then seen
      else add_text candidate seen

  add_tokens : List Text → List Text → List Text
  add_tokens [] seen = seen
  add_tokens (t ∷ ts) seen = add_tokens ts (add_token t seen)

  add_lines : List Text → List Text → List Text
  add_lines [] seen = seen
  add_lines (l ∷ ls) seen =
      add_lines ls
        (if project_only && is_noise_line rt l then seen else add_tokens (rt.path_tokens l) seen)

  -- `extract_paths`
  unfoldable pub extract_paths : Option Text → List Text
  unfolding add_lines add_tokens add_token is_noise_line split_lines
  extract_paths none = []
  extract_paths (some text) = add_lines (split_lines text) []

add_texts : List Text → List Text → List Text
add_texts [] seen = seen
add_texts (t ∷ ts) seen = add_texts ts (add_text t seen)

-- `footprint`: the set as a list with no text twice.
unfoldable pub footprint : {F : Type 0} → Runtime F → Text → Option Text → Option Text → List Text
unfolding add_texts add_text normalize extract_paths
footprint rt test_file stack_trace failure_message =
    let own = if is_empty test_file then [] else normalize test_file ∷ [] in
    add_texts (extract_paths rt true failure_message)
      (add_texts (extract_paths rt true stack_trace) own)

-- Equal, or one the end of the other behind a slash.
unfoldable pub paths_match : Text → Text → Bool
unfolding normalize
paths_match changed known =
    let c = normalize changed in
    let k = normalize known in
    text_eq c k || ends_with (codes "/" ++ k) c || ends_with (codes "/" ++ c) k

-- `diff_touches_footprint`
unfoldable pub diff_touches_footprint : List Text → List Text → Bool
unfolding paths_match
diff_touches_footprint diff_paths test_footprint =
    any (λ changed. any (λ known. paths_match changed known) test_footprint) diff_paths
