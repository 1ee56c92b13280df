-- ===== src/Ingest/Diff.antt =====
-- ingest/diff.py: the parser, one line at a time, and its two readers.
pub mod WellFormed
pub mod Kept
pub mod Positions
use netflix_flaky_test_triag.Base.{
  ℕ, ◌+◌, Bool, true, false, ◌&&◌, ◌||◌, not, Option, none, some, List, [], ◌∷◌, ◌++◌, Text, codes,
  text_eq, starts_with, is_empty, take, strip, strip_of, split_lines, reverse, drop_while, ◌==◌,
  if◌then◌else◌, ◌>>=◌,
}
use netflix_flaky_test_triag.Runtime.{Outside, got, raised}
use netflix_flaky_test_triag.Models.Enums.{ChangeType}
use netflix_flaky_test_triag.Models.Records.{ParseWarning}
use netflix_flaky_test_triag.Models.Diff.{FileChange}
use netflix_flaky_test_triag.Ingest.Headers.{
  or_try, path_behind, diff_header, strip_prefix, hunk_header,
}
use netflix_flaky_test_triag.Ingest.Hunks.{
  FileAccumulator, no_file, finish, HunkState, from_match, consume, commit,
}

-- `DiffParseResult`
pub record DiffParseResult : Type 0 where
  pub files : List FileChange
  pub warnings : List ParseWarning

-- The variables of `parse_unified_diff`.
pub record Parser : Type 0 where
  pub changes : List FileChange
  pub warnings : List ParseWarning
  pub current : FileAccumulator
  pub hunk : Option HunkState

abbrev pub initial : Parser
initial = record { changes = []; warnings = []; current = no_file; hunk = none }

abbrev pub commit_hunk : Option HunkState → FileAccumulator → FileAccumulator
commit_hunk none f = f
commit_hunk (some h) f = commit h f

abbrev pub append_option : {A : Type 0} → List A → Option A → List A
append_option xs none = xs
append_option xs (some x) = xs ++ x ∷ []

-- The `flush` of `parse_unified_diff`.
unfoldable pub flush : Parser → Parser
flush p = record p {
  changes = append_option p.changes (finish (commit_hunk p.hunk p.current));
  current = no_file;
  hunk = none;
}

-- A `diff --git` line, after the flush, and what its pattern gives.
unfoldable pub start_file : Text → Text → Option (Text × Text) → Parser → Parser
start_file origin line none p = record p {
  warnings =
      p.warnings
      ++ record { origin = origin; reason = codes "bad_diff_header"; detail = some (take 200 line) }
        ∷ [];
}
start_file origin line (some (old, new)) p = record p {
  current = record p.current { old_path = some (strip_prefix old); path = some (strip_prefix new) };
}

abbrev pub if_missing : Option Text → Text → Option Text
if_missing none path = some path
if_missing (some known) path = some known

abbrev pub or_other : Option Text → Option Text → Option Text
or_other none other = other
or_other (some known) other = some known

-- A `--- ` line, by what its pattern gives.
unfoldable pub old_file_line : Option Text → FileAccumulator → FileAccumulator
old_file_line none f = f
old_file_line (some found) f =
    let path = strip found in
    if text_eq path (codes "/dev/null")
    then record f { change_type = ChangeType.added }
    else record f { old_path = if_missing f.old_path (strip_prefix path) }

-- A `+++ ` line, by what its pattern gives.
unfoldable pub new_file_line : Option Text → FileAccumulator → FileAccumulator
new_file_line none f = f
new_file_line (some found) f =
    let path = strip found in
    if text_eq path (codes "/dev/null")
    then record f { change_type = ChangeType.deleted; path = or_other f.path f.old_path }
    else record f { path = if_missing f.path (strip_prefix path) }

abbrev pub rename_from_line : Text → FileAccumulator → FileAccumulator
rename_from_line path f = record f {
  change_type = ChangeType.renamed;
  old_path = some (strip_prefix path);
}

abbrev pub rename_to_line : Text → FileAccumulator → FileAccumulator
rename_to_line path f = record f {
  change_type = ChangeType.renamed;
  path = some (strip_prefix path);
}

-- A line that no header pattern takes.
abbrev pub body_line : Text → Option HunkState → Option HunkState
body_line line none = none
body_line line (some h) = some (consume line h)

-- The `rename` lines and the lines with the two paths, where the line is one of them.
unfoldable pub path_line : Text → FileAccumulator → Option FileAccumulator
unfolding old_file_line new_file_line
path_line line f =
    or_try (do path ← path_behind (codes "rename from ") line; some (rename_from_line path f))
      (or_try (do path ← path_behind (codes "rename to ") line; some (rename_to_line path f))
        (if starts_with (codes "--- ") line
          then some (old_file_line (path_behind (codes "--- ") line) f)
          else if starts_with (codes "+++ ") line
          then some (new_file_line (path_behind (codes "+++ ") line) f)
          else none))

-- The lines that only change the current file.
unfoldable pub file_line : Text → FileAccumulator → Option FileAccumulator
unfolding path_line
file_line line f =
    if starts_with (codes "new file mode") line
    then some (record f { change_type = ChangeType.added })
    else if starts_with (codes "deleted file mode") line
    then some (record f { change_type = ChangeType.deleted })
    else if starts_with (codes "Binary files") line || starts_with (codes "GIT binary patch") line
    then some (record f { binary = true })
    else path_line line f

-- A hunk header or a line of a hunk.
unfoldable pub hunk_line : Option ((ℕ × Option ℕ) × (ℕ × Option ℕ)) → Text → Parser → Parser
hunk_line none line p = record p { hunk = body_line line p.hunk }
hunk_line (some found) line p = record p {
  current = commit_hunk p.hunk p.current;
  hunk = some (from_match found);
}

-- The warning of a text in which nothing was found.
unfoldable pub with_empty_warning : Text → Text → DiffParseResult → DiffParseResult
with_empty_warning origin text r =
    if is_empty r.files && not (is_empty (strip text)) && is_empty r.warnings
    then record r {
      warnings =
          record { origin = origin; reason = codes "no_file_changes_found"; detail = none } ∷ [];
    }
    else r

module _ (digit_of : ℕ → Option ℕ) where
  unfoldable pub other_line : Option FileAccumulator → Text → Parser → Parser
  unfolding hunk_line
  other_line (some f) line p = record p { current = f }
  other_line none line p = hunk_line (hunk_header digit_of line) line p

  -- The body of the loop over the lines.
  unfoldable pub step : Text → Text → Parser → Parser
  unfolding start_file flush other_line file_line
  step origin line p =
      if starts_with (codes "diff --git ") line
      then start_file origin line (diff_header line) (flush p)
      else other_line (file_line line p.current) line p

  unfoldable pub parse_lines : Text → List Text → Parser → Parser
  unfolding step
  parse_lines origin [] p = p
  parse_lines origin (raw ∷ rest) p =
      parse_lines origin rest (step origin (reverse (drop_while (λ c. c == b'\r') (reverse raw))) p)

  -- `parse_unified_diff`
  unfoldable pub parse_unified_diff : Text → Text → DiffParseResult
  unfolding parse_lines flush with_empty_warning
  parse_unified_diff origin text =
      let p = flush (parse_lines origin (split_lines text) initial) in
      with_empty_warning origin text (record { files = p.changes; warnings = p.warnings })

-- One warning and no file.
abbrev pub only_warning : Text → Text → Text → DiffParseResult
only_warning origin reason detail = record {
  files = [];
  warnings = record { origin = origin; reason = reason; detail = some detail } ∷ [];
}

-- `subprocess.CompletedProcess`; the sign of the exit code does not matter.
pub record CompletedProcess : Type 0 where
  pub returncode : ℕ
  pub stdout : Text
  pub stderr : Text

module _ (digit_of : ℕ → Option ℕ) where
  -- `parse_diff_file`, from what `read_text` gives.
  unfoldable pub parse_diff_file : Text → Outside Text → DiffParseResult
  parse_diff_file path (got text) = parse_unified_diff digit_of path text
  parse_diff_file path (raised detail) = only_warning path (codes "unreadable_file") detail

  -- `diff_from_git`, from what `subprocess.run` gives.
  unfoldable pub diff_from_git : Text → Text → Outside CompletedProcess → DiffParseResult
  diff_from_git base head (raised detail) =
      only_warning (codes "git") (codes "git_unavailable") detail
  diff_from_git base head (got completed) =
      if not (completed.returncode == 0)
      then only_warning (codes "git") (codes "git_diff_failed") (take 500 (strip completed.stderr))
      else parse_unified_diff digit_of (codes "git:" ++ base ++ codes ".." ++ head) completed.stdout
