-- ===== src/Ingest/Hunks.antt =====
-- ingest/diff.py: the lines of one hunk, and the changes of one file.
use netflix_flaky_test_triag.Base.{
  ℕ, ◌+◌, ◌-◌, Bool, true, false, ◌&&◌, ◌||◌, not, Option, none, some, List, [], ◌∷◌, ◌++◌, Text,
  codes, text_eq, starts_with, is_empty, ltb, max, if◌then◌else◌,
}
use netflix_flaky_test_triag.Models.Enums.{ChangeType}
use netflix_flaky_test_triag.Models.Diff.{LineRange, FileChange}
use netflix_flaky_test_triag.Ingest.Ranges.{ranges_from_lines, merge_ranges}
use netflix_flaky_test_triag.Ingest.Headers.{count_or_default}

-- `_FileAccumulator`
pub record FileAccumulator : Type 0 where
  pub path : Option Text
  pub old_path : Option Text
  pub change_type : ChangeType
  pub binary : Bool
  pub new_ranges : List LineRange
  pub old_ranges : List LineRange

abbrev pub no_file : FileAccumulator
no_file = record {
  path = none;
  old_path = none;
  change_type = ChangeType.modified;
  binary = false;
  new_ranges = [];
  old_ranges = [];
}

-- The old path, if it is another one.
abbrev pub other_path : Option Text → Text → Option Text
other_path none path = none
other_path (some old) path = if text_eq old path then none else some old

abbrev finish_as : FileAccumulator → Option Text → Option FileChange
finish_as f none = none
finish_as f (some path) = some (record {
  path = path;
  change_type = f.change_type;
  old_path = other_path f.old_path path;
  binary = f.binary;
  new_ranges = merge_ranges f.new_ranges;
  old_ranges = merge_ranges f.old_ranges;
})

-- `_FileAccumulator.finish`
unfoldable pub finish : FileAccumulator → Option FileChange
finish f = finish_as f f.path

-- `_HunkState`; `header_counts` is the pair of the old and the new count.
pub record HunkState : Type 0 where
  pub old_cursor : ℕ
  pub new_cursor : ℕ
  pub header_counts : ℕ × ℕ
  pub added : List ℕ
  pub removed : List ℕ
  pub seen_body : Bool

-- `_HunkState.from_match`
unfoldable pub from_match : (ℕ × Option ℕ) × (ℕ × Option ℕ) → HunkState
from_match ((old_start, old_count), (new_start, new_count)) = record {
  old_cursor = max old_start 1;
  new_cursor = max new_start 1;
  header_counts = (count_or_default old_count, count_or_default new_count);
  added = [];
  removed = [];
  seen_body = false;
}

-- `_HunkState.consume`
unfoldable pub consume : Text → HunkState → HunkState
consume line h =
    if starts_with (codes "+") line && not (starts_with (codes "+++") line)
    then record h {
      seen_body = true;
      added = h.added ++ h.new_cursor ∷ [];
      new_cursor = h.new_cursor + 1;
    }
    else if starts_with (codes "-") line && not (starts_with (codes "---") line)
    then record h {
      seen_body = true;
      removed = h.removed ++ h.old_cursor ∷ [];
      old_cursor = h.old_cursor + 1;
    }
    else if (starts_with (codes " ") line || starts_with (codes "\t") line) || is_empty line
    then record h { new_cursor = h.new_cursor + 1; old_cursor = h.old_cursor + 1 }
    else h

-- The range that a count in the header stands for.
unfoldable pub header_range : ℕ → ℕ → List LineRange
header_range start count =
    if ltb 0 count then record { start = start; end = (start + count) - 1 } ∷ [] else []

-- `_HunkState.commit`
unfoldable pub commit : HunkState → FileAccumulator → FileAccumulator
unfolding header_range
commit h target =
    if h.seen_body
    then record target {
      new_ranges = target.new_ranges ++ ranges_from_lines h.added;
      old_ranges = target.old_ranges ++ ranges_from_lines h.removed;
    }
    else record target {
      new_ranges = target.new_ranges ++ header_range h.new_cursor h.header_counts.1;
      old_ranges = target.old_ranges ++ header_range h.old_cursor h.header_counts.0;
    }
