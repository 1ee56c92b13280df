-- ===== src/Ingest/Files.antt =====
-- ingest/junit.py: what is looked at before the XML parser, and the loop over the files.
use netflix_flaky_test_triag.Base.{
  ℕ, ◌+◌, ◌-◌, Bool, not, ◌&&◌, ◌||◌, Option, none, some, List, [], ◌∷◌, ◌++◌, map, any, Text,
  codes, contains, take, leb, ◌==◌, if◌then◌else◌, ◌>>=◌,
}
use netflix_flaky_test_triag.Runtime.{Runtime, Outside, got, raised}
use netflix_flaky_test_triag.Models.Records.{ParseWarning}
use netflix_flaky_test_triag.Ingest.Junit.{JunitParseResult, Stream, parse_stream}

-- A byte that `bytes.strip` takes away.
abbrev pub is_byte_space : ℕ → Bool
is_byte_space b = (leb 9 b && leb b 13) || b == 32

-- `bytes.upper` of one byte.
abbrev pub byte_upper : ℕ → ℕ
byte_upper b = if leb b'a' b && leb b b'z' then b - 32 else b

abbrev pub warning_of : Text → Text → Option Text → ParseWarning
warning_of origin reason detail = record { origin = origin; reason = reason; detail = detail }

-- `_reject_unsafe_or_empty`
unfoldable pub reject_unsafe_or_empty : Text → List ℕ → Option ParseWarning
reject_unsafe_or_empty origin data_bytes =
    let head = take 8192 data_bytes in
    if not (any (λ b. not (is_byte_space b)) head)
    then some (warning_of origin (codes "empty_file") none)
    else if contains (codes "<!DOCTYPE") (map byte_upper head)
    then some (
        warning_of origin (codes "doctype_rejected")
          (some (codes "DOCTYPE declarations are refused; see ingest.junit")))
    else if not (contains (codes "<") head)
    then some (warning_of origin (codes "not_xml") none)
    else none

abbrev pub rejected : ParseWarning → JunitParseResult
rejected w = record { cases = []; warnings = w ∷ []; files_parsed = 0; files_rejected = 1 }

abbrev pub nothing_parsed : JunitParseResult
nothing_parsed = record { cases = []; warnings = []; files_parsed = 0; files_rejected = 0 }

-- One turn of the loop of `parse_files`.
abbrev pub joined_with : JunitParseResult → JunitParseResult → JunitParseResult
joined_with total r = record {
  cases = total.cases ++ r.cases;
  warnings = total.warnings ++ r.warnings;
  files_parsed = total.files_parsed + r.files_parsed;
  files_rejected = total.files_rejected + r.files_rejected;
}

-- `iterparse` is the event stream of `xml.etree.ElementTree` for the bytes of a document.
module _ {F : Type 0} (rt : Runtime F) (iterparse : List ℕ → Stream) where
  abbrev pub parse_unless : Option ParseWarning → Text → List ℕ → Option JunitParseResult
  parse_unless none origin data_bytes = parse_stream rt origin (iterparse data_bytes)
  parse_unless (some w) origin data_bytes = some (rejected w)

  -- `parse_bytes`
  unfoldable pub parse_bytes : Text → List ℕ → Option JunitParseResult
  unfolding reject_unsafe_or_empty
  parse_bytes origin data_bytes =
      parse_unless (reject_unsafe_or_empty origin data_bytes) origin data_bytes

  -- `parse_file`, from what reading the path gives.
  unfoldable pub parse_file : Text → Outside (List ℕ) → Option JunitParseResult
  unfolding parse_bytes
  parse_file origin (got data_bytes) = parse_bytes origin data_bytes
  parse_file origin (raised detail) =
      some (rejected (warning_of origin (codes "unreadable_file") (some detail)))

  unfoldable pub parse_files_after :
      JunitParseResult → List (Text × Outside (List ℕ)) → Option JunitParseResult
  unfolding parse_file
  parse_files_after total [] = some total
  parse_files_after total ((path, content) ∷ rest) = do
    r ← parse_file path content
    parse_files_after (joined_with total r) rest

  -- `parse_files`
  unfoldable pub parse_files : List (Text × Outside (List ℕ)) → Option JunitParseResult
  unfolding parse_files_after
  parse_files files = parse_files_after nothing_parsed files
