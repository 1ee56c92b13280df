-- ===== src/Lib.antt =====
-- flaketriage decides which failing tests of a continuous integration are flaky, explains them with
-- a language model under guardrails, and recommends quarantines. Executions are grouped by commit
-- into windows (detect/history.py), the detector reads signals and a regression from the windows
-- (detect/detector.py), a detection that needs an explanation goes to the classifier
-- (classify/classifier.py), and the policy (policy/quarantine.py) takes the detection and the
-- classification to a decision that the quarantine table keeps (policy/records.py). Renamed tests
-- are paired by distance (identity/alias.py). An ingest (ingest/pipeline.py) parses reports
-- (ingest/junit.py) and a diff (ingest/diff.py), writes run, identities and executions into the
-- store (store/repositories.py), and records the renames it finds (identity/reconcile.py). Every
-- path here is below src/flaketriage, from the root of the repository.
--
-- Base holds texts as lists of code points with the operations of Python's `str`, lists, and a
-- stable sort. Runtime is one record for the interpreter and its libraries: float arithmetic, case
-- tables, the path tokens of a compiled regular expression, SHA-256, JSON, dates, `git log`;
-- IsOrdered states what the bounds on rates use of floats that do not overflow. Models and Config
-- are models.py and config.py: records for the frozen models, data types for the enumerations.
-- Store.Execution is the row type of store/repositories.py, Store.Aliases its alias edges with
-- `identity_group`, Store.Reads the queries of the detector over joined rows. Store.Tables has the
-- rows of store/schema.py, a table being the list of its rows, the newest first, Store.Rows the
-- unique keys and the new rows, Store.Writes the writes of `RunStore`, none for a failed reference
-- or an integer that SQLite can not bind,
-- and Store.Lookups its other queries; Store.Writes.Keys has the invariant of the schema and the
-- stores that writes can make. Ingest.Ranges, Ingest.Headers, Ingest.Hunks and Ingest.Diff are
-- ingest/diff.py: ranges, patterns, the lines of a hunk, and `parse_unified_diff` as a function of
-- the state and the next line. Ingest.Elements, Ingest.Cases, Ingest.Junit and Ingest.Files are
-- ingest/junit.py: attributes, one case, `_parse_stream` over the events of `iterparse`, and the
-- look at the bytes before it. Identity.Reconcile is identity/reconcile.py, and Ingest.Pipeline is
-- `ingest`, with what the clock shows at each write as a parameter. Detect.Infra is detect/infra.py,
-- Detect.Window and Detect.History are detect/history.py (`ShaWindow`, `History`, `build_history`),
-- Detect.Rates is detect/rates.py, Detect.Footprint is detect/footprint.py, Detect.Results is
-- detect/models.py, Detect.Signals and Detect.Detector are detect/detector.py (`find_regression`,
-- `_decide`, `detect_for_history`), and Detect.Collect is `detect_all` over a store. Policy.Owners
-- and Policy.Ownership are policy/ownership.py, Policy.Quarantine is policy/quarantine.py,
-- Policy.Records is policy/records.py with the table as a list of rows, new rows last, and the
-- partial unique index as the test before an insertion. Identity.Similarity, Identity.Fingerprint
-- and Identity.Alias are the files of those names. Classify.Schema, Classify.Pricing and
-- Classify.Cache are the files of those names, Classify.Context and its child Message the functions
-- of classify/prompt.py; Classify.Classifier has the state and the budget of
-- classify/classifier.py, its child Run one function for each method from a state to the next, and
-- Batch is `classify_many`. There the client is a function of the calls so far and the request;
-- Classify.Client is the one of classify/client.py, over the service's library as a parameter. The
-- validation by pydantic and whether a cache file can be written are parameters too. Obs.Metrics is
-- obs/metrics.py's tables of calls and classifications and the writes to them, Obs.Summary the
-- aggregates over them with `latest_classification` of store/repositories.py, Obs.Prometheus the
-- two forms of a summary. Report.Findings is report/renderers.py's order, counts and JSON form,
-- Report.Markdown the comment on a pull request. Examples has a runtime over the natural numbers and
-- the theorems at concrete inputs.
--
-- Fuel: the loop over groups of equal rank runs on the number of pairs, which is enough since a
-- group has one pair or more; the walk over alias edges runs on twice the number of edges and one
-- more, since an identity enters the frontier once; the digits of a number run on the number
-- itself; the edit distance compares the first 512 characters of each text, as the code does.
-- Numbers are natural numbers: the code's counters only grow, and a subtraction that could pass
-- zero is written out. The attempt numbers, durations and line numbers that the store binds have the
-- 64 bits of SQLite as their limit; row ids, token counts and settings are taken to be below it.
--
-- Not modelled: the command line, the set-up of logging, the report for a terminal, the parsing of
-- a lookback window, the construction of a classifier from the environment, the evaluation harness
-- and the scripts, the migrations of the store, the expansion of globs, the XML parser itself, the
-- fixed texts of the prompts, and the service's library. A number in a hunk header has no more
-- digits than `int` reads. Dates are microseconds in UTC, and a text is taken to be one that UTF-8 can
-- encode, since SQLite and the hash refuse any other.
pub mod Base
pub mod Runtime
pub mod Config
pub mod Models
pub mod Store
pub mod Detect
pub mod Policy
pub mod Identity
pub mod Classify
pub mod Ingest
pub mod Obs
pub mod Report
pub mod Examples
