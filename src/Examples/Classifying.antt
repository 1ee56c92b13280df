-- ===== src/Examples/Classifying.antt =====
-- The classifier's theorems with a client that answers the same text every time.
use netflix_flaky_test_triag.Base.{
  split_lines, starts_with, join, strip, ℕ, ◌+◌, ◌*◌, ◌≤◌, ◌≡◌, ◌⊎◌, refl, Bool, true, false,
  Option, none, some, List, [], ◌∷◌, Text, text_eq, codes, length, All,
}
use netflix_flaky_test_triag.Runtime.{Fields}
use netflix_flaky_test_triag.Models.Enums.{Outcome, CauseCode, DowngradeReason}
use netflix_flaky_test_triag.Models.Records.{Classification}
use netflix_flaky_test_triag.Detect.Results.{Verdict, Confidence, Detection}
use netflix_flaky_test_triag.Classify.Schema.{
  RawClassification, parse_and_validate, strip_code_fence, ends_fenced,
}
use netflix_flaky_test_triag.Classify.Schema.Answers.{IsAccepted, IsRefused, parse_and_validate_lem}
use netflix_flaky_test_triag.Classify.Cache.{ClassificationCache, file_at, get, put, is_transient}
use netflix_flaky_test_triag.Classify.Cache.Entries.{Reach, transient_never_served}
use netflix_flaky_test_triag.Classify.Classifier.{
  CallRecord, ModelResponse, Request, Prompts, Setup, ClassifierState,
}
use netflix_flaky_test_triag.Classify.Classifier.Run.{classify}
use netflix_flaky_test_triag.Classify.Classifier.Spending.{IsSpend, classify-IsSpend}
use netflix_flaky_test_triag.Classify.Classifier.Guarded.{Guarded, FilesGuarded}
use netflix_flaky_test_triag.Classify.Classifier.Batch.{classify_many}
use netflix_flaky_test_triag.Classify.Classifier.Batch.Entries.{
  has_entry, has_detection, classify_many_covers, classify_many-Guarded,
}
use netflix_flaky_test_triag.Examples.Sample.{runtime, classify_config, login}

abbrev raw : RawClassification ℕ
raw = record {
  cause = CauseCode.timing_dependency;
  confidence = 1;
  reasoning = codes "it sleeps";
  evidence = codes "sleep(1)" ∷ [];
  suggested_action = codes "wait for it";
  abstained = false;
}

abbrev model_validate : Fields ℕ → Option (RawClassification ℕ)
model_validate payload = some raw

abbrev answer : Text
answer = codes "{}"

-- The same answer in a code block.
abbrev fenced_answer : Text
fenced_answer = codes "```json\n{}\n```"

strip_code_fence-fenced_answer : strip_code_fence fenced_answer ≡ answer
unfolding strip_code_fence ends_fenced strip split_lines starts_with join
strip_code_fence-fenced_answer = refl

parse_and_validate_example :
    let r =
      parse_and_validate runtime model_validate 1 (codes "m") (codes "v") (some fenced_answer) in
    (r.1 ≡ some fenced_answer) × IsRefused runtime model_validate 1 (codes "m") (codes "v") r.0
    ⊎ (r.1 ≡ none)
      × IsAccepted runtime model_validate 1
          (codes "m")
          (codes "v")
          (runtime.json_loads (strip_code_fence fenced_answer))
          r.0
parse_and_validate_example =
    parse_and_validate_lem runtime model_validate 1 (codes "m") (codes "v") fenced_answer

abbrev prices : List (Text × (ℕ × ℕ))
prices = (codes "large", (3, 15)) ∷ (codes "small", (1, 5)) ∷ (codes "large", (4, 20)) ∷ []

abbrev empty_cache : ClassificationCache ℕ
empty_cache = record { enabled = true; files = []; hits = 0; misses = 0; writes = 0 }

abbrev timing : Classification ℕ
timing = record {
  cause = CauseCode.timing_dependency;
  confidence = 1;
  reasoning = [];
  evidence = codes "sleep(1)" ∷ [];
  suggested_action = [];
  abstained = false;
  downgrade_reason = DowngradeReason.none;
  model = [];
  prompt_version = [];
}

abbrev anywhere : Text → Bool
anywhere key = true

transient_never_served_example : is_transient timing.downgrade_reason ≡ false
unfolding get put file_at text_eq
transient_never_served_example =
    transient_never_served (put anywhere (codes "k") timing empty_cache) (codes "k") timing
      (Reach.after_put anywhere (codes "k") timing empty_cache (Reach.empty empty_cache refl)) refl

abbrev prompts : Prompts ℕ
prompts = record {
  head_budget = λ n. 0;
  system_prompt = codes "system";
  prefilter_system_prompt = codes "gate system";
  repair_instruction = λ r. codes "again";
  prompt_version_hash = codes "v";
  cents = λ n. codes "10.00";
}

abbrev setup : Setup ℕ
setup = record {
  config = classify_config;
  budget_usd = 10;
  prices = prices;
  prompts = prompts;
  diff = none;
  model_validate = model_validate;
  writable = anywhere;
}

abbrev client : List (CallRecord ℕ) → Request ℕ → ModelResponse ℕ
client calls request = record {
  text = some answer;
  input_tokens = 100;
  output_tokens = 20;
  latency_ms = 1;
  error = none;
}

abbrev started : ClassifierState ℕ
started = record {
  calls = [];
  cache_hits = 0;
  cache_misses = 0;
  prefiltered = 0;
  repairs_attempted = 0;
  repairs_succeeded = 0;
  schema_failures = 0;
  budget_exhausted_count = 0;
  cache = some empty_cache;
  cache_hit_ids = [];
}

abbrev flaky : ℕ → Detection ℕ
flaky id = record {
  identity = login;
  identity_id = id;
  verdict = Verdict.flaky;
  confidence = Confidence.medium;
  signals = [];
  flake_rate = 1;
  divergence_rate = 1;
  intermittency_rate = 1;
  retry_data_available = true;
  observations = 4;
  windows = 2;
  infra_excluded = 0;
  latest_outcome = some Outcome.fail;
  latest_sha = none;
  regression_sha = none;
  failure_message = none;
  failure_type = none;
  stack_trace = none;
  footprint = [];
  failing_shards = [];
  merged_uncertain = false;
}

classify-IsSpend_example :
    IsSpend runtime setup [] (classify runtime setup (some client) (flaky 1) started).0.calls
classify-IsSpend_example = classify-IsSpend runtime setup (some client) (flaky 1) started

classify_many_covers_example :
    let ds = flaky 1 ∷ flaky 2 ∷ [] in
    let r = classify_many runtime setup (some client) ds none started in
    ((id : ℕ) → has_entry id r.1 ≡ has_detection id ds) × (length r.0.calls ≤ 0 + 3 * 1)
classify_many_covers_example =
    classify_many_covers runtime setup (some client) (flaky 1 ∷ flaky 2 ∷ []) none started

classify_many-Guarded_example :
    let r = classify_many runtime setup (some client) (flaky 1 ∷ flaky 2 ∷ []) none started in
    FilesGuarded runtime setup r.0 × All (λ e. Guarded runtime setup e.1) r.1
classify_many-Guarded_example =
    classify_many-Guarded runtime setup (some client) (flaky 1 ∷ flaky 2 ∷ []) none started tt
