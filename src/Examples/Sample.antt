-- ===== src/Examples/Sample.antt =====
-- A runtime over the natural numbers, where a rate is 0 or 1, and the data of the examples.
use native.Mathlib.Nat.{mul-le-mul_left}
use netflix_flaky_test_triag.Base.{
  ℕ, ◌+◌, ◌-◌, ◌*◌, ◌/◌, ◌≤◌, ◌≡◌, refl, true, false, Option, none, some, List, [], ◌∷◌, Text,
  codes, if◌then◌else◌, ◌==◌, leb, ltb, ◌&&◌, decimal, arith,
}
use netflix_flaky_test_triag.Runtime.{Runtime, Json, Fields, IsOrdered}
use netflix_flaky_test_triag.Config.{DetectConfig, PolicyConfig, IdentityConfig, ClassifyConfig}
use netflix_flaky_test_triag.Models.Enums.{Outcome}
use netflix_flaky_test_triag.Models.Records.{TestIdentity}
use netflix_flaky_test_triag.Store.Execution.{ExecutionRecord}

abbrev from_text : Text → Option ℕ
from_text (n ∷ []) = some n
from_text _ = none

-- The answer `{"cause": "TIMING_DEPENDENCY"}`; any other text is no JSON.
abbrev read_json : Text → Option (Json ℕ)
read_json [] = none
read_json (c ∷ rest) =
    if c == 0x7b
    then some
        (Json.obj (Fields.field (codes "cause") (Json.str (codes "TIMING_DEPENDENCY")) Fields.end))
    else none

abbrev pub digit_of : ℕ → Option ℕ
digit_of c = if leb b'0' c && leb c b'9' then some (c - b'0') else none

-- A text of one digit.
abbrev read_number : Text → Option ℕ
read_number (c ∷ []) = digit_of c
read_number _ = none

abbrev pub runtime : Runtime ℕ
runtime = record {
  of_nat = λ n. n;
  add = λ a b. a + b;
  sub = λ a b. a - b;
  mul = λ a b. a * b;
  div = λ a b. a / b;
  le = leb;
  lt = ltb;
  round = λ x n. x;
  percent = decimal;
  lower = λ s. s;
  upper = λ s. s;
  path_tokens = λ s. [];
  sha256 = λ s. s;
  json_loads = read_json;
  iso_format = λ n. n ∷ [];
  from_iso_format = from_text;
  git_log = λ s. none;
  float_of = read_number;
  int_of = λ s. none;
  eq = λ a b. a == b;
  round_to_int = λ x. some x;
  digit_of = digit_of;
}

mul_mono : (c a b : ℕ) → leb a b ≡ true → leb (c * a) (c * b) ≡ true
mul_mono c a b h = let le : c * a ≤ c * b = mul-le-mul_left c (ground arith) in ground arith

complement : (a : ℕ) → leb a 1 ≡ true → leb (a * 1 + (1 - a) * 1) 1 ≡ true
complement a h = ground arith

pub ordered : IsOrdered runtime
ordered = record {
  le_refl = λ a. ground arith;
  le_trans = λ a b c h k. ground arith;
  zero-le-one = refl;
  mul_mono = λ c a b z h. mul_mono c a b h;
  add_mono = λ a b c d h k. ground arith;
  sub_nonneg = λ a h. ground arith;
  complement_le_one = λ a z h. complement a h;
  zero-le-complement = λ a z h. ground arith;
}

abbrev pub detect_config : DetectConfig ℕ
detect_config = record {
  window_executions = 50;
  min_observations = 1;
  flake_rate_threshold = 0;
  ewma_alpha = 1;
  regression_pass_streak = 1;
  regression_fail_streak = 1;
  main_branch = codes "main";
  infra_error_patterns = codes "OOM" ∷ [];
}

abbrev pub policy_config : PolicyConfig ℕ
policy_config = record {
  quarantine_flake_rate = 0;
  quarantine_min_observations = 1;
  quarantine_ttl_days = 14;
  dequarantine_clean_runs = 3;
}

abbrev pub identity_config : IdentityConfig ℕ
identity_config = record { alias_max_distance = 0; alias_certain_distance = 0 }

abbrev pub classify_config : ClassifyConfig ℕ
classify_config = record {
  prefilter_model = codes "small";
  classifier_model = codes "large";
  confidence_floor = 1;
  temperature = 0;
  budget_usd = 10;
  max_tests = 1;
  trace_budget_chars = 100;
  max_output_tokens = 64;
  prefilter_enabled = true;
  prefilter_max_output_tokens = 8;
}

-- An execution at a commit, on an attempt.
abbrev pub execution : ℕ → Outcome → Text → ℕ → ExecutionRecord
execution n outcome sha attempt = record {
  execution_id = n;
  identity_id = 1;
  outcome = outcome;
  duration_ms = none;
  failure_type = none;
  failure_message = none;
  stack_trace = none;
  rerun_observed = false;
  run_id = codes "run";
  attempt = attempt;
  commit_sha = sha;
  branch = codes "main";
  shard_id = [];
  started_at = sha;
}

-- A pass at one commit, a failure at the next.
abbrev pub broken : List ExecutionRecord
broken = execution 1 Outcome.pass (codes "a") 1 ∷ execution 2 Outcome.fail (codes "b") 1 ∷ []

-- A failure and a pass of one commit on two attempts, a skip, and a failure of the platform.
abbrev pub torn : List ExecutionRecord
torn =
    execution 1 Outcome.fail (codes "a") 1
    ∷ execution 2 Outcome.pass (codes "a") 2
    ∷ execution 3 Outcome.skip (codes "a") 3
    ∷ record (execution 4 Outcome.error (codes "a") 4) { failure_message = some (codes "OOM") }
    ∷ []

abbrev pub calm : List ExecutionRecord
calm = execution 1 Outcome.pass (codes "a") 1 ∷ []

abbrev pub test_of : Text → Text → TestIdentity
test_of fingerprint name = record {
  fingerprint = fingerprint;
  suite_path = codes "pkg.Suite";
  test_name = name;
  parameters = [];
  file_path = some (codes "pkg/suite.py");
}

abbrev pub login : TestIdentity
login = test_of (codes "f1") (codes "login")
