-- ===== src/Examples/Reporting.antt =====
-- The theorems on the client, the metrics and the reports, at two tests.
use netflix_flaky_test_triag.Base.{
  ℕ, ◌≡◌, ◌≤◌, refl, true, false, none, some, List, [], ◌∷◌, codes, decimal, inl,
}
use netflix_flaky_test_triag.Models.Enums.{CauseCode, DowngradeReason}
use netflix_flaky_test_triag.Models.Records.{Classification}
use netflix_flaky_test_triag.Detect.Results.{Detection}
use netflix_flaky_test_triag.Detect.History.{build_history}
use netflix_flaky_test_triag.Detect.Detector.{detect_for_history}
use netflix_flaky_test_triag.Classify.Client.{
  SdkFailure, Attempt, CreateArguments, ClientState, complete,
}
use netflix_flaky_test_triag.Classify.Client.Learned.{Learns, complete-Learns}
use netflix_flaky_test_triag.Obs.Metrics.{MetricTables, add_classifications, record_classifications}
use netflix_flaky_test_triag.Obs.Summary.{summarize, latest_classification}
use netflix_flaky_test_triag.Obs.Summary.Latest.{latest_classification-record}
use netflix_flaky_test_triag.Obs.Prometheus.{prometheus_lines}
use netflix_flaky_test_triag.Obs.Prometheus.Types.{type_lines, prometheus_lines-type_lines}
use netflix_flaky_test_triag.Report.Markdown.Rows.{ShowsWorst, shown_rows-ShowsWorst}
use netflix_flaky_test_triag.Examples.Sample.{runtime, detect_config, broken, calm, torn, login}

-- The service rejects every temperature.
abbrev create : List (CreateArguments ℕ) → CreateArguments ℕ → Attempt
create before request = elim request.temperature [
  | some t ↦ Attempt.failed (SdkFailure.bad_request (codes "temperature is deprecated"))
  | none ↦
      Attempt.answered
        (record { content = none ∷ some (codes "{}") ∷ []; input_tokens = 5; output_tokens = 2 })
]

abbrev elapsed : List (CreateArguments ℕ) → ℕ
elapsed sent = 7

abbrev request : CreateArguments ℕ
request = record {
  model = codes "large";
  system = [];
  user = codes "why?";
  max_tokens = 64;
  temperature = some 0;
  schema = none;
}

abbrev fresh_client : ClientState ℕ
fresh_client = record { no_temperature = []; sent = [] }

complete-Learns_example :
    Learns runtime create elapsed request fresh_client
      (complete runtime create elapsed request fresh_client)
complete-Learns_example = complete-Learns runtime create elapsed request fresh_client

abbrev unsure : Classification ℕ
unsure = record {
  cause = CauseCode.unknown;
  confidence = 0;
  reasoning = codes "no pattern";
  evidence = [];
  suggested_action = [];
  abstained = true;
  downgrade_reason = DowngradeReason.no_evidence;
  model = codes "large";
  prompt_version = codes "v1";
}

abbrev slow : Classification ℕ
slow = record unsure {
  cause = CauseCode.timing_dependency;
  evidence = codes "sleep(1)" ∷ [];
  abstained = false;
  downgrade_reason = DowngradeReason.none;
}

abbrev no_rows : MetricTables ℕ
no_rows = record { runs = []; test_ids = 2 ∷ 1 ∷ []; llm_calls = []; classifications = [] }

abbrev items : List (ℕ × Classification ℕ)
items = (1, unsure) ∷ (2, slow) ∷ []

abbrev tables : MetricTables ℕ
tables = record no_rows {
  classifications = add_classifications (codes "2026") none (codes "a") (2 ∷ []) items [];
}

stored :
    record_classifications (codes "2026") none (codes "a") (2 ∷ []) items no_rows ≡ some (tables, 2)
unfolding record_classifications
stored = refl

latest_classification-record_example : latest_classification 1 tables ≡ some unsure
latest_classification-record_example =
    latest_classification-record (codes "2026") none (codes "a") (2 ∷ []) items no_rows (tables, 2)
      (refl, (refl, tt)) stored 1 unsure (inl refl)

prometheus_lines-type_lines_example :
    type_lines
      (codes "llm_latency_ms")
      (prometheus_lines runtime decimal (summarize runtime none tables))
    ≤ 1
prometheus_lines-type_lines_example =
    prometheus_lines-type_lines runtime decimal (summarize runtime none tables)
      (codes "llm_latency_ms") refl

abbrev findings : List (Detection ℕ)
findings =
    detect_for_history runtime detect_config login 1 (build_history runtime detect_config calm) []
      false
    ∷ detect_for_history runtime detect_config login 2 (build_history runtime detect_config torn) []
        false
    ∷ detect_for_history runtime detect_config login 3 (build_history runtime detect_config broken)
        [] false
    ∷ []

shown_rows-ShowsWorst_example : ShowsWorst runtime 1 findings
shown_rows-ShowsWorst_example = shown_rows-ShowsWorst runtime 1 findings
