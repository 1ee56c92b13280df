-- ===== src/Classify/Client.antt =====
-- classify/client.py: the client of the service, which learns which models take no temperature. The
-- library of the service is a parameter.
pub mod Learned
use netflix_flaky_test_triag.Base.{
  ℕ, ◌+◌, Bool, true, false, ◌&&◌, not, Option, none, some, List, [], ◌∷◌, ◌++◌, Text, codes,
  text_in, contains, is_empty, strip, decimal, if◌then◌else◌,
}
use netflix_flaky_test_triag.Runtime.{Runtime}
use netflix_flaky_test_triag.Classify.Classifier.{OutputSchema, ModelResponse}

-- The exceptions that `complete` catches, in its order.
pub data SdkFailure : Type 0 where
  bad_request : Text → SdkFailure
  rate_limited timeout connection_error : SdkFailure
  status : ℕ → SdkFailure
  other : SdkFailure

-- A response: the `text` of each content block, if it is a string, and the usage.
pub record SdkResponse : Type 0 where
  pub content : List (Option Text)
  pub input_tokens : ℕ
  pub output_tokens : ℕ

pub data Attempt : Type 0 where
  answered : SdkResponse → Attempt
  failed : SdkFailure → Attempt

-- The keyword arguments of `messages.create`, which `_call` puts together; none is left out.
pub record CreateArguments (F : Type 0) : Type 0 where
  pub model : Text
  pub system : Text
  pub user : Text
  pub max_tokens : ℕ
  pub temperature : Option F
  pub schema : Option OutputSchema

-- What changes: the models that rejected a temperature, and the calls made.
pub record ClientState (F : Type 0) : Type 0 where
  pub no_temperature : List Text
  pub sent : List (CreateArguments F)

-- `_first_text_block`
unfoldable pub first_text_block : List (Option Text) → Option Text
first_text_block [] = none
first_text_block (none ∷ blocks) = first_text_block blocks
first_text_block (some text ∷ blocks) =
    if is_empty (strip text) then first_text_block blocks else some text

-- The reason that `_failure` gets.
unfoldable pub failure_reason : SdkFailure → Text
failure_reason (SdkFailure.bad_request message) = codes "bad_request"
failure_reason SdkFailure.rate_limited = codes "rate_limited"
failure_reason SdkFailure.timeout = codes "timeout"
failure_reason SdkFailure.connection_error = codes "connection_error"
failure_reason (SdkFailure.status code) = codes "http_" ++ decimal code
failure_reason SdkFailure.other = codes "sdk_error"

abbrev pub is_given : {F : Type 0} → Option F → Bool
is_given none = false
is_given (some t) = true

module _ {F : Type 0} (rt : Runtime F) where
  -- `_is_temperature_rejection`
  unfoldable pub is_temperature_rejection : Text → Bool
  is_temperature_rejection message =
      contains (codes "temperature") (rt.lower message)
      && contains (codes "deprecated") (rt.lower message)

  -- A rejection that the client learns from, of a call with a temperature.
  abbrev pub is_learned : Bool → Attempt → Bool
  is_learned send (Attempt.failed (SdkFailure.bad_request message)) =
      send && is_temperature_rejection message
  is_learned send _ = false

  -- The response to an attempt that is not repeated, after a time.
  unfoldable pub response_to : F → Attempt → ModelResponse F
  response_to latency (Attempt.answered r) = record {
    text = first_text_block r.content;
    input_tokens = r.input_tokens;
    output_tokens = r.output_tokens;
    latency_ms = latency;
    error = none;
  }
  response_to latency (Attempt.failed failure) = record {
    text = none;
    input_tokens = 0;
    output_tokens = 0;
    latency_ms = latency;
    error = some (failure_reason failure);
  }

  -- `create` is the library's `messages.create` after the calls before it, and `elapsed` the
  -- milliseconds that the last call took.
  module _ (create : List (CreateArguments F) → CreateArguments F → Attempt)
      (elapsed : List (CreateArguments F) → F) where
    -- The call without a temperature, and its response.
    unfoldable pub complete_plain :
        CreateArguments F → ClientState F → ClientState F × ModelResponse F
    unfolding response_to
    complete_plain request s =
        let plain = record request { temperature = none } in
        let sent = plain ∷ s.sent in
        (record s { sent = sent }, response_to (elapsed sent) (create s.sent plain))

    -- `AnthropicClient.complete`; a request without a temperature is sent as it is.
    unfoldable pub complete : CreateArguments F → ClientState F → ClientState F × ModelResponse F
    unfolding complete_plain
    complete request s =
        let send = is_given request.temperature && not (text_in request.model s.no_temperature) in
        let sent = request ∷ s.sent in
        let attempt = create s.sent request in
        let learned : ClientState F = record {
          no_temperature = request.model ∷ s.no_temperature;
          sent = sent;
        } in
        if send
        then (if is_learned send attempt
            then complete_plain request learned
            else (record s { sent = sent }, response_to (elapsed sent) attempt))
        else complete_plain request s
