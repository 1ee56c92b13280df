-- ===== src/Classify/Client/Learned.antt =====
-- classify/client.py: how often a request is sent, and what the client remembers.
use netflix_flaky_test_triag.Base.{
  ◌+◌, ◌≤◌, ◌≡◌, ◌≢◌, refl, true, false, ◌&&◌, not, Option, none, some, List, [], ◌∷◌, Text,
  text_in, text_eq_refl, length, is_empty, strip, arith, Bool-cases, inl, inr,
}
use netflix_flaky_test_triag.Runtime.{Runtime}
use netflix_flaky_test_triag.Classify.Classifier.{ModelResponse}
use netflix_flaky_test_triag.Classify.Client.{
  CreateArguments, ClientState, Attempt, first_text_block, is_given, is_learned, response_to,
  complete_plain, complete,
}

-- A response has a text that is not blank, or none, and none if it has an error.
abbrev pub IsUsable : {F : Type 0} → ModelResponse F → Type 0
IsUsable r =
    ((t : Text) → r.text ≡ some t → is_empty (strip t) ≡ false) × (r.error ≢ none → r.text ≡ none)

first_text_block_lem :
    (blocks : List (Option Text)) (t : Text)
    → first_text_block blocks ≡ some t
    → is_empty (strip t) ≡ false
unfolding first_text_block
first_text_block_lem [] t e = cc
first_text_block_lem (none ∷ blocks) t e = first_text_block_lem blocks t e
first_text_block_lem (some text ∷ blocks) t e = elim (Bool-cases (is_empty (strip text))) [
  | inl h ↦ first_text_block_lem blocks t (ground (arith, e, h))
  | inr h ↦ let same : text ≡ t = ground (arith, e, h) in rw (← same) h
]

module _ {F : Type 0} (rt : Runtime F) where
  response_to-IsUsable : (latency : F) (a : Attempt) → IsUsable (response_to rt latency a)
  unfolding response_to
  response_to-IsUsable latency (Attempt.answered r) =
      (first_text_block_lem r.content, λ h. absurd (h refl))
  response_to-IsUsable latency (Attempt.failed f) = (λ t e. cc, λ h. refl)

  module _ (create : List (CreateArguments F) → CreateArguments F → Attempt)
      (elapsed : List (CreateArguments F) → F) where
    -- What a call of `complete` does to the state, with its response.
    pub record Learns (request : CreateArguments F) (s : ClientState F)
        (r : ClientState F × ModelResponse F) : Type 0 where
      pub once_or_more : length s.sent + 1 ≤ length r.0.sent
      pub twice_or_less : length r.0.sent ≤ length s.sent + 2
      pub usable : IsUsable r.1
      pub remembers :
          length s.sent + 2 ≤ length r.0.sent → text_in request.model r.0.no_temperature ≡ true
      pub plain_if_known :
          text_in request.model s.no_temperature ≡ true
          → r.0.sent ≡ record request { temperature = none } ∷ s.sent

    -- Every request is sent once or twice, and the response is usable: it has no blank text and no
    -- text beside an error. When it is sent twice, the model is remembered; and for a model that is
    -- remembered the request is sent once, without a temperature.
    pub complete-Learns :
        (request : CreateArguments F) (s : ClientState F)
        → Learns request s (complete rt create elapsed request s)
    unfolding complete complete_plain text_in
    complete-Learns request s =
        let plain : CreateArguments F = record request { temperature = none } in
        let learned : List (CreateArguments F) = request ∷ s.sent in
        elim (Bool-cases
          (is_given request.temperature && not (text_in request.model s.no_temperature))) [
            | inl send ↦ elim (Bool-cases (is_learned rt true (create s.sent request))) [
              | inl twice ↦
                  rw (send, twice)
                    (record {
                      once_or_more = omega arith;
                      twice_or_less = omega arith;
                      usable =
                          response_to-IsUsable (elapsed (plain ∷ learned)) (create learned plain);
                      remembers = λ h. rw (text_eq_refl request.model) refl;
                      plain_if_known = λ k. ground (arith, send, k);
                    })
              | inr once ↦
                  rw (send, once)
                    (record {
                      once_or_more = omega arith;
                      twice_or_less = omega arith;
                      usable = response_to-IsUsable (elapsed learned) (create s.sent request);
                      remembers = λ h. absurd (omega (arith, h));
                      plain_if_known = λ k. ground (arith, send, k);
                    })
            ]
            | inr plainly ↦ rw plainly (record {
              once_or_more = omega arith;
              twice_or_less = omega arith;
              usable = response_to-IsUsable (elapsed (plain ∷ s.sent)) (create s.sent plain);
              remembers = λ h. absurd (omega (arith, h));
              plain_if_known = λ k. refl;
            })
          ]
