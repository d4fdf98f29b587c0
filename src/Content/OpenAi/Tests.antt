-- ===== src/Content/OpenAi/Tests.antt =====
-- Runs of the provider and instances of its theorems.
use lin_clean_be_fastapi.Prelude.{
  ◌≡◌, refl, true, false, Option, none, some, [], ◌∷◌, ◌++◌, Text, text, starts_with, if◌then◌else◌,
}
use lin_clean_be_fastapi.Schemas.Signals.{phishing}
use lin_clean_be_fastapi.Samples.{site}
use lin_clean_be_fastapi.Content.Tests.{card_page}
use lin_clean_be_fastapi.Content.Ai.{
  AiPromptContext, build_prompt_context, returned, answered, exception, to_answer,
}
use lin_clean_be_fastapi.Content.OpenAi.{
  OpenAiSettings, OpenAiProvider, new_provider, infer, to_provider,
}
use lin_clean_be_fastapi.Content.OpenAi.Json.{
  Json, string, array, object, element, member, end_of_array, end_of_object,
}
use lin_clean_be_fastapi.Content.OpenAi.Verdict.{JsonLib, completed, post_failed}
use lin_clean_be_fastapi.Content.OpenAi.Reply.{EndsAs, infer-EndsAs}
use lin_clean_be_fastapi.Content.OpenAi.Closed.{
  asks, closes, requests_of, provider_after, requests_of-closes,
}

abbrev settings : OpenAiSettings
settings = record {
  openai_api_key = some (b'k' ∷ []);
  openai_model = b'm' ∷ [];
  openai_timeout = 5000000;
  openai_max_output_tokens = 120;
}

-- A decoder that knows one answer and takes every other text for an empty array.
unfoldable decode : Text → Option Json
unfolding text starts_with
decode s =
    if starts_with (text "{") s
    then some (
        object (
          member (text "verdict") (string (text "phishing"))
            (member (text "reason") (string (text " a fake login ")) end_of_object)))
    else some (array end_of_array)

abbrev json : JsonLib
json = record {
  dumps = λ prompt. prompt.final_url;
  loads = decode;
  is_zero = λ n. false;
  to_int = λ value. some 7;
}

-- A completion with this content.
unfoldable reply : Text → Json
unfolding text
reply content = object (
    member (text "choices")
      (array (
        element
          (object (
            member (text "message")
              (object (member (text "content") (string content) end_of_object)) end_of_object))
          end_of_array))
      end_of_object)

unfoldable page : AiPromptContext
unfolding build_prompt_context
page = build_prompt_context site card_page []

abbrev provider : OpenAiProvider
provider = record {
  model = b'm' ∷ [];
  timeout = 5000000;
  max_output_tokens = 120;
  has_client = false;
  closed = false;
}

infer_tests :
    ((infer settings json (λ request. completed (reply (text "{"))) provider page).result
      ≡ answered (
          some (record {
            verdict = phishing;
            reason = text "a fake login";
            model = some (b'm' ∷ []);
            token_usage = none;
          })))
    × ((infer settings json (λ request. completed (reply [])) provider page).result ≡ answered none)
    × ((infer settings json (λ request. completed (reply (text "[]"))) provider page).result
        ≡ exception)
unfolding infer reply decode text
infer_tests = (refl, refl, refl)

-- A request that fails leaves no error for the result.
to_answer_test :
    to_answer
      (to_provider settings json (λ request. post_failed) provider)
      ((to_provider settings json (λ request. post_failed) provider).infer page)
    ≡ returned (none, none)
unfolding to_answer to_provider
to_answer_test = refl

infer-EndsAs_example : EndsAs json (b'm' ∷ []) (completed (reply (text "{"))) (
    answered (
      some (record {
        verdict = phishing;
        reason = text "a fake login";
        model = some (b'm' ∷ []);
        token_usage = none;
      })))
unfolding infer reply decode text
infer-EndsAs_example =
    infer-EndsAs settings json (λ request. completed (reply (text "{"))) provider page

requests_of-closes_example :
    (requests_of settings json
        (λ request. post_failed)
        (new_provider settings none none (some 60))
        ((asks page ∷ []) ++ closes ∷ asks page ∷ closes ∷ [])
      ≡ requests_of settings json
          (λ request. post_failed)
          (new_provider settings none none (some 60))
          (asks page ∷ []))
    × ((provider_after settings json
          (λ request. post_failed)
          (new_provider settings none none (some 60))
          ((asks page ∷ []) ++ closes ∷ asks page ∷ closes ∷ [])).closed
        ≡ true)
    × ((provider_after settings json
          (λ request. post_failed)
          (new_provider settings none none (some 60))
          ((asks page ∷ []) ++ closes ∷ asks page ∷ closes ∷ [])).has_client
        ≡ false)
requests_of-closes_example =
    requests_of-closes settings json (λ request. post_failed) none none (some 60) (asks page ∷ [])
      (asks page ∷ closes ∷ [])
