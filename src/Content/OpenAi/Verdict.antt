-- ===== src/Content/OpenAi/Verdict.antt =====
-- app/services/content_analyzer/ai_openai.py: the reading of a reply.
use lin_clean_be_fastapi.Prelude.{
  ℕ, Bool, Option, none, some, Text, text, text_eq, is_empty, take, if◌then◌else◌,
}
use lin_clean_be_fastapi.Urllib.{strip}
use lin_clean_be_fastapi.Schemas.Signals.{AiVerdict, phishing, suspicious, benign}
use lin_clean_be_fastapi.Schemas.Results.{TokenUsage}
use lin_clean_be_fastapi.Content.Ai.{AiInference, Inferred, answered, cancelled, exception}
use lin_clean_be_fastapi.Content.OpenAi.Prompt.{UserPrompt}
use lin_clean_be_fastapi.Content.OpenAi.Json.{
  ◌>>=◌, Json, null, boolean, number, string, array, object, element, end_of_array, member,
  end_of_object, get, get_value, index, first_element,
}

pub record JsonLib : Type 0 where
  -- `json.dumps(payload, ensure_ascii=False)`
  pub dumps : UserPrompt → Text
  -- `json.loads(raw)`; `none` is a JSONDecodeError
  pub loads : Text → Option Json
  -- whether the number with a literal is false as a condition
  pub is_zero : Text → Bool
  -- `int(value)`; `none` where it raises, and for what TokenUsage refuses
  pub to_int : Json → Option ℕ

-- `completion["choices"][0]["message"]["content"]`, with `none` for the errors that are caught.
unfoldable pub content_of : Json → Option Json
unfolding text index first_element
content_of completion = do
  choices ← index (text "choices") completion
  choice ← first_element choices
  message ← index (text "message") choice
  index (text "content") message

-- The three counts of a usage, with the outer `none` for an exception of `int` or of TokenUsage.
unfoldable pub to_usage : JsonLib → Json → Json → Json → Option (Option TokenUsage)
to_usage lib prompt completion total = do
  prompt ← lib.to_int prompt
  completion ← lib.to_int completion
  total ← lib.to_int total
  some (
      some
        (record { prompt_tokens = prompt; completion_tokens = completion; total_tokens = total }))

unfoldable pub read_usage : JsonLib → Option Json → Option (Option TokenUsage)
unfolding text get_value to_usage
read_usage lib (some (object usage)) = elim (get_value (text "prompt_tokens") usage) [
  | none ↦ some none
  | some prompt ↦ elim (get_value (text "completion_tokens") usage) [
    | none ↦ some none
    | some completion ↦ elim (get_value (text "total_tokens") usage) [
      | none ↦ some none
      | some total ↦ to_usage lib prompt completion total
    ]
  ]
]
read_usage lib _ = some none

unfoldable pub extract_token_usage : JsonLib → Json → Option (Option TokenUsage)
unfolding text read_usage index
extract_token_usage lib completion = read_usage lib (index (text "usage") completion)

-- `AIVerdict(verdict)`; `none` is a ValueError.
unfoldable pub verdict_code : AiVerdict → Text
unfolding text
verdict_code phishing = text "phishing"
verdict_code suspicious = text "suspicious"
verdict_code benign = text "benign"

unfoldable pub read_verdict : Text → Option AiVerdict
unfolding verdict_code text_eq
read_verdict s =
    if text_eq s (verdict_code phishing)
    then some phishing
    else if text_eq s (verdict_code suspicious)
    then some suspicious
    else if text_eq s (verdict_code benign)
    then some benign
    else none

-- What is done with the verdict and the reason of a reply.
unfoldable pub to_inference :
    Text → Option TokenUsage → Option Json → Option Json → Option AiInference
unfolding strip read_verdict
to_inference model usage (some (string verdict)) (some (string reason)) =
    elim (read_verdict verdict) [
      | none ↦ none
      | some verdict ↦ some (record {
        verdict = verdict;
        reason = take 100 (strip reason);
        model = some model;
        token_usage = usage;
      })
    ]
to_inference model usage _ _ = none

-- `_parse_verdict` on a value that was decoded: `get` of anything but an object raises.
unfoldable pub from_data : Text → Option TokenUsage → Json → Inferred
unfolding text get to_inference
from_data model usage (object members) =
    answered (to_inference model usage (get (text "verdict") members) (get (text "reason") members))
from_data model usage _ = exception

unfoldable pub from_text : JsonLib → Text → Option TokenUsage → Text → Inferred
unfolding is_empty from_data
from_text lib model usage raw =
    if is_empty raw
    then answered none
    else elim (lib.loads raw) [ none ↦ answered none | some value ↦ from_data model usage value ]

-- `_parse_verdict`: a content that is false as a condition is none, and `json.loads` raises for a
-- content that is not a text.
unfoldable pub parse_verdict : JsonLib → Text → Option TokenUsage → Json → Inferred
unfolding from_text
parse_verdict lib model usage null = answered none
parse_verdict lib model usage (boolean b) = if b then exception else answered none
parse_verdict lib model usage (number n) = if lib.is_zero n then answered none else exception
parse_verdict lib model usage (string raw) = from_text lib model usage raw
parse_verdict lib model usage (array end_of_array) = answered none
parse_verdict lib model usage (array (element value _)) = exception
parse_verdict lib model usage (object end_of_object) = answered none
parse_verdict lib model usage (object (member name value _)) = exception

-- What the request ends in: a reply with JSON, a cancellation, or any other exception.
pub data Posted : Type 0 where
  completed : Json → Posted
  post_cancelled : Posted
  post_failed : Posted

-- From the reply on.
unfoldable pub from_posted : JsonLib → Text → Posted → Inferred
unfolding content_of extract_token_usage parse_verdict
from_posted lib model post_cancelled = cancelled
from_posted lib model post_failed = answered none
from_posted lib model (completed completion) = elim (content_of completion) [
  | none ↦ answered none
  | some content ↦ elim (extract_token_usage lib completion) [
    | none ↦ exception
    | some usage ↦ parse_verdict lib model usage content
  ]
]
