-- ===== src/Content/OpenAi.antt =====
-- app/services/content_analyzer/ai_openai.py: the provider that asks the chat completions of OpenAI.
-- The client's request, `json` and `int` are parameters. The system prompt, the schema of the reply and
-- the temperature are constants of every request and are left out, as the logging is.
pub mod Json
pub mod Prompt
pub mod Verdict
pub mod Reply
pub mod Closed
mod Tests
use lin_clean_be_fastapi.Prelude.{
  ℕ, Bool, true, false, Option, none, some, List, [], ◌∷◌, ◌++◌, Text, text, text_eq, is_empty,
  take, if◌then◌else◌,
}
use lin_clean_be_fastapi.Content.Ai.{AiPromptContext, Inferred, answered, AiProvider}
use Prompt.{build_user_prompt}
use Verdict.{JsonLib, Posted, from_posted}

pub record OpenAiSettings : Type 0 where
  pub openai_api_key : Option Text
  pub openai_model : Text
  pub openai_timeout : ℕ
  pub openai_max_output_tokens : ℕ

pub record Request : Type 0 where
  pub model : Text
  pub user : Text
  pub max_tokens : ℕ
  pub timeout : ℕ

pub record OpenAiProvider : Type 0 where
  pub model : Text
  pub timeout : ℕ
  pub max_output_tokens : ℕ
  pub has_client : Bool
  pub closed : Bool

-- `value if value is not None else default`
unfoldable pub or_default : {A : Type 0} → Option A → A → A
or_default none default = default
or_default (some value) default = value

-- `OpenAIProvider(model=..., timeout_seconds=..., max_output_tokens=...)`
unfoldable pub new_provider : OpenAiSettings → Option Text → Option ℕ → Option ℕ → OpenAiProvider
unfolding or_default
new_provider cfg model timeout max_output_tokens = record {
  model = or_default model cfg.openai_model;
  timeout = or_default timeout cfg.openai_timeout;
  max_output_tokens = or_default max_output_tokens cfg.openai_max_output_tokens;
  has_client = false;
  closed = false;
}

unfoldable pub has_key : Option Text → Bool
has_key none = false
has_key (some []) = false
has_key (some (c ∷ key)) = true

-- Whether there is a client, and the provider with it.
unfoldable pub get_client : OpenAiSettings → OpenAiProvider → Bool × OpenAiProvider
unfolding has_key
get_client cfg provider =
    if provider.closed
    then (false, provider)
    else if has_key cfg.openai_api_key
    then (true, record provider { has_client = true })
    else (false, provider)

unfoldable pub aclose : OpenAiProvider → OpenAiProvider
aclose provider =
    if provider.closed then provider else record provider { closed = true; has_client = false }

unfoldable pub to_request : JsonLib → OpenAiProvider → AiPromptContext → Request
unfolding build_user_prompt
to_request lib provider ctx = record {
  model = provider.model;
  user = lib.dumps (build_user_prompt ctx);
  max_tokens = provider.max_output_tokens;
  timeout = provider.timeout;
}

-- What a call ends in, the requests that it sends, and the provider after it.
pub record Called : Type 0 where
  pub result : Inferred
  pub requests : List Request
  pub provider : OpenAiProvider

unfoldable pub infer :
    OpenAiSettings → JsonLib → (Request → Posted) → OpenAiProvider → AiPromptContext → Called
unfolding get_client to_request from_posted
infer cfg lib post provider ctx =
    let (client, after) = get_client cfg provider in
    let request = to_request lib after ctx in
    if client
    then record {
      result = from_posted lib after.model (post request);
      requests = request ∷ [];
      provider = after;
    }
    else record { result = answered none; requests = []; provider = after }

-- The provider as the content analysis takes it; the class has no `fallback_reason`.
unfoldable pub to_provider :
    OpenAiSettings → JsonLib → (Request → Posted) → OpenAiProvider → AiProvider
unfolding infer
to_provider cfg lib post provider = record {
  infer = λ ctx. (infer cfg lib post provider ctx).result;
  fallback_reason = none;
}
