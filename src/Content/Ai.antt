-- ===== src/Content/Ai.antt =====
-- app/services/content_analyzer/ai.py: what a provider is asked and what it answers, and in analyze.py
-- what becomes of the answer.
use lin_clean_be_fastapi.Prelude.{
  ℕ, ◌≡◌, refl, ◌⊎◌, inl, inr, Bool, Option, none, some, List, Text, text,
}
use lin_clean_be_fastapi.Schemas.Signals.{AiVerdict}
use lin_clean_be_fastapi.Schemas.Results.{TokenUsage}
use lin_clean_be_fastapi.Content.Features.{ExtractedFeatures}

-- What awaiting ends in: a value, a CancelledError, or another exception.
pub data Awaited (A : Type 0) : Type 0 where
  returned : A → Awaited A
  cancelled : Awaited A
  raised : Awaited A

infixl 10 ◌>>=◌
unfoldable pub ◌>>=◌ : {A B : Type 0} → Awaited A → (A → Awaited B) → Awaited B
returned a >>= f = f a
cancelled >>= f = cancelled
raised >>= f = raised

pub Awaited-cases :
    {A : Type 0} (w : Awaited A) → ((a : A) × (w ≡ returned a)) ⊎ (w ≡ cancelled) ⊎ (w ≡ raised)
Awaited-cases (returned a) = inl (a, refl)
Awaited-cases cancelled = inr (inl refl)
Awaited-cases raised = inr (inr refl)

-- What the model is told: the tuples of the source are lists, and a ratio is in thousandths.
pub record AiPromptContext : Type 0 where
  pub final_url : Text
  pub title : Option Text
  pub has_password_field : Bool
  pub has_meta_refresh : Bool
  pub image_alts : List Text
  pub external_link_ratio : Option ℕ
  pub is_spa_shell : Bool
  pub has_password_form_external_action : Bool
  pub has_external_meta_refresh : Bool
  pub upstream_signals : List Text
  pub body_text_snippets : List Text
  pub form_field_summaries : List Text
  pub cta_texts : List Text
  pub download_links : List Text
  pub sensitive_field_types : List Text
  pub korean_lure_keywords : List Text
  pub public_agency_keywords : List Text

unfoldable pub build_prompt_context : Text → ExtractedFeatures → List Text → AiPromptContext
build_prompt_context final_url features upstream_signals = record {
  final_url = final_url;
  title = features.title;
  has_password_field = features.has_password_field;
  has_meta_refresh = features.has_meta_refresh;
  image_alts = features.image_alts;
  external_link_ratio = features.external_link_ratio;
  is_spa_shell = features.is_spa_shell;
  has_password_form_external_action = features.has_password_form_external_action;
  has_external_meta_refresh = features.has_external_meta_refresh;
  upstream_signals = upstream_signals;
  body_text_snippets = features.body_text_snippets;
  form_field_summaries = features.form_field_summaries;
  cta_texts = features.cta_texts;
  download_links = features.download_links;
  sensitive_field_types = features.sensitive_field_types;
  korean_lure_keywords = features.korean_lure_keywords;
  public_agency_keywords = features.public_agency_keywords;
}

pub record AiInference : Type 0 where
  pub verdict : AiVerdict
  pub reason : Text
  pub model : Option Text
  pub token_usage : Option TokenUsage

-- What a provider's `infer` ends in; an AIProviderError has a code.
pub data Inferred : Type 0 where
  answered : Option AiInference → Inferred
  cancelled : Inferred
  provider_error : Text → Inferred
  exception : Inferred

pub record AiProvider : Type 0 where
  pub infer : AiPromptContext → Inferred
  pub fallback_reason : Option Text

-- `NullAIProvider`
unfoldable pub null_ai_provider : Option Text → AiProvider
null_ai_provider reason = record { infer = λ ctx. answered none; fallback_reason = reason }

-- The inference and the error of the model; without either, why the provider is a stand-in.
unfoldable pub to_answer : AiProvider → Inferred → Awaited (Option AiInference × Option Text)
unfolding text
to_answer provider (answered (some inference)) = returned (some inference, none)
to_answer provider (answered none) = returned (none, provider.fallback_reason)
to_answer provider cancelled = cancelled
to_answer provider (provider_error code) = returned (none, some code)
to_answer provider exception = returned (none, some (text "ai_unavailable"))
