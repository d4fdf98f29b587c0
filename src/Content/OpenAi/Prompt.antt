-- ===== src/Content/OpenAi/Prompt.antt =====
-- app/services/content_analyzer/ai_openai.py: what the model is sent.
use lin_clean_be_fastapi.Prelude.{ℕ, Bool, Option, List, Text, take}
use lin_clean_be_fastapi.Content.Ai.{AiPromptContext}

-- What `_build_user_prompt` serialises, in the order of the source.
pub record UserPrompt : Type 0 where
  pub final_url : Text
  pub title : Option Text
  pub has_password_field : Bool
  pub has_password_form_external_action : Bool
  pub has_meta_refresh : Bool
  pub has_external_meta_refresh : Bool
  pub external_link_ratio : Option ℕ
  pub spa_shell : Bool
  pub image_alts : List Text
  pub body_text : List Text
  pub form_fields : List Text
  pub cta_texts : List Text
  pub download_links : List Text
  pub sensitive_field_types : List Text
  pub korean_lure_keywords : List Text
  pub public_agency_keywords : List Text
  pub upstream_signals : List Text

unfoldable pub build_user_prompt : AiPromptContext → UserPrompt
build_user_prompt ctx = record {
  final_url = ctx.final_url;
  title = ctx.title;
  has_password_field = ctx.has_password_field;
  has_password_form_external_action = ctx.has_password_form_external_action;
  has_meta_refresh = ctx.has_meta_refresh;
  has_external_meta_refresh = ctx.has_external_meta_refresh;
  external_link_ratio = ctx.external_link_ratio;
  spa_shell = ctx.is_spa_shell;
  image_alts = take 10 ctx.image_alts;
  body_text = take 10 ctx.body_text_snippets;
  form_fields = take 20 ctx.form_field_summaries;
  cta_texts = take 10 ctx.cta_texts;
  download_links = take 10 ctx.download_links;
  sensitive_field_types = ctx.sensitive_field_types;
  korean_lure_keywords = ctx.korean_lure_keywords;
  public_agency_keywords = ctx.public_agency_keywords;
  upstream_signals = ctx.upstream_signals;
}
