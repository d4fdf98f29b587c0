-- ===== src/Content/Features.antt =====
-- app/services/content_analyzer/extract.py, `ExtractedFeatures`, and in analyze.py the union of what
-- the fetched page and its rendered document show.
use lin_clean_be_fastapi.Prelude.{
  ℕ, Bool, true, false, ◌||◌, Option, none, some, List, [], ◌∷◌, ◌++◌, Text, is_empty, mem_text,
  if◌then◌else◌,
}

-- A ratio is in thousandths.
pub record ExtractedFeatures : Type 0 where
  pub title : Option Text
  pub has_password_field : Bool
  pub has_password_form_external_action : Bool
  pub has_meta_refresh : Bool
  pub has_external_meta_refresh : Bool
  pub external_link_ratio : Option ℕ
  pub image_alts : List Text
  pub is_spa_shell : Bool
  pub body_text_snippets : List Text
  pub form_field_summaries : List Text
  pub cta_texts : List Text
  pub download_links : List Text
  pub sensitive_field_types : List Text
  pub korean_lure_keywords : List Text
  pub public_agency_keywords : List Text

-- `bool(items)`
unfoldable pub nonempty_list : List Text → Bool
nonempty_list [] = false
nonempty_list (item ∷ items) = true

unfoldable pub unique_merge : List Text → List Text → List Text
unfolding mem_text
unique_merge merged [] = merged
unique_merge merged (item ∷ items) =
    unique_merge (if mem_text item merged then merged else merged ++ item ∷ []) items

-- `rendered.title or static.title`
unfoldable pub merge_title : Option Text → Option Text → Option Text
unfolding is_empty
merge_title static none = static
merge_title static (some title) = if is_empty title then static else some title

unfoldable pub merge_ratio : Option ℕ → Option ℕ → Option ℕ
merge_ratio static none = static
merge_ratio static (some ratio) = some ratio

unfoldable pub merge_features : ExtractedFeatures → ExtractedFeatures → ExtractedFeatures
merge_features static rendered = record {
  title = merge_title static.title rendered.title;
  has_password_field = static.has_password_field || rendered.has_password_field;
  has_password_form_external_action =
      static.has_password_form_external_action || rendered.has_password_form_external_action;
  has_meta_refresh = static.has_meta_refresh || rendered.has_meta_refresh;
  has_external_meta_refresh =
      static.has_external_meta_refresh || rendered.has_external_meta_refresh;
  external_link_ratio = merge_ratio static.external_link_ratio rendered.external_link_ratio;
  image_alts = unique_merge static.image_alts rendered.image_alts;
  is_spa_shell = rendered.is_spa_shell;
  body_text_snippets = unique_merge static.body_text_snippets rendered.body_text_snippets;
  form_field_summaries = unique_merge static.form_field_summaries rendered.form_field_summaries;
  cta_texts = unique_merge static.cta_texts rendered.cta_texts;
  download_links = unique_merge static.download_links rendered.download_links;
  sensitive_field_types = unique_merge static.sensitive_field_types rendered.sensitive_field_types;
  korean_lure_keywords = unique_merge static.korean_lure_keywords rendered.korean_lure_keywords;
  public_agency_keywords =
      unique_merge static.public_agency_keywords rendered.public_agency_keywords;
}
