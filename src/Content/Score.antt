-- ===== src/Content/Score.antt =====
-- app/services/content_analyzer/signals.py: `score_content`, the rules that turn the features of a
-- page into signals and a score. `brands` finds the brand labels in a text, as `_brands_in_text`.
use lin_clean_be_fastapi.Prelude.{
  ℕ, ◌+◌, min, Bool, true, false, ◌&&◌, ◌||◌, not, Option, none, some, List, [], ◌∷◌, ◌++◌, Text,
  text, any, mem_text, leb, if◌then◌else◌, map,
}
use lin_clean_be_fastapi.Settings.{Settings}
use lin_clean_be_fastapi.Schemas.Signals.{
  ContentSignal, mem_content, brand_impersonation_form, logo_alt_impersonation,
  credential_form_external, pii_collection_form, sensitive_id_field, financial_field,
  risky_download_link, public_agency_lure, korean_lure_text, meta_refresh, external_meta_refresh,
  external_link_overuse, spa_shell,
}
use lin_clean_be_fastapi.Urllib.{lower}
use lin_clean_be_fastapi.Tld.{extract_url_parts}
use lin_clean_be_fastapi.Content.Features.{ExtractedFeatures, nonempty_list}

pub record ContentScoring : Type 0 where
  pub score : ℕ
  pub signals : List ContentSignal
  pub brand_impersonation : Bool
  pub logo_alt_impersonation : Bool

abbrev pub no_scoring : ContentScoring
no_scoring = record {
  score = 0;
  signals = [];
  brand_impersonation = false;
  logo_alt_impersonation = false;
}

unfoldable pub sensitive_id_types : List Text
unfolding text
sensitive_id_types = map text ("resident_registration_number" ∷ "otp" ∷ [])

unfoldable pub pii_field_types : List Text
unfolding text
pii_field_types = map text ("resident_registration_number" ∷ "phone" ∷ "otp" ∷ [])

unfoldable pub financial_field_types : List Text
unfolding text
financial_field_types = map text ("card" ∷ "cvc" ∷ "account" ∷ [])

-- `result.signals.append(signal)` and `result.score += score`
unfoldable pub append_signal : ContentSignal → ℕ → ContentScoring → ContentScoring
append_signal signal score result = record result {
  signals = result.signals ++ signal ∷ [];
  score = result.score + score;
}

unfoldable pub add_signal : ContentSignal → ℕ → ContentScoring → ContentScoring
unfolding mem_content
add_signal signal score result = record result {
  signals =
      if mem_content signal result.signals then result.signals else result.signals ++ signal ∷ [];
  score = result.score + score;
}

unfoldable pub add_score : ℕ → ContentScoring → ContentScoring
add_score score result = record result { score = result.score + score }

-- `if test:` with a change of the result
unfoldable pub when : Bool → (ContentScoring → ContentScoring) → ContentScoring → ContentScoring
when test step result = if test then step result else result

unfoldable pub url_brand_label : Text → Text
unfolding lower extract_url_parts
url_brand_label final_url = lower (extract_url_parts final_url).domain

-- `bool(set(items) & types)`
unfoldable pub meets : List Text → List Text → Bool
unfolding mem_text
meets items types = any (λ item. mem_text item types) items

-- Brands that do not include the label of the page's own domain.
unfoldable pub names_other_brand : Text → List Text → Bool
unfolding nonempty_list mem_text
names_other_brand own_label found = nonempty_list found && not (mem_text own_label found)

-- The brands of all alternative texts.
unfoldable pub alt_brands : (Option Text → List Text) → List Text → List Text
alt_brands brands [] = []
alt_brands brands (alt ∷ alts) = brands (some alt) ++ alt_brands brands alts

module _ (cfg : Settings) (brands : Option Text → List Text) (features : ExtractedFeatures)
    (own_label : Text) where
  unfoldable pub impersonates_brand : Bool
  unfolding names_other_brand
  impersonates_brand =
      features.has_password_field && names_other_brand own_label (brands features.title)

  unfoldable pub has_pii_fields : Bool
  unfolding meets pii_field_types
  has_pii_fields = meets features.sensitive_field_types pii_field_types

  unfoldable pub has_sensitive_id_fields : Bool
  unfolding meets sensitive_id_types
  has_sensitive_id_fields = meets features.sensitive_field_types sensitive_id_types

  unfoldable pub has_financial_fields : Bool
  unfolding meets financial_field_types
  has_financial_fields = meets features.sensitive_field_types financial_field_types

  unfoldable pub has_lure_text : Bool
  unfolding nonempty_list
  has_lure_text = nonempty_list features.korean_lure_keywords

  unfoldable pub has_public_agency_lure : Bool
  unfolding nonempty_list
  has_public_agency_lure = nonempty_list features.public_agency_keywords

  unfoldable pub has_downloads : Bool
  unfolding nonempty_list
  has_downloads = nonempty_list features.download_links

  unfoldable pub impersonates_logo : Bool
  unfolding names_other_brand alt_brands
  impersonates_logo = names_other_brand own_label (alt_brands brands features.image_alts)

  unfoldable pub overuses_external_links : Bool
  overuses_external_links = elim features.external_link_ratio [
    | none ↦ false
    | some ratio ↦ leb cfg.content_external_link_ratio_threshold ratio
  ]

  -- Up to the form that sends a password elsewhere.
  unfoldable pub score_shell_and_forms : ContentScoring → ContentScoring
  score_shell_and_forms r0 =
      let r1 = when features.is_spa_shell (append_signal spa_shell 0) r0 in
      let r2 =
        when impersonates_brand
          (λ r.
            append_signal brand_impersonation_form cfg.score_weight_brand_impersonation
              (record r { brand_impersonation = true }))
          r1 in
      when features.has_password_form_external_action
        (add_signal credential_form_external cfg.score_weight_credential_form_external) r2

  -- The texts, the fields and the downloads.
  unfoldable pub score_fields : ContentScoring → ContentScoring
  score_fields r0 =
      let r1 = when has_lure_text (add_signal korean_lure_text 0) r0 in
      let r2 = when has_public_agency_lure (add_signal public_agency_lure 0) r1 in
      let r3 =
        when has_pii_fields (add_signal pii_collection_form cfg.score_weight_pii_collection_form)
          r2 in
      let r4 =
        when has_sensitive_id_fields
          (add_signal sensitive_id_field cfg.score_weight_sensitive_id_field) r3 in
      let r5 =
        when has_financial_fields (add_signal financial_field cfg.score_weight_financial_field)
          r4 in
      when has_downloads (add_signal risky_download_link cfg.score_weight_risky_download_link) r5

  -- A lure counts only together with a form or a download.
  unfoldable pub score_lures : ContentScoring → ContentScoring
  score_lures r0 =
      let r1 =
        when (has_lure_text && (has_pii_fields || has_financial_fields || has_downloads))
          (add_score cfg.score_weight_korean_lure) r0 in
      when (has_public_agency_lure && has_pii_fields)
        (add_score cfg.score_weight_public_agency_lure) r1

  -- The images, the refreshes and the links.
  unfoldable pub score_page : ContentScoring → ContentScoring
  score_page r0 =
      let r1 =
        when impersonates_logo
          (λ r.
            append_signal logo_alt_impersonation cfg.score_weight_logo_alt_impersonation
              (record r { logo_alt_impersonation = true }))
          r0 in
      let r2 =
        when features.has_meta_refresh
          (λ r.
            when features.has_external_meta_refresh
              (append_signal external_meta_refresh cfg.score_weight_external_meta_refresh)
              (append_signal meta_refresh cfg.score_weight_meta_refresh r))
          r1 in
      when overuses_external_links
        (append_signal external_link_overuse cfg.score_weight_external_link_overuse) r2

unfoldable pub score_content :
    Settings → (Option Text → List Text) → ExtractedFeatures → Text → ContentScoring
score_content cfg brands features final_url =
    let own_label = url_brand_label final_url in
    let r1 = score_shell_and_forms cfg brands features own_label no_scoring in
    let r2 = score_fields cfg brands features own_label r1 in
    let r3 = score_lures cfg brands features own_label r2 in
    let r4 = score_page cfg brands features own_label r3 in
    record r4 { score = min r4.score cfg.content_analysis_score_cap }
