-- ===== src/Content/Total.antt =====
-- The score of `score_content`: every signal once, in the order of the rules, and what it weighs.
use lin_clean_be_fastapi.Prelude.{
  ℕ, ◌+◌, min, ◌≡◌, refl, Bool, true, false, ◌&&◌, ◌||◌, Option, List, Text, if◌then◌else◌, arith,
}
use lin_clean_be_fastapi.Prelude.Ascending.{IsAscending}
use lin_clean_be_fastapi.Settings.{Settings}
use lin_clean_be_fastapi.Schemas.Signals.{
  mem_content, brand_impersonation_form, logo_alt_impersonation, credential_form_external,
  pii_collection_form, sensitive_id_field, financial_field, risky_download_link, public_agency_lure,
  korean_lure_text, meta_refresh, external_meta_refresh, external_link_overuse, spa_shell,
}
use lin_clean_be_fastapi.Content.Features.{ExtractedFeatures}
use lin_clean_be_fastapi.Content.Score.{
  ContentScoring, no_scoring, append_signal, add_score, when, url_brand_label,
  score_shell_and_forms, score_fields, score_lures, score_page, score_content, has_pii_fields,
  has_financial_fields, has_sensitive_id_fields, impersonates_brand, impersonates_logo,
  overuses_external_links, has_lure_text, has_public_agency_lure, has_downloads,
}
use lin_clean_be_fastapi.Content.Accounts.{
  rank, total_weight, IsAt, IsAt-append, IsAt-when, IsAt-append_signal, when-append, when-add,
}

-- The signals in order, the score that they and the bonus add up to, and the two flags.
abbrev pub IsAccounted : Settings → ℕ → ContentScoring → Type 0
IsAccounted cfg bonus r =
    IsAscending rank 0 r.signals 13
    × (r.score ≡ min (total_weight cfg r.signals + bonus) cfg.content_analysis_score_cap)
    × (r.brand_impersonation ≡ mem_content brand_impersonation_form r.signals)
    × (r.logo_alt_impersonation ≡ mem_content logo_alt_impersonation r.signals)

module _ (cfg : Settings) (brands : Option Text → List Text) (features : ExtractedFeatures)
    (own_label : Text) where
  -- What the lures add beside the signals, where they meet a form or a download.
  abbrev pub lure_bonus : ℕ
  lure_bonus =
      (if has_lure_text cfg brands features own_label
          && (has_pii_fields cfg brands features own_label
              || has_financial_fields cfg brands features own_label
              || has_downloads cfg brands features own_label)
        then cfg.score_weight_korean_lure
        else 0)
      + (if has_public_agency_lure cfg brands features own_label
            && has_pii_fields cfg brands features own_label
          then cfg.score_weight_public_agency_lure
          else 0)

  -- Up to the impersonation of a brand.
  brand_rule : ContentScoring → ContentScoring
  brand_rule r =
      when (impersonates_brand cfg brands features own_label)
        (λ r.
          append_signal brand_impersonation_form cfg.score_weight_brand_impersonation
            (record r { brand_impersonation = true }))
        r

  brand_rule-IsAt : (r : ContentScoring) → IsAt cfg 1 0 r → IsAt cfg 2 0 (brand_rule r)
  unfolding brand_rule append_signal
  brand_rule-IsAt r a =
      IsAt-when cfg 0 _ _ r 1 2 (omega arith) a
        (IsAt-append cfg 0 brand_impersonation_form r _ refl refl (ground arith) (ground arith) a)

  score_shell_and_forms-IsAt :
      (r : ContentScoring)
      → IsAt cfg 0 0 r
      → IsAt cfg 3 0 (score_shell_and_forms cfg brands features own_label r)
  unfolding score_shell_and_forms brand_rule
  score_shell_and_forms-IsAt r a =
      when-add cfg 0 credential_form_external features.has_password_form_external_action _ 2
        (omega arith) (omega arith)
        (brand_rule-IsAt _
          (when-append cfg 0 spa_shell features.is_spa_shell r 0 (omega arith) (omega arith) a))

  score_fields-IsAt :
      (r : ContentScoring)
      → IsAt cfg 3 0 r
      → IsAt cfg 9 0 (score_fields cfg brands features own_label r)
  unfolding score_fields
  score_fields-IsAt r a =
      let lure = has_lure_text cfg brands features own_label in
      let agency = has_public_agency_lure cfg brands features own_label in
      let pii = has_pii_fields cfg brands features own_label in
      let id = has_sensitive_id_fields cfg brands features own_label in
      let financial = has_financial_fields cfg brands features own_label in
      let downloads = has_downloads cfg brands features own_label in
      let a1 = when-add cfg 0 korean_lure_text lure _ 3 (omega arith) (omega arith) a in
      let a2 = when-add cfg 0 public_agency_lure agency _ 4 (omega arith) (omega arith) a1 in
      let a3 = when-add cfg 0 pii_collection_form pii _ 5 (omega arith) (omega arith) a2 in
      let a4 = when-add cfg 0 sensitive_id_field id _ 6 (omega arith) (omega arith) a3 in
      let a5 = when-add cfg 0 financial_field financial _ 7 (omega arith) (omega arith) a4 in
      when-add cfg 0 risky_download_link downloads _ 8 (omega arith) (omega arith) a5

  -- A rule that adds to the score alone.
  when-add_score :
      (test : Bool) (weight n bonus total : ℕ) (r : ContentScoring)
      → total ≡ bonus + (if test then weight else 0)
      → IsAt cfg n bonus r
      → IsAt cfg n total (when test (add_score weight) r)
  unfolding when add_score
  when-add_score true weight n bonus total r e a = record {
    ascending = a.ascending;
    accounted = omega (arith, a.accounted, e);
    brand = a.brand;
    logo = a.logo;
  }
  when-add_score false weight n bonus total r e a = record {
    ascending = a.ascending;
    accounted = omega (arith, a.accounted, e);
    brand = a.brand;
    logo = a.logo;
  }

  score_lures-IsAt :
      (r : ContentScoring)
      → IsAt cfg 9 0 r
      → IsAt cfg 9 lure_bonus (score_lures cfg brands features own_label r)
  unfolding score_lures
  score_lures-IsAt r a =
      when-add_score _ _ 9 _ _ _ refl (when-add_score _ _ 9 0 _ r (omega arith) a)

  logo_rule : ContentScoring → ContentScoring
  logo_rule r =
      when (impersonates_logo cfg brands features own_label)
        (λ r.
          append_signal logo_alt_impersonation cfg.score_weight_logo_alt_impersonation
            (record r { logo_alt_impersonation = true }))
        r

  logo_rule-IsAt :
      (bonus : ℕ) (r : ContentScoring) → IsAt cfg 9 bonus r → IsAt cfg 10 bonus (logo_rule r)
  unfolding logo_rule append_signal
  logo_rule-IsAt bonus r a =
      IsAt-when cfg bonus _ _ r 9 10 (omega arith) a
        (IsAt-append cfg bonus logo_alt_impersonation r _ refl refl (ground arith) (ground arith) a)

  refresh_rule : ContentScoring → ContentScoring
  refresh_rule r =
      when features.has_meta_refresh
        (λ r.
          when features.has_external_meta_refresh
            (append_signal external_meta_refresh cfg.score_weight_external_meta_refresh)
            (append_signal meta_refresh cfg.score_weight_meta_refresh r))
        r

  refresh_rule-IsAt :
      (bonus : ℕ) (r : ContentScoring) → IsAt cfg 10 bonus r → IsAt cfg 12 bonus (refresh_rule r)
  unfolding refresh_rule
  refresh_rule-IsAt bonus r a =
      IsAt-when cfg bonus features.has_meta_refresh _ r 10 12 (omega arith) a (
        when-append cfg bonus external_meta_refresh features.has_external_meta_refresh _ 11
          (omega arith) (omega arith) (IsAt-append_signal cfg bonus meta_refresh r (omega arith) a))

  score_page-IsAt :
      (bonus : ℕ) (r : ContentScoring)
      → IsAt cfg 9 bonus r
      → IsAt cfg 13 bonus (score_page cfg brands features own_label r)
  unfolding score_page logo_rule refresh_rule
  score_page-IsAt bonus r a =
      when-append cfg bonus external_link_overuse
        (overuses_external_links cfg brands features own_label) _ 12 (omega arith) (omega arith)
        (refresh_rule-IsAt bonus _ (logo_rule-IsAt bonus r a))

no_scoring-IsAt : (cfg : Settings) → IsAt cfg 0 0 no_scoring
unfolding mem_content
no_scoring-IsAt cfg = record {
  ascending = omega arith;
  accounted = refl;
  brand = refl;
  logo = refl;
}

-- In the result of `score_content` each signal stands at most once and in the order of the rules;
-- the score is what the signals weigh, with the extra of the lures that meet a form or a download, up
-- to the cap; and the two flags of impersonation say whether their signals are there.
pub score_content-IsAccounted :
    (cfg : Settings) (brands : Option Text → List Text) (features : ExtractedFeatures)
    (final_url : Text)
    → IsAccounted cfg
        (lure_bonus cfg brands features (url_brand_label final_url))
        (score_content cfg brands features final_url)
unfolding score_content
score_content-IsAccounted cfg brands features final_url =
    let own = url_brand_label final_url in
    let a = score_page-IsAt cfg brands features own _ _ (
      score_lures-IsAt cfg brands features own _ (
        score_fields-IsAt cfg brands features own _
          (score_shell_and_forms-IsAt cfg brands features own no_scoring (no_scoring-IsAt cfg)))) in
    (a.ascending, rw a.accounted refl, a.brand, a.logo)
