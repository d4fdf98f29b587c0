-- ===== src/Content/Analyze.antt =====
-- app/services/content_analyzer/analyze.py: `analyze_content`. The page is fetched, read and, where
-- needed, rendered by the fields of `Services`; the model is a provider of app/services/
-- content_analyzer/ai.py. Logging is left out.
use lin_clean_be_fastapi.Prelude.{
  ℕ, ◌+◌, min, Bool, true, false, ◌&&◌, ◌||◌, not, Option, none, some, List, [], ◌∷◌, ◌++◌, map,
  Text, text, mem_text, any, leb, if◌then◌else◌,
}
use lin_clean_be_fastapi.Settings.{Settings}
use lin_clean_be_fastapi.Schemas.Signals.{
  ContentSignal, AiVerdict, suspicious, mem_content, brand_impersonation_form,
  credential_form_external, sensitive_id_field, financial_field, risky_download_link,
  external_meta_refresh, rendered_dom_analyzed,
}
use lin_clean_be_fastapi.Schemas.Results.{ContentAnalysisResult, content_defaults}
use lin_clean_be_fastapi.Content.{ai_score_weight, fetch_failed_result}
use lin_clean_be_fastapi.Content.Features.{ExtractedFeatures, nonempty_list, merge_features}
use lin_clean_be_fastapi.Content.Ai.{
  Awaited, returned, ◌>>=◌, AiPromptContext, AiInference, AiProvider, build_prompt_context,
  to_answer,
}
use lin_clean_be_fastapi.Content.Score.{ContentScoring, score_content}

pub record FetchResult : Type 0 where
  pub ok : Bool
  pub url : Text
  pub status_code : Option ℕ
  pub html : Text
  pub error : Option Text

pub record RenderResult : Type 0 where
  pub ok : Bool
  pub url : Text
  pub html : Text
  pub error : Option Text

pub record Services : Type 0 where
  pub fetch_page : Text → Awaited FetchResult
  pub extract_features_async : Text → Text → Awaited ExtractedFeatures
  pub render_page : Text → Awaited RenderResult
  pub get_ai_provider : AiProvider
  pub brands_in_text : Option Text → List Text
  pub is_trusted_registered_domain : Text → Bool

unfoldable pub high_risk_content_signals : List ContentSignal
high_risk_content_signals =
    brand_impersonation_form ∷ credential_form_external ∷ sensitive_id_field ∷ financial_field
    ∷ risky_download_link ∷ external_meta_refresh ∷ []

unfoldable pub high_risk_upstream_signals : List Text
unfolding text
high_risk_upstream_signals = map text (
    "URL_USERINFO" ∷ "OPEN_REDIRECT_PARAM" ∷ "BRAND_IN_URL" ∷ "FREE_HOSTING_LURE" ∷ "SENSITIVE_PATH"
    ∷ "SUSPICIOUS_TLD" ∷ "PUNYCODE_IDN" ∷ "TYPO_DOMAIN" ∷ [])

unfoldable pub should_apply_ai_suspicious_score :
    Services → Text → ContentScoring → List Text → Bool
unfolding mem_content mem_text high_risk_content_signals high_risk_upstream_signals
should_apply_ai_suspicious_score services final_url scoring upstream =
    not (services.is_trusted_registered_domain final_url)
    || any (λ s. mem_content s high_risk_content_signals) scoring.signals
    || any (λ s. mem_text s high_risk_upstream_signals) upstream

unfoldable pub should_run_precision_analysis : Settings → ExtractedFeatures → ContentScoring → Bool
unfolding nonempty_list
should_run_precision_analysis cfg features scoring =
    cfg.content_precision_enabled
    && not (leb cfg.score_danger_threshold scoring.score)
    && (features.is_spa_shell
        || leb cfg.content_precision_min_score scoring.score
        || nonempty_list features.download_links
        || nonempty_list features.sensitive_field_types
        || nonempty_list features.korean_lure_keywords
        || nonempty_list features.public_agency_keywords)

-- What the rules have found, with or without the rendered document.
pub record Findings : Type 0 where
  pub features : ExtractedFeatures
  pub scoring : ContentScoring
  pub precision_analysis_used : Bool
  pub precision_analysis_error : Option Text

-- The signal that the rendered document was looked at, once.
unfoldable pub mark_rendered : ContentScoring → ContentScoring
unfolding mem_content
mark_rendered scoring = record scoring {
  signals =
      if mem_content rendered_dom_analyzed scoring.signals
      then scoring.signals
      else scoring.signals ++ rendered_dom_analyzed ∷ [];
}

unfoldable pub with_rendered :
    Settings → Services → Text → ExtractedFeatures → ExtractedFeatures → Findings
unfolding merge_features score_content mark_rendered
with_rendered cfg services final_url features rendered =
    let merged = merge_features features rendered in
    record {
      features = merged;
      scoring = mark_rendered (score_content cfg services.brands_in_text merged final_url);
      precision_analysis_used = true;
      precision_analysis_error = none;
    }

unfoldable pub run_precision_analysis :
    Settings → Services → Text → ExtractedFeatures → Awaited Findings
run_precision_analysis cfg services final_url features =
    let scoring = score_content cfg services.brands_in_text features final_url in
    if should_run_precision_analysis cfg features scoring
    then (services.render_page final_url >>= λ rendered.
        if rendered.ok
        then (services.extract_features_async rendered.html final_url >>= λ more.
            returned (with_rendered cfg services final_url features more))
        else returned record {
          features = features;
          scoring = scoring;
          precision_analysis_used = true;
          precision_analysis_error = rendered.error;
        })
    else returned record {
      features = features;
      scoring = scoring;
      precision_analysis_used = false;
      precision_analysis_error = none;
    }

-- `provider if provider is not None else get_ai_provider()`
unfoldable pub choose_provider : Services → Option AiProvider → AiProvider
choose_provider services none = services.get_ai_provider
choose_provider services (some provider) = provider

unfoldable pub ask_model :
    Services
    → Option AiProvider
    → Bool
    → AiPromptContext
    → Awaited (Option AiInference × Option Text)
unfolding to_answer choose_provider
ask_model services provider use_ai ctx =
    if use_ai
    then to_answer (choose_provider services provider)
        ((choose_provider services provider).infer ctx)
    else returned (none, none)

-- What a verdict adds to the score; `applies` is asked for a suspicion only.
unfoldable pub verdict_score : Settings → Bool → AiVerdict → ℕ
unfolding ai_score_weight
verdict_score cfg applies suspicious = if applies then ai_score_weight cfg suspicious else 0
verdict_score cfg applies verdict = ai_score_weight cfg verdict

-- What the inference adds to the score.
unfoldable pub ai_score :
    Settings → Services → Text → ContentScoring → List Text → Option AiInference → ℕ
unfolding verdict_score should_apply_ai_suspicious_score
ai_score cfg services final_url scoring upstream none = 0
ai_score cfg services final_url scoring upstream (some inference) =
    verdict_score cfg (should_apply_ai_suspicious_score services final_url scoring upstream)
      inference.verdict

-- The fields of the result that the inference fills.
unfoldable pub with_inference : Option AiInference → ContentAnalysisResult → ContentAnalysisResult
with_inference none result = result
with_inference (some inference) result = record result {
  ai_verdict = some inference.verdict;
  ai_reason = some inference.reason;
  ai_model = inference.model;
  ai_token_usage = inference.token_usage;
}

unfoldable pub to_result :
    Settings
    → Services
    → Text
    → FetchResult
    → Findings
    → List Text
    → Option AiInference
    → Option Text
    → ContentAnalysisResult
unfolding ai_score with_inference
to_result cfg services final_url fetched found upstream inference ai_error =
    let features = found.features in
    let scoring = found.scoring in
    with_inference inference (record (content_defaults final_url true) {
      status_code = fetched.status_code;
      score =
          min (scoring.score + ai_score cfg services final_url scoring upstream inference)
            cfg.content_analysis_score_cap;
      signals = scoring.signals;
      title = features.title;
      has_password_field = features.has_password_field;
      has_password_form_external_action = features.has_password_form_external_action;
      has_meta_refresh = features.has_meta_refresh;
      has_external_meta_refresh = features.has_external_meta_refresh;
      external_link_ratio = features.external_link_ratio;
      brand_impersonation = scoring.brand_impersonation;
      logo_alt_impersonation = scoring.logo_alt_impersonation;
      is_spa_shell = features.is_spa_shell;
      body_text_snippets = features.body_text_snippets;
      form_field_summaries = features.form_field_summaries;
      cta_texts = features.cta_texts;
      download_links = features.download_links;
      sensitive_field_types = features.sensitive_field_types;
      korean_lure_keywords = features.korean_lure_keywords;
      public_agency_keywords = features.public_agency_keywords;
      precision_analysis_used = found.precision_analysis_used;
      precision_analysis_error = found.precision_analysis_error;
      ai_error = ai_error;
    })

-- A page that was fetched. `upstream` is what awaiting the signals of the earlier stages ends in.
unfoldable pub analyze_page :
    Settings
    → Services
    → Option AiProvider
    → Awaited (List Text)
    → Bool
    → Text
    → FetchResult
    → Awaited ContentAnalysisResult
analyze_page cfg services provider upstream use_ai final_url fetched =
    services.extract_features_async fetched.html final_url >>= λ features.
    run_precision_analysis cfg services final_url features >>= λ found. upstream >>= λ signals.
    ask_model services provider use_ai (build_prompt_context final_url found.features signals)
    >>= λ (inference, ai_error).
        returned (to_result cfg services final_url fetched found signals inference ai_error)

unfoldable pub analyze_content :
    Settings
    → Services
    → Option AiProvider
    → Awaited (List Text)
    → Bool
    → Text
    → Awaited ContentAnalysisResult
analyze_content cfg services provider upstream use_ai final_url =
    services.fetch_page final_url >>= λ fetched.
    if fetched.ok
    then analyze_page cfg services provider upstream use_ai final_url fetched
    else returned (record (fetch_failed_result cfg final_url fetched.error) {
      status_code = fetched.status_code;
    })
