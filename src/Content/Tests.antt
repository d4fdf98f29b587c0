-- ===== src/Content/Tests.antt =====
-- Runs of the content analysis and instances of its theorems.
use lin_clean_be_fastapi.Prelude.{
  ℕ, ◌≡◌, refl, Bool, true, false, none, some, List, [], ◌∷◌, Text, text, All, mem_text, contains,
  ◌⊎◌, leb, ◌||◌, ◌&&◌,
}
use lin_clean_be_fastapi.Settings.{default_settings}
use lin_clean_be_fastapi.Schemas.Signals.{
  suspicious, mem_content, financial_field, rendered_dom_analyzed,
}
use lin_clean_be_fastapi.Schemas.Results.{ContentAnalysisResult}
use lin_clean_be_fastapi.Urllib.{lower, is_alpha, strip}
use lin_clean_be_fastapi.Tld.{extract_url_parts}
use lin_clean_be_fastapi.Content.Features.{
  ExtractedFeatures, merge_features, merge_ratio, unique_merge, merge_title,
}
use lin_clean_be_fastapi.Content.Brands.{
  read_brand_labels, read_lines, read_label, brands_in_text, is_ascii,
}
use lin_clean_be_fastapi.Content.Score.{
  score_content, score_shell_and_forms, score_fields, score_lures, score_page, url_brand_label,
  when, append_signal, add_signal, add_score, impersonates_brand, has_pii_fields,
  has_sensitive_id_fields, has_financial_fields, has_lure_text, has_public_agency_lure,
  has_downloads, impersonates_logo, overuses_external_links,
}
use lin_clean_be_fastapi.Content.Ai.{
  Awaited, raised, cancelled, returned, ◌>>=◌, answered, provider_error, AiProvider,
  null_ai_provider,
}
use lin_clean_be_fastapi.Content.Analyze.{
  should_run_precision_analysis, Services, analyze_content, analyze_page, run_precision_analysis,
  with_rendered, ask_model, to_result,
}
use lin_clean_be_fastapi.Content.Total.{lure_bonus, IsAccounted, score_content-IsAccounted}
use lin_clean_be_fastapi.Content.Evidence.{evidence, score_content-evidence}
use lin_clean_be_fastapi.Content.Words.{IsWordIn, brands_in_text-IsWordIn}
use lin_clean_be_fastapi.Content.Verdicts.{with_ai_error, analyze_content-failing_model}
use lin_clean_be_fastapi.Content.Bounds.{Follows, IsRaised, analyze_content-Follows}
use lin_clean_be_fastapi.Content.Merge.{score_content-merge}

abbrev is_word : ℕ → Bool
is_word c = is_alpha c || (leb b'0' c && leb c b'9')

abbrev paypal : Text
paypal = b'p' ∷ b'a' ∷ b'y' ∷ b'p' ∷ b'a' ∷ b'l' ∷ []

abbrev labels : List Text
labels = paypal ∷ []

read_brand_labels_tests :
    (read_brand_labels (some (text "# brands" ∷ text " PayPal.com" ∷ text "kb.co.kr" ∷ []))
      ≡ some (text "paypal" ∷ []))
    × (read_brand_labels none ≡ none)
unfolding read_brand_labels read_lines read_label strip extract_url_parts text
read_brand_labels_tests = (refl, refl)

brands_in_text_tests :
    (brands_in_text is_word labels (some (text "Log in to PayPal!")) ≡ labels)
    × (brands_in_text is_word labels (some (text "paypals, mypaypal")) ≡ [])
unfolding brands_in_text text lower is_alpha
brands_in_text_tests = (refl, refl)

-- A page with a card field and a password field, whose title names a brand.
abbrev pub card_page : ExtractedFeatures
card_page = record {
  title = some paypal;
  has_password_field = true;
  has_password_form_external_action = false;
  has_meta_refresh = false;
  has_external_meta_refresh = false;
  external_link_ratio = some 900;
  image_alts = [];
  is_spa_shell = false;
  body_text_snippets = [];
  form_field_summaries = [];
  cta_texts = [];
  download_links = [];
  sensitive_field_types = (b'c' ∷ b'a' ∷ b'r' ∷ b'd' ∷ []) ∷ [];
  korean_lure_keywords = [];
  public_agency_keywords = [];
}

abbrev pub shell_page : ExtractedFeatures
shell_page = record card_page {
  title = none;
  has_password_field = false;
  external_link_ratio = none;
  is_spa_shell = true;
  sensitive_field_types = [];
}

abbrev evil : Text
evil =
    b'h' ∷ b't' ∷ b't' ∷ b'p' ∷ b':' ∷ b'/' ∷ b'/' ∷ b'e' ∷ b'v' ∷ b'i' ∷ b'l' ∷ b'.' ∷ b'c' ∷ b'o'
    ∷ b'm' ∷ []

score_content_test :
    (score_content default_settings (brands_in_text is_word labels) card_page evil).score ≡ 80
unfolding score_content when append_signal add_signal add_score impersonates_brand has_pii_fields
    has_sensitive_id_fields has_financial_fields has_lure_text has_public_agency_lure has_downloads
    impersonates_logo overuses_external_links brands_in_text score_page score_lures score_fields
    score_shell_and_forms lower is_alpha url_brand_label
score_content_test = refl

score_content-IsAccounted_example :
    IsAccounted default_settings
      (lure_bonus default_settings (brands_in_text is_word labels) card_page (url_brand_label evil))
      (score_content default_settings (brands_in_text is_word labels) card_page evil)
score_content-IsAccounted_example =
    score_content-IsAccounted default_settings (brands_in_text is_word labels) card_page evil

score_content-evidence_example :
    mem_content financial_field
      (score_content default_settings (brands_in_text is_word labels) card_page evil).signals
    ≡ evidence default_settings
        (brands_in_text is_word labels)
        card_page
        (url_brand_label evil)
        financial_field
score_content-evidence_example =
    score_content-evidence default_settings (brands_in_text is_word labels) card_page evil
      financial_field

brands_in_text-IsWordIn_example :
    All
      (λ l.
        (mem_text l labels ≡ true)
        × (IsWordIn is_word (lower (b'P' ∷ paypal)) l
            ⊎ ((is_ascii l ≡ false) × (contains l (lower (b'P' ∷ paypal)) ≡ true))))
      (brands_in_text is_word labels (some (b'P' ∷ paypal)))
brands_in_text-IsWordIn_example = brands_in_text-IsWordIn is_word labels (b'P' ∷ paypal)

-- The card field stays when the rendered document is a shell.
score_content-merge_example :
    mem_content financial_field
      (score_content default_settings
        (brands_in_text is_word labels)
        (merge_features card_page shell_page)
        evil).signals
    ≡ true
unfolding mem_content score_content when append_signal add_signal add_score impersonates_brand
    has_pii_fields has_sensitive_id_fields has_financial_fields has_lure_text has_public_agency_lure
    has_downloads impersonates_logo overuses_external_links brands_in_text score_page score_lures
    score_fields score_shell_and_forms lower is_alpha url_brand_label
score_content-merge_example =
    score_content-merge default_settings (brands_in_text is_word labels) card_page shell_page evil
      financial_field refl refl

-- Services that fetch the shell page and render the card page.
abbrev services : Services
services = record {
  fetch_page = λ url.
      returned (record { ok = true; url = url; status_code = some 200; html = []; error = none });
  extract_features_async =
      λ html url. returned (elim html [ [] ↦ shell_page | (c ∷ s) ↦ card_page ]);
  render_page = λ url. returned (record { ok = true; url = url; html = b'c' ∷ []; error = none });
  get_ai_provider = null_ai_provider none;
  brands_in_text = brands_in_text is_word labels;
  is_trusted_registered_domain = λ url. false;
}

abbrev failing : AiProvider
failing = record { infer = λ ctx. provider_error paypal; fallback_reason = none }

-- The score, whether the document was rendered, and whether the signals say so.
summary : Awaited ContentAnalysisResult → Awaited (ℕ × Bool × Bool)
summary (returned r) =
    returned (r.score, r.precision_analysis_used, mem_content rendered_dom_analyzed r.signals)
summary cancelled = cancelled
summary raised = raised

abbrev suspecting : AiProvider
suspecting = record {
  infer = λ ctx.
      answered
        (some (record { verdict = suspicious; reason = paypal; model = none; token_usage = none }));
  fallback_reason = none;
}

-- The rendered document is looked at: the score of the card page, and its signals with the mark.
analyze_content_test :
    summary (analyze_content default_settings services none (returned []) false evil)
    ≡ returned (80, true, true)
unfolding summary analyze_content ◌>>=◌ mem_content analyze_page run_precision_analysis
    score_content when append_signal add_signal add_score impersonates_brand has_pii_fields
    has_sensitive_id_fields has_financial_fields has_lure_text has_public_agency_lure has_downloads
    impersonates_logo overuses_external_links brands_in_text score_page score_lures score_fields
    score_shell_and_forms lower is_alpha url_brand_label ask_model to_result with_rendered
    should_run_precision_analysis merge_ratio unique_merge merge_title
analyze_content_test = refl

analyze_content-failing_model_example :
    analyze_content default_settings services (some failing) (returned []) true evil
    ≡ with_ai_error
        (some paypal)
        (analyze_content default_settings services (some failing) (returned []) false evil)
analyze_content-failing_model_example =
    analyze_content-failing_model default_settings services failing (returned []) evil paypal
      (λ ctx. refl)

analyze_content-Follows_example :
    Follows
      (IsRaised default_settings)
      (analyze_content default_settings services (some suspecting) (returned []) true evil)
      (analyze_content default_settings services (some suspecting) (returned []) false evil)
analyze_content-Follows_example =
    analyze_content-Follows default_settings services (some suspecting) (returned []) evil
