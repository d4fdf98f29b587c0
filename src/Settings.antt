-- ===== src/Settings.antt =====
-- app/core/config.py: the settings that the modelled code reads, with their defaults. They come from
-- the environment; every theorem ranges over them. The weights are taken to be nonnegative.
use lin_clean_be_fastapi.Prelude.{ℕ, Bool, true}

-- The weights and the cap of the domain heuristics.
pub record DomainWeights : Type 0 where
  pub score_weight_ip_direct : ℕ
  pub score_weight_typo_domain : ℕ
  pub score_weight_punycode_idn : ℕ
  pub score_weight_no_https : ℕ
  pub score_weight_new_domain : ℕ
  pub score_weight_subdomain_overuse : ℕ
  pub score_weight_open_redirect_param : ℕ
  pub score_weight_hyphen_overuse : ℕ
  pub score_weight_suspicious_tld : ℕ
  pub score_weight_dga_like : ℕ
  pub score_weight_redirect_cross_origin : ℕ
  pub score_weight_hosting_platform : ℕ
  pub score_weight_url_userinfo : ℕ
  pub score_weight_brand_in_url : ℕ
  pub score_weight_free_hosting_lure : ℕ
  pub score_weight_sensitive_path : ℕ
  pub score_weight_url_shortener : ℕ
  pub domain_heuristic_score_cap : ℕ

-- The weights, the cap and the thresholds of the content analysis; a ratio is in thousandths.
pub record ContentWeights : Type 0 where
  pub score_weight_brand_impersonation : ℕ
  pub score_weight_logo_alt_impersonation : ℕ
  pub score_weight_credential_form_external : ℕ
  pub score_weight_pii_collection_form : ℕ
  pub score_weight_sensitive_id_field : ℕ
  pub score_weight_financial_field : ℕ
  pub score_weight_risky_download_link : ℕ
  pub score_weight_public_agency_lure : ℕ
  pub score_weight_korean_lure : ℕ
  pub score_weight_meta_refresh : ℕ
  pub score_weight_external_meta_refresh : ℕ
  pub score_weight_external_link_overuse : ℕ
  pub score_weight_content_fetch_failed : ℕ
  pub score_weight_ai_phishing : ℕ
  pub score_weight_ai_suspicious : ℕ
  pub content_analysis_score_cap : ℕ
  pub content_external_link_ratio_threshold : ℕ
  pub content_precision_enabled : Bool
  pub content_precision_min_score : ℕ

-- The thresholds of the patterns in a URL.
pub record PatternThresholds : Type 0 where
  pub subdomain_label_threshold : ℕ
  pub hyphen_count_threshold : ℕ
  pub domain_label_length_threshold : ℕ

-- The ranges of the total score.
pub record VerdictThresholds : Type 0 where
  pub score_danger_threshold : ℕ
  pub score_caution_threshold : ℕ
  pub score_total_cap : ℕ

-- The time budgets of the pipeline, in microseconds.
pub record PipelineBudgets : Type 0 where
  pub pipeline_total_timeout : ℕ
  pub pipeline_unchain_timeout : ℕ
  pub pipeline_reputation_timeout : ℕ
  pub pipeline_domain_timeout : ℕ
  pub pipeline_content_timeout : ℕ

pub record Settings : Type 0 where
  pub score_weight_gsb : ℕ
  pub score_weight_urlhaus : ℕ
  pub domain_weights : DomainWeights
  pub open domain_weights use *
  pub content_weights : ContentWeights
  pub open content_weights use *
  pub pattern_thresholds : PatternThresholds
  pub open pattern_thresholds use *
  pub thresholds : VerdictThresholds
  pub open thresholds use *
  pub budgets : PipelineBudgets
  pub open budgets use *
  pub unchain_max_hops : ℕ
  pub normalizer_max_url_length : ℕ

-- The defaults of `Settings`.
abbrev pub default_settings : Settings
default_settings = record {
  score_weight_gsb = 50;
  score_weight_urlhaus = 50;
  domain_weights = record {
    score_weight_ip_direct = 40;
    score_weight_typo_domain = 30;
    score_weight_punycode_idn = 35;
    score_weight_no_https = 20;
    score_weight_new_domain = 25;
    score_weight_subdomain_overuse = 20;
    score_weight_open_redirect_param = 31;
    score_weight_hyphen_overuse = 20;
    score_weight_suspicious_tld = 25;
    score_weight_dga_like = 31;
    score_weight_redirect_cross_origin = 15;
    score_weight_hosting_platform = 20;
    score_weight_url_userinfo = 45;
    score_weight_brand_in_url = 30;
    score_weight_free_hosting_lure = 25;
    score_weight_sensitive_path = 20;
    score_weight_url_shortener = 25;
    domain_heuristic_score_cap = 80;
  };
  content_weights = record {
    score_weight_brand_impersonation = 50;
    score_weight_logo_alt_impersonation = 10;
    score_weight_credential_form_external = 45;
    score_weight_pii_collection_form = 20;
    score_weight_sensitive_id_field = 30;
    score_weight_financial_field = 25;
    score_weight_risky_download_link = 20;
    score_weight_public_agency_lure = 20;
    score_weight_korean_lure = 15;
    score_weight_meta_refresh = 20;
    score_weight_external_meta_refresh = 25;
    score_weight_external_link_overuse = 5;
    score_weight_content_fetch_failed = 15;
    score_weight_ai_phishing = 45;
    score_weight_ai_suspicious = 31;
    content_analysis_score_cap = 100;
    content_external_link_ratio_threshold = 800;
    content_precision_enabled = true;
    content_precision_min_score = 20;
  };
  pattern_thresholds = record {
    subdomain_label_threshold = 4;
    hyphen_count_threshold = 3;
    domain_label_length_threshold = 20;
  };
  thresholds = record {
    score_danger_threshold = 61;
    score_caution_threshold = 31;
    score_total_cap = 100;
  };
  budgets = record {
    pipeline_total_timeout = 20000000;
    pipeline_unchain_timeout = 4000000;
    pipeline_reputation_timeout = 5000000;
    pipeline_domain_timeout = 4000000;
    pipeline_content_timeout = 8000000;
  };
  unchain_max_hops = 5;
  normalizer_max_url_length = 1024;
}
