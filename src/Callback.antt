-- ===== src/Callback.antt =====
-- app/services/analysis_callback.py: the reasons of the payload, and the delivery with its retries.
-- The HTTP client is a parameter. The rest of the payload copies fields of the response.
pub mod Messages
pub mod Weights
pub mod Retries
mod Tests
use lin_clean_be_fastapi.Prelude.{
  ℕ, zero, suc, ◌+◌, ◌*◌, Bool, true, false, ◌&&◌, ◌||◌, not, Option, none, some, List, [], ◌∷◌,
  ◌++◌, Text, text, text_eq, mem_text, or_text, leb, ltb, ◌==◌, if◌then◌else◌,
}
use lin_clean_be_fastapi.Callback.Messages.{
  get_message, domain_reason_messages, content_reason_messages,
}
use lin_clean_be_fastapi.Settings.{Settings}
use lin_clean_be_fastapi.Schemas.Signals.{
  DomainHeuristicSignal, ContentSignal, domain_code, content_code, AiVerdict, phishing, suspicious,
  benign,
}
use lin_clean_be_fastapi.Schemas.Results.{ThreatDbResult, ContentAnalysisResult, PipelineSuccess}

pub record Reason : Type 0 where
  pub code : Text
  pub stage : ℕ
  pub weight : ℕ
  pub message : Text

-- `table.get(code)`
unfoldable pub get_weight : Text → List (Text × ℕ) → Option ℕ
get_weight code [] = none
get_weight code ((key, w) ∷ table) = if text_eq code key then some w else get_weight code table

-- `x or other`, for a weight that may be missing or 0
unfoldable pub or_weight : Option ℕ → ℕ → ℕ
or_weight none other = other
or_weight (some w) other = if w == 0 then other else w

unfoldable pub domain_weights : Settings → List (Text × ℕ)
unfolding text
domain_weights cfg =
    (text "IP_DIRECT", cfg.score_weight_ip_direct)
    ∷ (text "TYPO_DOMAIN", cfg.score_weight_typo_domain)
    ∷ (text "PUNYCODE_IDN", cfg.score_weight_punycode_idn)
    ∷ (text "NEW_DOMAIN", cfg.score_weight_new_domain)
    ∷ (text "SUBDOMAIN_OVERUSE", cfg.score_weight_subdomain_overuse)
    ∷ (text "NO_HTTPS", cfg.score_weight_no_https)
    ∷ (text "OPEN_REDIRECT_PARAM", cfg.score_weight_open_redirect_param)
    ∷ (text "HYPHEN_OVERUSE", cfg.score_weight_hyphen_overuse)
    ∷ (text "SUSPICIOUS_TLD", cfg.score_weight_suspicious_tld)
    ∷ (text "DGA_LIKE", cfg.score_weight_dga_like)
    ∷ (text "HOSTING_PLATFORM", cfg.score_weight_hosting_platform)
    ∷ (text "URL_USERINFO", cfg.score_weight_url_userinfo)
    ∷ (text "BRAND_IN_URL", cfg.score_weight_brand_in_url)
    ∷ (text "FREE_HOSTING_LURE", cfg.score_weight_free_hosting_lure)
    ∷ (text "SENSITIVE_PATH", cfg.score_weight_sensitive_path)
    ∷ (text "URL_SHORTENER", cfg.score_weight_url_shortener)
    ∷ (text "REDIRECT_CROSS_ORIGIN", cfg.score_weight_redirect_cross_origin)
    ∷ []

unfoldable pub content_weights : Settings → List (Text × ℕ)
unfolding text
content_weights cfg =
    (text "BRAND_IMPERSONATION_FORM", cfg.score_weight_brand_impersonation)
    ∷ (text "LOGO_ALT_IMPERSONATION", cfg.score_weight_logo_alt_impersonation)
    ∷ (text "CREDENTIAL_FORM_EXTERNAL", cfg.score_weight_credential_form_external)
    ∷ (text "PII_COLLECTION_FORM", cfg.score_weight_pii_collection_form)
    ∷ (text "SENSITIVE_ID_FIELD", cfg.score_weight_sensitive_id_field)
    ∷ (text "FINANCIAL_FIELD", cfg.score_weight_financial_field)
    ∷ (text "RISKY_DOWNLOAD_LINK", cfg.score_weight_risky_download_link)
    ∷ (text "PUBLIC_AGENCY_LURE", cfg.score_weight_public_agency_lure)
    ∷ (text "KOREAN_LURE_TEXT", cfg.score_weight_korean_lure)
    ∷ (text "META_REFRESH", cfg.score_weight_meta_refresh)
    ∷ (text "EXTERNAL_META_REFRESH", cfg.score_weight_external_meta_refresh)
    ∷ (text "EXTERNAL_LINK_OVERUSE", cfg.score_weight_external_link_overuse)
    ∷ (text "FETCH_FAILED", cfg.score_weight_content_fetch_failed)
    ∷ []

unfoldable pub signal_weight : Settings → Text → ℕ
signal_weight cfg code =
    or_weight (get_weight code (domain_weights cfg))
      (or_weight (get_weight code (content_weights cfg)) 0)

-- The codes that are listed whatever their weight.
unfoldable pub match_codes : List Text
unfolding text
match_codes = text "GSB_MATCH" ∷ text "URLHAUS_MATCH" ∷ []

unfoldable pub add_reason : List Reason → Text → ℕ → ℕ → Text → List Reason
add_reason reasons code stage weight message =
    if weight == 0 && not (mem_text code match_codes)
    then reasons
    else reasons ++ record { code = code; stage = stage; weight = weight; message = message } ∷ []

module _ (cfg : Settings) where
  unfoldable pub match_reasons : ThreatDbResult → List Reason
  match_reasons threat =
      let found =
        (if threat.gsb.is_threat
          then add_reason [] (text "GSB_MATCH") 2 cfg.score_weight_gsb
              (text "Google Safe Browsing에 악성 URL로 등록되어 있습니다.")
          else []) in
      if threat.urlhaus.is_threat
      then add_reason found (text "URLHAUS_MATCH") 2 cfg.score_weight_urlhaus
          (text "URLhaus에 악성 URL로 등록되어 있습니다.")
      else found

  -- The loop over the signals of the domain heuristics.
  unfoldable pub domain_reasons : List Reason → List DomainHeuristicSignal → List Reason
  domain_reasons reasons [] = reasons
  domain_reasons reasons (s ∷ signals) =
      domain_reasons
        (add_reason reasons (domain_code s) 3 (signal_weight cfg (domain_code s))
          (get_message (domain_code s) domain_reason_messages (text "도메인 휴리스틱 위험 신호가 있습니다.")))
        signals

  unfoldable pub content_reasons : List Reason → List ContentSignal → List Reason
  content_reasons reasons [] = reasons
  content_reasons reasons (s ∷ signals) =
      content_reasons
        (add_reason reasons (content_code s) 4 (signal_weight cfg (content_code s))
          (get_message (content_code s) content_reason_messages (text "콘텐츠 분석 위험 신호가 있습니다.")))
        signals

  unfoldable pub ai_reasons : List Reason → Option Text → Option AiVerdict → List Reason
  ai_reasons reasons reason none = reasons
  ai_reasons reasons reason (some phishing) =
      add_reason reasons (text "AI_PHISHING") 4 cfg.score_weight_ai_phishing
        (or_text reason (text "AI가 피싱 가능성이 높다고 판단했습니다."))
  ai_reasons reasons reason (some suspicious) =
      add_reason reasons (text "AI_SUSPICIOUS") 4 cfg.score_weight_ai_suspicious
        (or_text reason (text "AI가 의심스러운 페이지로 판단했습니다."))
  ai_reasons reasons reason (some benign) = reasons

  unfoldable pub callback_reasons : PipelineSuccess → List Reason
  callback_reasons r =
      ai_reasons
        (content_reasons
          (domain_reasons (match_reasons r.stages.threat_db) r.stages.domain_heuristic.signals)
          r.stages.content_analysis.signals)
        r.stages.content_analysis.ai_reason r.stages.content_analysis.ai_verdict

-- What one request gives: an error of the client (`none`), or the status.
unfoldable pub is_accepted : Option ℕ → Bool
is_accepted none = false
is_accepted (some status) = leb 200 status && ltb status 300

unfoldable pub max_attempts : ℕ
max_attempts = 3

-- Delivered or not, the requests made, and the time slept in milliseconds.
pub record Delivery : Type 0 where
  pub delivered : Bool
  pub requests : ℕ
  pub slept : ℕ

-- The loop, with the number of attempts left; `delay` is the time to sleep after this one.
unfoldable pub attempts : (ℕ → Option ℕ) → ℕ → ℕ → ℕ → Delivery
attempts post zero attempt delay = record { delivered = false; requests = 0; slept = 0 }
attempts post (suc left) attempt delay =
    let rest = attempts post left (attempt + 1) (2 * delay) in
    if is_accepted (post attempt)
    then record { delivered = true; requests = 1; slept = 0 }
    else record {
      delivered = rest.delivered;
      requests = 1 + rest.requests;
      slept = (if left == 0 then 0 else delay) + rest.slept;
    }

-- `post_analysis_callback`: `post` gives the outcome of each attempt.
unfoldable pub post_analysis_callback : (ℕ → Option ℕ) → Delivery
post_analysis_callback post = attempts post max_attempts 1 500
