-- ===== src/Schemas/Signals.antt =====
-- The enumerations of the schemas: app/schemas/domain_heuristic.py, app/schemas/content_analysis.py
-- and app/schemas/pipeline.py. Each is a `StrEnum`; `..._code` gives a member's string value, and
-- the membership tests compare members by their place in the declaration.
use lin_clean_be_fastapi.Prelude.{ℕ, Bool, List, Text, text, any, ◌==◌}

pub data DomainHeuristicSignal : Type 0 where
  ip_direct typo_domain punycode_idn new_domain subdomain_overuse no_https open_redirect_param :
      DomainHeuristicSignal
  hyphen_overuse suspicious_tld dga_like hosting_platform url_userinfo brand_in_url :
      DomainHeuristicSignal
  free_hosting_lure sensitive_path url_shortener redirect_cross_origin : DomainHeuristicSignal

abbrev pub domain_index : DomainHeuristicSignal → ℕ
domain_index ip_direct = 0
domain_index typo_domain = 1
domain_index punycode_idn = 2
domain_index new_domain = 3
domain_index subdomain_overuse = 4
domain_index no_https = 5
domain_index open_redirect_param = 6
domain_index hyphen_overuse = 7
domain_index suspicious_tld = 8
domain_index dga_like = 9
domain_index hosting_platform = 10
domain_index url_userinfo = 11
domain_index brand_in_url = 12
domain_index free_hosting_lure = 13
domain_index sensitive_path = 14
domain_index url_shortener = 15
domain_index redirect_cross_origin = 16

unfoldable pub domain_code : DomainHeuristicSignal → Text
unfolding text
domain_code ip_direct = text "IP_DIRECT"
domain_code typo_domain = text "TYPO_DOMAIN"
domain_code punycode_idn = text "PUNYCODE_IDN"
domain_code new_domain = text "NEW_DOMAIN"
domain_code subdomain_overuse = text "SUBDOMAIN_OVERUSE"
domain_code no_https = text "NO_HTTPS"
domain_code open_redirect_param = text "OPEN_REDIRECT_PARAM"
domain_code hyphen_overuse = text "HYPHEN_OVERUSE"
domain_code suspicious_tld = text "SUSPICIOUS_TLD"
domain_code dga_like = text "DGA_LIKE"
domain_code hosting_platform = text "HOSTING_PLATFORM"
domain_code url_userinfo = text "URL_USERINFO"
domain_code brand_in_url = text "BRAND_IN_URL"
domain_code free_hosting_lure = text "FREE_HOSTING_LURE"
domain_code sensitive_path = text "SENSITIVE_PATH"
domain_code url_shortener = text "URL_SHORTENER"
domain_code redirect_cross_origin = text "REDIRECT_CROSS_ORIGIN"

-- `signal in signals`
unfoldable pub mem_domain : DomainHeuristicSignal → List DomainHeuristicSignal → Bool
mem_domain s signals = any (λ t. domain_index t == domain_index s) signals

pub data ContentSignal : Type 0 where
  brand_impersonation_form logo_alt_impersonation credential_form_external pii_collection_form :
      ContentSignal
  sensitive_id_field financial_field risky_download_link public_agency_lure korean_lure_text :
      ContentSignal
  rendered_dom_analyzed meta_refresh external_meta_refresh external_link_overuse spa_shell :
      ContentSignal
  fetch_failed skipped_already_danger : ContentSignal

abbrev pub content_index : ContentSignal → ℕ
content_index brand_impersonation_form = 0
content_index logo_alt_impersonation = 1
content_index credential_form_external = 2
content_index pii_collection_form = 3
content_index sensitive_id_field = 4
content_index financial_field = 5
content_index risky_download_link = 6
content_index public_agency_lure = 7
content_index korean_lure_text = 8
content_index rendered_dom_analyzed = 9
content_index meta_refresh = 10
content_index external_meta_refresh = 11
content_index external_link_overuse = 12
content_index spa_shell = 13
content_index fetch_failed = 14
content_index skipped_already_danger = 15

unfoldable pub content_code : ContentSignal → Text
unfolding text
content_code brand_impersonation_form = text "BRAND_IMPERSONATION_FORM"
content_code logo_alt_impersonation = text "LOGO_ALT_IMPERSONATION"
content_code credential_form_external = text "CREDENTIAL_FORM_EXTERNAL"
content_code pii_collection_form = text "PII_COLLECTION_FORM"
content_code sensitive_id_field = text "SENSITIVE_ID_FIELD"
content_code financial_field = text "FINANCIAL_FIELD"
content_code risky_download_link = text "RISKY_DOWNLOAD_LINK"
content_code public_agency_lure = text "PUBLIC_AGENCY_LURE"
content_code korean_lure_text = text "KOREAN_LURE_TEXT"
content_code rendered_dom_analyzed = text "RENDERED_DOM_ANALYZED"
content_code meta_refresh = text "META_REFRESH"
content_code external_meta_refresh = text "EXTERNAL_META_REFRESH"
content_code external_link_overuse = text "EXTERNAL_LINK_OVERUSE"
content_code spa_shell = text "SPA_SHELL"
content_code fetch_failed = text "FETCH_FAILED"
content_code skipped_already_danger = text "SKIPPED_ALREADY_DANGER"

-- `signal in signals`
unfoldable pub mem_content : ContentSignal → List ContentSignal → Bool
mem_content s signals = any (λ t. content_index t == content_index s) signals

pub data AiVerdict : Type 0 where
  phishing suspicious benign : AiVerdict

pub data DomainHeuristicSkippedReason : Type 0 where
  threat_matched : DomainHeuristicSkippedReason

pub data PipelineStage : Type 0 where
  normalize unchain threat_db domain_heuristic content_analysis : PipelineStage

pub data Verdict : Type 0 where
  safe caution danger : Verdict
