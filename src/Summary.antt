-- ===== src/Summary.antt =====
-- app/services/analysis_summary.py: the sentence that the user reads. `x or y` on an optional text
-- takes `y` where `x` is missing or empty.
pub mod Order
use lin_clean_be_fastapi.Prelude.{Bool, ◌&&◌, ◌||◌, Text, text, truthy, or_text, if◌then◌else◌, []}
use lin_clean_be_fastapi.Schemas.Signals
use lin_clean_be_fastapi.Schemas.Signals.{
  Verdict, safe, caution, danger, ContentSignal, DomainHeuristicSignal, mem_content, mem_domain,
  brand_impersonation_form, logo_alt_impersonation, credential_form_external, pii_collection_form,
  sensitive_id_field, financial_field, risky_download_link, public_agency_lure, korean_lure_text,
  fetch_failed, skipped_already_danger, sensitive_path, typo_domain, url_userinfo,
  open_redirect_param, redirect_cross_origin, new_domain, suspicious_tld, dga_like,
}
use lin_clean_be_fastapi.Schemas.Results.{
  ThreatDbResult, DomainHeuristicResult, ContentAnalysisResult,
}

unfoldable pub known_malicious_summary : Text
unfolding text
known_malicious_summary = text "악성으로 알려진 페이지 입니다."

unfoldable pub safe_summary : Text
unfolding text
safe_summary = text "현재 분석 기준에서 뚜렷한 위험 신호가 확인되지 않았습니다."

unfoldable pub caution_summary : Text
unfolding text
caution_summary = text "주의가 필요한 페이지입니다. 링크와 입력 정보를 한 번 더 확인하세요."

unfoldable pub danger_summary : Text
unfolding text
danger_summary = text "위험성이 높은 페이지입니다. 접속과 정보 입력을 피하세요."

-- The last part: the reason of the content analysis, or the sentence for the verdict.
unfoldable pub verdict_summary : Verdict → Text
unfolding safe_summary caution_summary danger_summary
verdict_summary danger = danger_summary
verdict_summary caution = caution_summary
verdict_summary safe = safe_summary

-- The sentences for the signals of the domain heuristics.
unfoldable pub domain_summary : Verdict → DomainHeuristicResult → ContentAnalysisResult → Text
unfolding text mem_domain or_text verdict_summary
domain_summary verdict heuristic content =
    let has : DomainHeuristicSignal → Bool = λ s. mem_domain s heuristic.signals in
    if has typo_domain
    then text "유명 서비스와 유사한 도메인이므로 로그인이나 결제 정보를 입력하지 마세요."
    else if has url_userinfo || has open_redirect_param || has redirect_cross_origin
    then text "URL이 다른 사이트 이동이나 위장에 악용될 수 있어 접속 전 주소를 확인하세요."
    else if has new_domain || has suspicious_tld || has dga_like
    then text "신뢰도가 낮은 도메인 특성이 있어 링크와 입력 정보를 한 번 더 확인하세요."
    else or_text content.reason (verdict_summary verdict)

-- The sentences for the signals of the content analysis.
unfoldable pub content_summary : Verdict → DomainHeuristicResult → ContentAnalysisResult → Text
unfolding text mem_domain mem_content domain_summary
content_summary verdict heuristic content =
    let has : ContentSignal → Bool = λ s. mem_content s content.signals in
    if has brand_impersonation_form
      && (content.has_password_field || mem_domain sensitive_path heuristic.signals)
    then text "브랜드 사칭과 로그인 정보 입력 유도 정황이 있어 비밀번호를 입력하지 마세요."
    else if has credential_form_external
    then text "로그인 정보가 외부 주소로 전송될 수 있어 계정 정보를 입력하지 마세요."
    else if has brand_impersonation_form || has logo_alt_impersonation
    then text "브랜드 사칭 정황이 있어 링크와 입력 정보를 신중히 확인하세요."
    else if has pii_collection_form || has sensitive_id_field || has financial_field
    then text "민감정보 입력을 유도하는 정황이 있어 개인정보나 결제 정보를 입력하지 마세요."
    else if has risky_download_link
    then text "위험한 파일 다운로드를 유도할 수 있어 파일을 열지 마세요."
    else if has public_agency_lure || has korean_lure_text
    then text "국내 사용자 또는 공공기관을 사칭하는 유인 문구가 있어 주의하세요."
    else domain_summary verdict heuristic content

unfoldable pub build_analysis_summary :
    Verdict → ThreatDbResult → DomainHeuristicResult → ContentAnalysisResult → Text
unfolding known_malicious_summary text mem_content truthy or_text danger_summary content_summary
build_analysis_summary verdict threat heuristic content =
    if threat.is_malicious
    then known_malicious_summary
    else if truthy content.ai_reason
    then or_text content.ai_reason []
    else if mem_content fetch_failed content.signals
    then or_text content.reason (text "페이지를 확인할 수 없어 안전 여부를 판단하기 어렵습니다.")
    else if mem_content skipped_already_danger content.signals
    then or_text content.reason danger_summary
    else content_summary verdict heuristic content
