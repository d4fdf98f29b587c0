-- ===== src/Content.antt =====
-- app/services/content_analyzer/analyze.py: the degraded results of the content analysis and the
-- weight of the model's verdict.
pub mod Features
pub mod Brands
pub mod Score
pub mod Ai
pub mod OpenAi
pub mod Analyze
pub mod Accounts
pub mod Total
pub mod Evidence
pub mod Words
pub mod Verdicts
pub mod Bounds
pub mod Merge
mod Tests
use lin_clean_be_fastapi.Prelude.{
  ℕ, false, Option, none, some, List, [], ◌∷◌, Text, text, text_eq, starts_with, mem_text,
  if◌then◌else◌,
}
use lin_clean_be_fastapi.Settings.{Settings}
use lin_clean_be_fastapi.Schemas.Signals.{AiVerdict, phishing, suspicious, benign, fetch_failed}
use lin_clean_be_fastapi.Schemas.Signals
use lin_clean_be_fastapi.Schemas.Results.{ContentAnalysisResult, content_defaults}

unfoldable pub ai_score_weight : Settings → AiVerdict → ℕ
ai_score_weight cfg phishing = cfg.score_weight_ai_phishing
ai_score_weight cfg suspicious = cfg.score_weight_ai_suspicious
ai_score_weight cfg benign = 0

unfoldable pub fetch_error_no_score : List Text
unfolding text
fetch_error_no_score =
    text "not_html" ∷ text "too_large" ∷ text "unexpected_redirect" ∷ text "blocked_host" ∷ []

unfoldable pub fetch_failed_score : Settings → Option Text → ℕ
unfolding mem_text fetch_error_no_score
fetch_failed_score cfg none = cfg.score_weight_content_fetch_failed
fetch_failed_score cfg (some error) =
    if mem_text error fetch_error_no_score then 0 else cfg.score_weight_content_fetch_failed

unfoldable pub fetch_failed_reason : Option Text → Text
unfolding text text_eq starts_with
fetch_failed_reason none = text "페이지를 가져오지 못했습니다."
fetch_failed_reason (some error) =
    if text_eq error (text "http_error_404")
    then text "페이지를 찾을 수 없습니다."
    else if starts_with (text "http_error_4") error
    then text "페이지 요청이 거부되었거나 찾을 수 없습니다."
    else if starts_with (text "http_error_5") error
    then text "대상 서버 오류로 페이지를 확인할 수 없습니다."
    else if text_eq error (text "timeout")
    then text "페이지 응답 시간이 초과되었습니다."
    else if text_eq error (text "connect_error")
    then text "페이지에 연결할 수 없습니다."
    else if text_eq error (text "dns_failure")
    then text "도메인 주소를 확인할 수 없습니다."
    else if text_eq error (text "not_html")
    then text "분석 가능한 HTML 페이지가 아닙니다."
    else if text_eq error (text "too_large")
    then text "페이지가 너무 커서 분석하지 않았습니다."
    else if text_eq error (text "blocked_host")
    then text "내부망 또는 차단된 호스트라 분석하지 않았습니다."
    else if text_eq error (text "unexpected_redirect")
    then text "예상하지 못한 리다이렉트 응답으로 페이지를 분석하지 못했습니다."
    else text "페이지를 가져오지 못했습니다."

unfoldable pub fetch_failed_result : Settings → Text → Option Text → ContentAnalysisResult
unfolding fetch_failed_score fetch_failed_reason
fetch_failed_result cfg final_url error = record (content_defaults final_url false) {
  score = fetch_failed_score cfg error;
  signals = fetch_failed ∷ [];
  reason = some (fetch_failed_reason error);
  error = error;
}

-- The content was not looked at, since the earlier stages settled on danger.
unfoldable pub skipped_already_danger : Text → ContentAnalysisResult
unfolding text
skipped_already_danger final_url = record (content_defaults final_url false) {
  signals = Signals.skipped_already_danger ∷ [];
  reason = some (text "위험성이 확인된 URL입니다. 페이지를 열지 않는 것이 좋습니다.");
  error = some (text "skipped_already_danger");
}
