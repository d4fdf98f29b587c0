-- ===== src/Callback/Messages.antt =====
-- The tables of messages of app/services/analysis_callback.py.
use lin_clean_be_fastapi.Prelude.{List, [], ◌∷◌, Text, text, text_eq, if◌then◌else◌}

-- `table.get(code, default)`
unfoldable pub get_message : Text → List (Text × Text) → Text → Text
get_message code [] default = default
get_message code ((key, message) ∷ table) default =
    if text_eq code key then message else get_message code table default

unfoldable pub domain_reason_messages : List (Text × Text)
domain_reason_messages =
    (text "IP_DIRECT", text "IP 주소로 직접 접근하는 URL입니다.")
    ∷ (text "TYPO_DOMAIN", text "유명 서비스와 유사한 도메인입니다.")
    ∷ (text "PUNYCODE_IDN", text "문자 혼동을 유도할 수 있는 국제화 도메인입니다.")
    ∷ (text "NEW_DOMAIN", text "최근 등록된 도메인입니다.")
    ∷ (text "SUBDOMAIN_OVERUSE", text "하위 도메인을 과도하게 사용합니다.")
    ∷ (text "NO_HTTPS", text "HTTPS가 아닌 연결을 사용합니다.")
    ∷ (text "OPEN_REDIRECT_PARAM", text "오픈 리다이렉트에 악용될 수 있는 파라미터가 있습니다.")
    ∷ (text "HYPHEN_OVERUSE", text "하이픈을 과도하게 사용한 도메인입니다.")
    ∷ (text "SUSPICIOUS_TLD", text "피싱에 자주 악용되는 최상위 도메인입니다.")
    ∷ (text "DGA_LIKE", text "자동 생성된 것으로 의심되는 도메인입니다.")
    ∷ (text "HOSTING_PLATFORM", text "무료 호스팅 플랫폼을 사용합니다.")
    ∷ (text "URL_USERINFO", text "URL에 사용자 정보 형식이 포함되어 있습니다.")
    ∷ (text "BRAND_IN_URL", text "URL에 브랜드명을 포함해 신뢰를 유도합니다.")
    ∷ (text "FREE_HOSTING_LURE", text "무료 호스팅 주소에서 신뢰를 유도하는 문구를 사용합니다.")
    ∷ (text "SENSITIVE_PATH", text "로그인 또는 인증 관련 경로를 사용합니다.")
    ∷ (text "URL_SHORTENER", text "단축 URL 서비스를 사용합니다.")
    ∷ (text "REDIRECT_CROSS_ORIGIN", text "입력 URL이 다른 사이트로 이동합니다.")
    ∷ []

unfoldable pub content_reason_messages : List (Text × Text)
content_reason_messages =
    (text "BRAND_IMPERSONATION_FORM", text "브랜드를 사칭하는 로그인 폼이 확인되었습니다.")
    ∷ (text "LOGO_ALT_IMPERSONATION", text "브랜드 로고 또는 이미지 설명을 사칭합니다.")
    ∷ (text "CREDENTIAL_FORM_EXTERNAL", text "로그인 정보가 외부 주소로 전송될 수 있습니다.")
    ∷ (text "PII_COLLECTION_FORM", text "개인정보 입력을 유도하는 폼이 있습니다.")
    ∷ (text "SENSITIVE_ID_FIELD", text "민감 식별정보 입력을 요구합니다.")
    ∷ (text "FINANCIAL_FIELD", text "금융정보 입력을 요구합니다.")
    ∷ (text "RISKY_DOWNLOAD_LINK", text "위험한 파일 다운로드를 유도합니다.")
    ∷ (text "PUBLIC_AGENCY_LURE", text "공공기관을 사칭하는 문구가 있습니다.")
    ∷ (text "KOREAN_LURE_TEXT", text "국내 사용자를 노린 유인 문구가 있습니다.")
    ∷ (text "META_REFRESH", text "자동 이동 태그가 포함되어 있습니다.")
    ∷ (text "EXTERNAL_META_REFRESH", text "외부 사이트로 자동 이동할 수 있습니다.")
    ∷ (text "EXTERNAL_LINK_OVERUSE", text "외부 링크 비율이 높습니다.")
    ∷ (text "SPA_SHELL", text "정적 분석만으로는 페이지 내용을 확인하기 어렵습니다.")
    ∷ (text "FETCH_FAILED", text "페이지 내용을 가져오지 못했습니다.")
    ∷ (text "SKIPPED_ALREADY_DANGER", text "선행 단계에서 위험성이 확인되어 콘텐츠 분석을 생략했습니다.")
    ∷ []
