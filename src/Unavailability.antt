-- ===== src/Unavailability.antt =====
-- app/services/page_unavailability.py: when a stage has shown that the page cannot be reached, and
-- the message and status that the user gets. `status_code and ...` tests for a status other than 0.
pub mod Status
mod Tests
use lin_clean_be_fastapi.Prelude.{
  ℕ, Bool, true, false, ◌&&◌, ◌||◌, Option, none, some, List, [], ◌∷◌, reverse, Text, text, text_eq,
  starts_with, remove_prefix, mem_text, is_digits, value, or_text, any, leb, ltb, ◌==◌,
  if◌then◌else◌,
}
use lin_clean_be_fastapi.Schemas.Results.{HopRecord, UnchainResult, ContentAnalysisResult}

unfoldable pub page_unavailable_code : Text
unfolding text
page_unavailable_code = text "PAGE_UNAVAILABLE"

unfoldable pub unavailable_errors : List Text
unfolding text
unavailable_errors =
    text "dns_failure"
    ∷ text "timeout"
    ∷ text "connect_error"
    ∷ text "blocked_host"
    ∷ text "invalid_host"
    ∷ []

unfoldable pub message_for_status : ℕ → Text
unfolding text
message_for_status status_code =
    if status_code == 404
    then text "페이지를 찾을 수 없습니다."
    else if leb 400 status_code && ltb status_code 500
    then text "페이지 요청이 거부되었거나 찾을 수 없습니다."
    else text "대상 서버 오류로 페이지를 확인할 수 없습니다."

unfoldable pub message_for_error : Text → Text
unfolding text text_eq starts_with mem_text
message_for_error error =
    if text_eq error (text "dns_failure")
    then text "도메인 주소를 확인할 수 없습니다."
    else if text_eq error (text "timeout")
    then text "페이지 응답 시간이 초과되었습니다."
    else if text_eq error (text "connect_error") || starts_with (text "connection_refused") error
    then text "페이지에 연결할 수 없습니다."
    else if mem_text error (text "blocked_host" ∷ text "invalid_host" ∷ [])
    then text "내부망 또는 차단된 호스트라 분석하지 않았습니다."
    else if starts_with (text "server_error_") error
    then text "대상 서버 오류로 페이지를 확인할 수 없습니다."
    else if starts_with (text "http_error_") error
    then text "페이지를 가져오지 못했습니다."
    else text "페이지를 확인할 수 없습니다."

-- The loop over the two prefixes.
unfoldable pub status_with_prefixes : List Text → Text → Option ℕ
unfolding starts_with remove_prefix is_digits value
status_with_prefixes [] error = none
status_with_prefixes (prefix ∷ prefixes) error =
    let rest = status_with_prefixes prefixes error in
    if starts_with prefix error && is_digits (remove_prefix prefix error)
    then some (value (remove_prefix prefix error))
    else rest

unfoldable pub status_from_error : Text → Option ℕ
unfolding text status_with_prefixes
status_from_error error =
    status_with_prefixes (text "server_error_" ∷ text "http_error_" ∷ []) error

-- `_message_for_status(status_code) if status_code else _message_for_error(error)`
unfoldable pub message_for : Option ℕ → Text → Text
unfolding message_for_status message_for_error
message_for none error = message_for_error error
message_for (some code) error =
    if code == 0 then message_for_error error else message_for_status code

-- The loop over the hops, the last one first.
unfoldable pub bad_hop : List HopRecord → Option (Text × Option ℕ)
unfolding message_for_status
bad_hop [] = none
bad_hop (hop ∷ hops) =
    if leb 400 hop.status_code
    then some (message_for_status hop.status_code, some hop.status_code)
    else bad_hop hops

-- The part of `unchain_page_unavailable` that reads the error code.
unfoldable pub unavailable_by_error : Option Text → Option (Text × Option ℕ)
unfolding text mem_text unavailable_errors starts_with status_from_error message_for
unavailable_by_error none = none
unavailable_by_error (some error) =
    if mem_text error unavailable_errors
      || any (λ p. starts_with p error)
          (text "connection_refused" ∷ text "server_error_" ∷ text "http_error_" ∷ [])
    then some (message_for (status_from_error error) error, status_from_error error)
    else none

unfoldable pub or_else {ℓ} : {A : Type ℓ} → Option A → Option A → Option A
or_else none other = other
or_else (some a) other = some a

unfoldable pub unchain_page_unavailable : UnchainResult → Option (Text × Option ℕ)
unfolding bad_hop unavailable_by_error or_else
unchain_page_unavailable unchain =
    or_else (bad_hop (reverse unchain.hops)) (unavailable_by_error unchain.error)

-- `content.status_code or _status_from_error(error)`
unfoldable pub status_or : Option ℕ → Option ℕ → Option ℕ
status_or none other = other
status_or (some code) other = if code == 0 then other else some code

unfoldable pub content_error_unavailable :
    ContentAnalysisResult → Option Text → Option (Text × Option ℕ)
unfolding text mem_text unavailable_errors starts_with status_from_error status_or message_for
    or_text
content_error_unavailable content none = none
content_error_unavailable content (some error) =
    if mem_text error unavailable_errors || starts_with (text "http_error_") error
    then (let status_code = status_or content.status_code (status_from_error error) in
        some (or_text content.reason (message_for status_code error), status_code))
    else none

unfoldable pub content_page_unavailable : ContentAnalysisResult → Option (Text × Option ℕ)
unfolding content_error_unavailable
content_page_unavailable content =
    if content.fetched then none else content_error_unavailable content content.error
