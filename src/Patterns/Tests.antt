-- ===== src/Patterns/Tests.antt =====
-- Runs of the patterns and instances of their theorems.
use lin_clean_be_fastapi.Prelude.{
  ◌≡◌, refl, false, some, List, [], ◌∷◌, ◌++◌, Text, text, All, mem_text, any, ◌==◌,
}
use lin_clean_be_fastapi.Prelude.Ascending.{list_if}
use lin_clean_be_fastapi.Settings.{default_settings}
use lin_clean_be_fastapi.Schemas.Signals.{
  mem_domain, no_https, suspicious_tld, sensitive_path, brand_in_url, hosting_platform,
  free_hosting_lure, open_redirect_param, ip_direct,
}
use lin_clean_be_fastapi.Urllib.{SplitResult, urlsplit, hostname}
use lin_clean_be_fastapi.Tld.{extract_url_parts}
use lin_clean_be_fastapi.Patterns.{Stdlib, domain_or_host, trusted_brand_domains, check_patterns}
use lin_clean_be_fastapi.Patterns.Coherence.{
  IsCoherent, check_patterns-IsCoherent, check_patterns-trusted,
}
use lin_clean_be_fastapi.Patterns.Redirects.{IsHarmless, check_patterns-IsHarmless}

-- An address is one without letters, and every query is `url=` with the whole query as its value.
abbrev lib : Stdlib
lib = record {
  is_ip = λ host. any (λ c. c == b'1') host;
  parse_qs =
      λ query. elim query [ [] ↦ [] | (c ∷ s) ↦ ((b'u' ∷ b'r' ∷ b'l' ∷ []), (c ∷ s) ∷ []) ∷ [] ];
}

abbrev brand_lines : List Text
brand_lines = (b'n' ∷ b'a' ∷ b'v' ∷ b'e' ∷ b'r' ∷ b'.' ∷ b'c' ∷ b'o' ∷ b'm' ∷ []) ∷ []

check_patterns_tests :
    (check_patterns default_settings lib brand_lines (text "http://login.evil.xyz/naver")
      ≡ some (no_https ∷ suspicious_tld ∷ sensitive_path ∷ brand_in_url ∷ []))
    × (check_patterns default_settings lib brand_lines (text "https://naver.com/login") ≡ some [])
    × (check_patterns default_settings lib brand_lines (text "https://user.github.io/login")
        ≡ some (hosting_platform ∷ sensitive_path ∷ free_hosting_lure ∷ []))
    × (check_patterns default_settings lib brand_lines (text "https://a.com/?https://b.com")
        ≡ some (open_redirect_param ∷ []))
    × (check_patterns default_settings lib brand_lines (text "http://1/login")
        ≡ some (ip_direct ∷ []))
unfolding check_patterns text list_if
check_patterns_tests = (refl, refl, refl, refl, refl)

-- http://login.evil.xyz/naver
abbrev evil : Text
evil =
    b'h' ∷ b't' ∷ b't' ∷ b'p' ∷ b':' ∷ b'/' ∷ b'/' ∷ b'l' ∷ b'o' ∷ b'g' ∷ b'i' ∷ b'n' ∷ b'.' ∷ b'e'
    ∷ b'v' ∷ b'i' ∷ b'l' ∷ b'.' ∷ b'x' ∷ b'y' ∷ b'z' ∷ b'/' ∷ b'n' ∷ b'a' ∷ b'v' ∷ b'e' ∷ b'r' ∷ []

abbrev https : SplitResult
https = record {
  scheme = b'h' ∷ b't' ∷ b't' ∷ b'p' ∷ b's' ∷ [];
  netloc = b'n' ∷ b'a' ∷ b'v' ∷ b'e' ∷ b'r' ∷ b'.' ∷ b'c' ∷ b'o' ∷ b'm' ∷ [];
  path = b'/' ∷ b'p' ∷ b'a' ∷ b'y' ∷ [];
  query =
      b'h' ∷ b't' ∷ b't' ∷ b'p' ∷ b':' ∷ b'/' ∷ b'/' ∷ b'n' ∷ b'a' ∷ b'v' ∷ b'e' ∷ b'r' ∷ b'.'
      ∷ b'c' ∷ b'o' ∷ b'm' ∷ [];
  fragment = [];
}

abbrev naver : Text
naver =
    b'h'
    ∷ b't'
    ∷ b't'
    ∷ b'p'
    ∷ b's'
    ∷ b':'
    ∷ b'/'
    ∷ b'/'
    ∷ (https.netloc ++ https.path ++ b'?' ∷ https.query)

check_patterns-IsCoherent_example :
    IsCoherent (no_https ∷ suspicious_tld ∷ sensitive_path ∷ brand_in_url ∷ [])
unfolding check_patterns list_if
check_patterns-IsCoherent_example =
    check_patterns-IsCoherent default_settings lib brand_lines evil
      (no_https ∷ suspicious_tld ∷ sensitive_path ∷ brand_in_url ∷ []) refl

check_patterns-trusted_example :
    (mem_domain sensitive_path [] ≡ false) × (mem_domain brand_in_url [] ≡ false)
unfolding check_patterns list_if urlsplit domain_or_host trusted_brand_domains extract_url_parts
    mem_text hostname
check_patterns-trusted_example =
    check_patterns-trusted default_settings lib brand_lines naver https [] refl refl refl

check_patterns-IsHarmless_example :
    All
      (IsHarmless (domain_or_host (extract_url_parts naver) (hostname https)))
      (lib.parse_qs https.query)
unfolding check_patterns list_if urlsplit mem_domain
check_patterns-IsHarmless_example =
    check_patterns-IsHarmless default_settings lib brand_lines naver https [] refl refl refl refl
