-- ===== src/Normalizer.antt =====
-- app/services/normalizer/normalize.py: the normal form of a URL. Unicode normalisation, IDNA and the
-- texts of the exceptions of the standard library are the fields of `Stdlib`; `urlparse` is that of
-- Urllib.
pub mod Paths
pub mod Segments
pub mod Normal
pub mod Answers
mod Tests
use lin_clean_be_fastapi.Prelude.{
  ℕ, zero, suc, ◌+◌, ◌-◌, ◌*◌, Bool, false, ◌&&◌, ◌||◌, not, Option, none, some, List, [], ◌∷◌,
  ◌++◌, map, reverse, Text, text, is_empty, text_eq, starts_with, mem_text, any, all, length, drop,
  decimal, value, is_digits, leb, ltb, ◌==◌, if◌then◌else◌,
}
use lin_clean_be_fastapi.Prelude.Split.{split_on, join}
use lin_clean_be_fastapi.Settings.{Settings}
use lin_clean_be_fastapi.Schemas.Results.{NormalizeResult}
use lin_clean_be_fastapi.Urllib.{
  SplitResult, urlsplit, urlunsplit, hostname, parsed_path, uses_params, strip, remove, lower,
  before, from, after_last, bracketed, is_alpha, is_scheme_char,
}
use Paths.{normalize_pct_encoding, normalize_path}
use lin_clean_be_fastapi.Pipeline.{Normalized, normalized, normalization_error}

pub record Stdlib : Type 0 where
  -- `unicodedata.normalize("NFC", s)`
  pub nfc : Text → Text
  -- `hostname.encode("idna").decode("ascii")`; `none` is a UnicodeError
  pub idna : Text → Option Text
  -- the texts of the ValueErrors of `urlparse` and of `port`
  pub parse_error : Text → Text
  pub port_error : Text → Text

unfoldable pub allowed_schemes : List Text
unfolding text
allowed_schemes = map text ("http" ∷ "https" ∷ "ftp" ∷ [])

-- `_DEFAULT_PORTS.get(scheme)`
unfoldable pub default_port : Text → Option ℕ
unfolding text text_eq
default_port scheme =
    if text_eq scheme (text "http")
    then some 80
    else if text_eq scheme (text "https")
    then some 443
    else if text_eq scheme (text "ftp")
    then some 21
    else none

unfoldable pub is_control_char : ℕ → Bool
is_control_char c = ltb c 32 || (leb 127 c && leb c 159)

-- `re.match(r"^[a-zA-Z][a-zA-Z0-9+\-.]*://", s)`
unfoldable pub names_scheme : Text → Bool
unfolding text starts_with is_alpha is_scheme_char before from
names_scheme [] = false
names_scheme (c ∷ s) =
    is_alpha c
    && all is_scheme_char (before (λ d. d == b':') s)
    && starts_with (text "://") (from (λ d. d == b':') s)

unfoldable pub normalize_idn : Stdlib → Text → Text
normalize_idn lib host = elim (lib.idna host) [ none ↦ host | some ascii ↦ ascii ]

-- `urlparse(url).params`
unfoldable pub parsed_params : SplitResult → Text
unfolding mem_text uses_params after_last from
parsed_params parts =
    if mem_text parts.scheme uses_params
    then drop 1 (from (λ c. c == b';') (after_last b'/' parts.path))
    else []

-- What stands behind the host of a network location, after a colon.
unfoldable pub raw_port : Text → Text
unfolding after_last bracketed from
raw_port netloc =
    let hostinfo = after_last b'@' netloc in
    drop 1 (
      from (λ c. c == b':')
        (if bracketed hostinfo
          then from (λ c. c == b']') (from (λ c. c == b'[') hostinfo)
          else hostinfo))

-- `parsed.port`; the outer `none` is a ValueError.
unfoldable pub parsed_port : Text → Option (Option ℕ)
unfolding raw_port is_empty is_digits value
parsed_port netloc =
    let port = raw_port netloc in
    if is_empty port
    then some none
    else if is_digits port && leb (value port) 65535
    then some (some (value port))
    else none

-- The port in the normal form: none where it is that of the scheme.
unfoldable pub kept_port : Text → Option ℕ → Option ℕ
unfolding default_port
kept_port scheme none = none
kept_port scheme (some port) = elim (default_port scheme) [
  | none ↦ some port
  | some default ↦ if not (port == 0) && port == default then none else some port
]

unfoldable pub to_netloc : Text → Option ℕ → Text
unfolding decimal
to_netloc host none = host
to_netloc host (some port) = host ++ b':' ∷ decimal port

-- The arguments of `urlunparse`, with an empty fragment, or the message of a NormalizationError.
pub record NormalParts : Type 0 where
  pub scheme : Text
  pub host : Text
  pub port : Option ℕ
  pub path : Text
  pub params : Text
  pub query : Text

pub data Parts : Type 0 where
  accepted : NormalParts → Parts
  refused : Text → Parts

unfoldable pub to_parts : Text → Text → Option ℕ → SplitResult → NormalParts
unfolding kept_port normalize_path normalize_pct_encoding parsed_path parsed_params
to_parts scheme host port parsed = record {
  scheme = scheme;
  host = host;
  port = kept_port scheme port;
  path = normalize_path (parsed_path parsed);
  params = normalize_pct_encoding (parsed_params parsed);
  query = normalize_pct_encoding parsed.query;
}

-- From the host on.
unfoldable pub normalize_host : Stdlib → Text → SplitResult → Parts
unfolding text is_empty parsed_port normalize_idn hostname lower to_parts
normalize_host lib cleaned parsed =
    let host = normalize_idn lib (lower (hostname parsed)) in
    if any (λ c. c == b':') (hostname parsed)
    then refused (text "IPv6 주소는 지원하지 않습니다.")
    else if is_empty host
    then refused (text "호스트가 비어있습니다.")
    else elim (parsed_port parsed.netloc) [
      | none ↦ refused (text "유효하지 않은 포트: " ++ lib.port_error cleaned)
      | some port ↦ accepted (to_parts (lower parsed.scheme) host port parsed)
    ]

unfoldable pub normalize_parsed : Stdlib → Text → SplitResult → Parts
unfolding text mem_text lower allowed_schemes normalize_host
normalize_parsed lib cleaned parsed =
    if mem_text (lower parsed.scheme) allowed_schemes
    then normalize_host lib cleaned parsed
    else refused (text "지원하지 않는 스킴: " ++ lower parsed.scheme)

-- The URL with a scheme.
unfoldable pub with_scheme : Text → Text
unfolding text names_scheme
with_scheme cleaned = if names_scheme cleaned then cleaned else text "http://" ++ cleaned

-- From the check of the length on.
unfoldable pub normalize_cleaned : Settings → Stdlib → Text → Parts
unfolding text decimal urlsplit normalize_parsed
normalize_cleaned cfg lib cleaned =
    if leb (length cleaned) cfg.normalizer_max_url_length
    then elim (urlsplit cleaned) [
      | none ↦ refused (text "URL 파싱 실패: " ++ lib.parse_error cleaned)
      | some parsed ↦ normalize_parsed lib cleaned parsed
    ]
    else refused (text "URL이 최대 길이(" ++ decimal cfg.normalizer_max_url_length ++ text "자)를 초과합니다.")

-- `urlunparse((scheme, netloc, path, params, query, ""))`
unfoldable pub unparse : NormalParts → Text
unfolding urlunsplit to_netloc is_empty
unparse parts = urlunsplit (record {
  scheme = parts.scheme;
  netloc = to_netloc parts.host parts.port;
  path = if is_empty parts.params then parts.path else parts.path ++ b';' ∷ parts.params;
  query = parts.query;
  fragment = [];
})

-- `strip`, the control characters and NFC.
unfoldable pub cleaned_url : Stdlib → Text → Text
unfolding strip remove is_control_char
cleaned_url lib raw_url = lib.nfc (remove is_control_char (strip raw_url))

unfoldable pub normalize_url : Settings → Stdlib → Text → Normalized
unfolding text strip is_empty names_scheme cleaned_url with_scheme normalize_cleaned unparse
normalize_url cfg lib raw_url =
    let cleaned = cleaned_url lib raw_url in
    if is_empty (strip raw_url)
    then normalization_error (text "빈 URL입니다.")
    else elim (normalize_cleaned cfg lib (with_scheme cleaned)) [
      | refused message ↦ normalization_error message
      | accepted parts ↦ normalized (record {
        original_url = strip raw_url;
        normalized_url = unparse parts;
        scheme_was_added = not (names_scheme cleaned);
      })
    ]
