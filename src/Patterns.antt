-- ===== src/Patterns.antt =====
-- app/services/domain_heuristic/patterns.py: what the text of a URL tells. The lines of `brands.txt`
-- are an argument, and none where the file is missing. The standard library's `ipaddress` and
-- `parse_qs` are the fields of `Stdlib`. A set is the list of its elements.
pub mod Tables
pub mod Coherence
pub mod Redirects
mod Tests
use lin_clean_be_fastapi.Prelude.{
  ℕ, ◌+◌, Bool, true, false, ◌&&◌, ◌||◌, not, Option, none, some, List, [], ◌∷◌, ◌++◌, Text, text,
  is_empty, text_eq, mem_text, starts_with, contains, any, length, reverse, leb, ◌==◌,
  if◌then◌else◌,
}
use lin_clean_be_fastapi.Prelude.Split.{split_on, join}
use lin_clean_be_fastapi.Prelude.Ascending.{list_if}
use lin_clean_be_fastapi.Settings.{Settings}
use lin_clean_be_fastapi.Schemas.Signals.{
  DomainHeuristicSignal, ip_direct, punycode_idn, subdomain_overuse, no_https, open_redirect_param,
  hyphen_overuse, suspicious_tld, hosting_platform, url_userinfo, brand_in_url, free_hosting_lure,
  sensitive_path, url_shortener,
}
use lin_clean_be_fastapi.Urllib.{
  SplitResult, urlsplit, hostname, parsed_path, username, password, strip, strip_while, lower,
  before,
}
use lin_clean_be_fastapi.Tld.{
  ExtractResult, extract_url_parts, top_domain_under_public_suffix, nonempty,
}
use Tables.{
  suspicious_tlds, hosting_platforms, url_shorteners, trusted_benign_domains, sensitive_path_tokens,
  seeded_brand_labels, generic_brand_labels, open_redirect_params,
}

-- `ipaddress.ip_address(host)` raises nothing; `parse_qs(query, keep_blank_values=True)`.
pub record Stdlib : Type 0 where
  pub is_ip : Text → Bool
  pub parse_qs : Text → List (Text × List Text)

unfoldable pub is_bracket : ℕ → Bool
is_bracket c = c == b'[' || c == b']'

unfoldable pub is_ip_address : Stdlib → Text → Bool
unfolding strip_while is_bracket
is_ip_address lib host =
    lib.is_ip (reverse (strip_while is_bracket (reverse (strip_while is_bracket host))))

-- Is the line of the file a comment or blank?
unfoldable pub is_skipped : Text → Bool
unfolding strip is_empty starts_with text
is_skipped line = is_empty (strip line) || starts_with (text "#") (strip line)

unfoldable pub brand_labels_from : List Text → List Text
unfolding is_skipped strip lower before mem_text generic_brand_labels
brand_labels_from [] = []
brand_labels_from (line ∷ lines) =
    let rest = brand_labels_from lines in
    let label = lower (before (λ c. c == b'.') (strip line)) in
    if not (is_skipped line) && leb 3 (length label) && not (mem_text label generic_brand_labels)
    then label ∷ rest
    else rest

unfoldable pub brand_labels : List Text → List Text
unfolding seeded_brand_labels brand_labels_from
brand_labels lines = seeded_brand_labels ++ brand_labels_from lines

unfoldable pub trusted_brand_domains : List Text → List Text
unfolding is_skipped strip lower
trusted_brand_domains [] = []
trusted_brand_domains (line ∷ lines) =
    let rest = trusted_brand_domains lines in
    if is_skipped line then rest else lower (strip line) ∷ rest

unfoldable pub is_trusted_registered_domain : List Text → Text → Bool
unfolding extract_url_parts top_domain_under_public_suffix lower is_empty mem_text
    trusted_brand_domains trusted_benign_domains
is_trusted_registered_domain lines url =
    let domain = lower (top_domain_under_public_suffix (extract_url_parts url)) in
    not (is_empty domain)
    && (mem_text domain (trusted_brand_domains lines) || mem_text domain trusted_benign_domains)

-- `re.findall(r"[...]+", s)`
unfoldable pub runs : (ℕ → Bool) → Text → List Text
unfolding nonempty
runs p s = nonempty (pieces s)
  where
    pieces : Text → List Text
    pieces [] = [] ∷ []
    pieces (c ∷ t) = if p c then glue c (pieces t) else [] ∷ pieces t
      where
        glue : ℕ → List Text → List Text
        glue c [] = (c ∷ []) ∷ []
        glue c (piece ∷ rest) = (c ∷ piece) ∷ rest

unfoldable pub is_lower_letter : ℕ → Bool
is_lower_letter c = leb b'a' c && leb c b'z'

unfoldable pub is_lower_alnum : ℕ → Bool
unfolding is_lower_letter
is_lower_alnum c = is_lower_letter c || (leb b'0' c && leb c b'9')

-- The loop over the labels.
unfoldable pub labels_in : List Text → Text → List Text → List Text
unfolding contains mem_text
labels_in tokens lowered [] = []
labels_in tokens lowered (label ∷ labels) =
    let rest = labels_in tokens lowered labels in
    if leb 3 (length label) && (contains label lowered || mem_text label tokens)
    then label ∷ rest
    else rest

unfoldable pub brand_labels_in_url_text : List Text → Text → List Text
unfolding lower runs is_lower_alnum labels_in brand_labels
brand_labels_in_url_text lines s =
    labels_in (runs is_lower_alnum (lower s)) (lower s) (brand_labels lines)

-- `ext.top_domain_under_public_suffix or host`, in lower case
unfoldable pub domain_or_host : ExtractResult → Text → Text
unfolding top_domain_under_public_suffix is_empty lower
domain_or_host ext host =
    let top = top_domain_under_public_suffix ext in lower (if is_empty top then host else top)

-- The values of one parameter; `none` is a ValueError of `urlparse`.
unfoldable pub leads_out : Text → List Text → Option Bool
unfolding text text_eq urlsplit hostname is_empty domain_or_host extract_url_parts
leads_out registered_domain [] = some false
leads_out registered_domain (value ∷ values) =
    let rest = leads_out registered_domain values in
    elim (urlsplit value) [
      | none ↦ none
      | some parsed ↦
          if not (text_eq parsed.scheme (text "http") || text_eq parsed.scheme (text "https"))
            || is_empty (hostname parsed)
          then some true
          else if not (
              text_eq (domain_or_host (extract_url_parts value) (hostname parsed))
                registered_domain)
          then some true
          else rest
    ]

-- A parameter without values counts too.
unfoldable pub values_lead_out : Text → List Text → Option Bool
unfolding leads_out
values_lead_out registered_domain [] = some true
values_lead_out registered_domain values = leads_out registered_domain values

unfoldable pub has_external_open_redirect_target : List (Text × List Text) → Text → Option Bool
unfolding lower mem_text open_redirect_params values_lead_out
has_external_open_redirect_target [] registered_domain = some false
has_external_open_redirect_target ((key, values) ∷ qs) registered_domain =
    let rest = has_external_open_redirect_target qs registered_domain in
    if mem_text (lower key) open_redirect_params
    then elim (values_lead_out registered_domain values) [
      | none ↦ none
      | some true ↦ some true
      | some false ↦ rest
    ]
    else rest

unfoldable pub is_on_hosting_platform : ExtractResult → Bool
unfolding is_empty mem_text hosting_platforms
is_on_hosting_platform ext =
    not (is_empty ext.suffix)
    && (mem_text ext.suffix hosting_platforms
        || (not (is_empty ext.subdomain)
            && mem_text (ext.domain ++ b'.' ∷ ext.suffix) hosting_platforms))

unfoldable pub count_char : ℕ → Text → ℕ
count_char c [] = 0
count_char c (d ∷ s) = (if d == c then 1 else 0) + count_char c s

-- The host, the path and the query, as far as they are not empty.
unfoldable pub url_text : SplitResult → Text
unfolding join nonempty hostname parsed_path
url_text parsed = join b' ' (nonempty (hostname parsed ∷ parsed_path parsed ∷ parsed.query ∷ []))

unfoldable pub has_sensitive_token : Text → Bool
unfolding mem_text sensitive_path_tokens runs is_lower_letter lower
has_sensitive_token s =
    any (λ token. mem_text token sensitive_path_tokens) (runs is_lower_letter (lower s))

-- `bool(labels)`
unfoldable pub found_any : List Text → Bool
found_any [] = false
found_any (label ∷ labels) = true

-- What the tests of a host that is no address find.
pub record HostTests : Type 0 where
  pub is_http : Bool
  pub has_userinfo : Bool
  pub is_deep : Bool
  pub is_punycode : Bool
  pub is_hyphenated : Bool
  pub has_suspicious_tld : Bool
  pub leads_elsewhere : Bool
  pub is_hosting_platform : Bool
  pub is_shortener : Bool
  pub is_sensitive_path : Bool
  pub names_brand : Bool
  pub is_named_brand : Bool
  pub is_trusted_brand_domain : Bool

unfoldable pub test_host : Settings → List Text → SplitResult → ExtractResult → Bool → HostTests
unfolding text text_eq mem_text contains nonempty split_on lower is_empty hostname username password
    domain_or_host trusted_brand_domains count_char suspicious_tlds url_shorteners
    is_on_hosting_platform url_text has_sensitive_token brand_labels_in_url_text found_any
test_host cfg lines parsed ext leads =
    let host = hostname parsed in
    let domain = domain_or_host ext host in
    let url_brands = brand_labels_in_url_text lines (url_text parsed) in
    record {
      is_http = text_eq parsed.scheme (text "http");
      has_userinfo =
          not (is_empty (username parsed))
          || not (is_empty (password parsed))
          || any (λ c. c == b'@') parsed.netloc;
      is_deep = leb cfg.subdomain_label_threshold (length (nonempty (split_on b'.' ext.subdomain)));
      is_punycode = contains (text "xn--") host;
      is_hyphenated =
          leb cfg.hyphen_count_threshold (count_char b'-' ext.domain)
          || leb cfg.domain_label_length_threshold (length ext.domain);
      has_suspicious_tld = mem_text ext.suffix suspicious_tlds;
      leads_elsewhere = leads;
      is_hosting_platform = is_on_hosting_platform ext;
      is_shortener = mem_text domain url_shorteners;
      is_sensitive_path = has_sensitive_token (url_text parsed);
      names_brand = found_any url_brands;
      is_named_brand = mem_text (lower ext.domain) url_brands;
      is_trusted_brand_domain = mem_text domain (trusted_brand_domains lines);
    }

-- The signals in the order in which they are appended.
unfoldable pub host_signals : HostTests → List DomainHeuristicSignal
host_signals t =
    list_if t.is_http no_https
    ++ list_if t.has_userinfo url_userinfo
    ++ list_if t.is_deep subdomain_overuse
    ++ list_if t.is_punycode punycode_idn
    ++ list_if t.is_hyphenated hyphen_overuse
    ++ list_if t.has_suspicious_tld suspicious_tld
    ++ list_if t.leads_elsewhere open_redirect_param
    ++ list_if t.is_hosting_platform hosting_platform
    ++ list_if t.is_shortener url_shortener
    ++ list_if (t.is_sensitive_path && not t.is_trusted_brand_domain) sensitive_path
    ++ list_if (t.names_brand && not t.is_trusted_brand_domain && not t.is_named_brand) brand_in_url
    ++ list_if (t.is_hosting_platform && (t.names_brand || t.is_sensitive_path)) free_hosting_lure

-- `check_patterns`; `none` is a ValueError of `urlparse`.
unfoldable pub check_patterns :
    Settings → Stdlib → List Text → Text → Option (List DomainHeuristicSignal)
unfolding urlsplit hostname is_ip_address extract_url_parts has_external_open_redirect_target
    domain_or_host host_signals test_host
check_patterns cfg lib lines url = elim (urlsplit url) [
  | none ↦ none
  | some parsed ↦
      let ext = extract_url_parts url in
      let leads =
        has_external_open_redirect_target (lib.parse_qs parsed.query)
          (domain_or_host ext (hostname parsed)) in
      if is_ip_address lib (hostname parsed) then some (ip_direct ∷ []) else elim leads [
        | none ↦ none
        | some leads ↦ some (host_signals (test_host cfg lines parsed ext leads))
      ]
]
