-- ===== src/Unchainer/Hop.antt =====
-- One hop: the check of the host, the request with HEAD and then GET, and what its answer means.
use lin_clean_be_fastapi.Prelude.{
  ℕ, Bool, true, false, ◌&&◌, ◌||◌, not, Option, none, some, List, [], ◌∷◌, ◌++◌, Text, text,
  is_empty, text_eq, mem_text, contains, truthy, or_text, decimal, reverse, leb, ◌==◌,
  if◌then◌else◌,
}
use lin_clean_be_fastapi.Schemas.Results.{HopRecord}
use lin_clean_be_fastapi.Urllib.{SplitResult, urlsplit, hostname, lower, strip_while}
use lin_clean_be_fastapi.Tld.{extract_url_parts, top_domain_under_public_suffix}

-- What sending one request gives: an HTTPError of the client, an exception that is none, such as
-- InvalidURL, or the status and two headers.
pub data Reply : Type 0 where
  timeout : Reply
  connect_error : Text → Reply
  http_error : Text → Reply
  other_error : Reply
  response : ℕ → Option Text → Text → Reply

pub record Web : Type 0 where
  -- the answer to a request with the method and the URL
  pub send : Text → Text → Reply
  -- the addresses of a host; the inner `none` is an OSError, the outer one another exception, such as
  -- the UnicodeError of a host that cannot be encoded
  pub resolve : Text → Option (Option (List Text))
  -- whether an address is public; `none` where it is no address
  pub is_global : Text → Option Bool
  -- `urllib.parse.urljoin`; `none` is a ValueError
  pub urljoin : Text → Text → Option Text

-- What is known after one hop. `raised` is an exception that is not caught.
pub data Hop : Type 0 where
  hop : Option HopRecord → Option Text → Option Text → List Text → Hop
  raised : Hop

-- What one attempt leads to: the next method, or an end.
pub data Attempt : Type 0 where
  retry : Attempt
  ends : Hop → Attempt

unfoldable pub redirect_code : ℕ → Bool
redirect_code status =
    status == 301 || status == 302 || status == 303 || status == 307 || status == 308

unfoldable pub allowed_schemes : List Text
allowed_schemes = text "http" ∷ text "https" ∷ []

-- `_is_private_ip`: what is no address counts as private.
unfoldable pub is_private_ip : Web → Text → Bool
is_private_ip web ip = elim (web.is_global ip) [ none ↦ true | some public ↦ not public ]

unfoldable pub any_private : Web → List Text → Bool
any_private web [] = false
any_private web (ip ∷ ips) = is_private_ip web ip || any_private web ips

unfoldable pub check_addresses : Web → Option (Option (List Text)) → Option (Option Text)
check_addresses web none = none
check_addresses web (some none) = some (some (text "dns_failure"))
check_addresses web (some (some ips)) =
    some (if any_private web ips then some (text "ssrf_blocked") else none)

-- `_check_host_safety` of a parsed URL: `some none` if every address of the host is public, and `none`
-- for an exception of the lookup.
unfoldable pub check_parsed : Web → SplitResult → Option (Option Text)
check_parsed web parts =
    let host = hostname parts in
    if is_empty host
    then some (some (text "invalid_host"))
    else check_addresses web (web.resolve host)

-- The outer `none` is an exception, a ValueError of `urlparse` or one of the lookup.
unfoldable pub check_host_safety : Web → Text → Option (Option Text)
check_host_safety web target = elim (urlsplit target) [
  | none ↦ none
  | some parts ↦ check_parsed web parts
]

abbrev is_bracket : ℕ → Bool
is_bracket c = c == b'[' || c == b']'

-- `host.strip("[]")`
unfoldable pub strip_brackets : Text → Text
strip_brackets s = reverse (strip_while is_bracket (reverse (strip_while is_bracket s)))

-- `_registered_domain_from_host`; a missing host is the empty text.
unfoldable pub registered_domain_from_host : Text → Text
registered_domain_from_host host =
    if is_empty host
    then []
    else (let top =
          top_domain_under_public_suffix
            (extract_url_parts (text "https://" ++ (strip_brackets host ++ text "/"))) in
        lower (if is_empty top then host else top))

unfoldable pub is_registered_domain_change : Text → Text → Bool
is_registered_domain_change left right =
    not (text_eq (registered_domain_from_host left) (registered_domain_from_host right))

-- How an f-string shows a host name that may be None.
unfoldable pub shown_host : Text → Text
shown_host host = if is_empty host then text "None" else host

abbrev pub method_name : Bool → Text
method_name is_head = if is_head then text "HEAD" else text "GET"

abbrev pub plain_hop : Text → ℕ → Bool → HopRecord
plain_hop target status is_head = record {
  url = target;
  status_code = status;
  raw_location = none;
  location = none;
  method = method_name is_head;
}

abbrev pub redirect_hop : Text → ℕ → Text → Text → Bool → HopRecord
redirect_hop target status raw next is_head = record {
  url = target;
  status_code = status;
  raw_location = some raw;
  location = some next;
  method = method_name is_head;
}

-- The signals of a redirect from one parsed URL to another.
unfoldable pub redirect_signals : SplitResult → SplitResult → List Text → List Text
redirect_signals here there signals =
    let downgraded =
      (if text_eq here.scheme (text "https") && text_eq there.scheme (text "http")
        then signals ++ text "scheme_downgrade" ∷ []
        else signals) in
    if is_registered_domain_change (hostname here) (hostname there)
    then downgraded
      ++ (text "cross_origin:"
          ++ (shown_host (hostname here) ++ (text "->" ++ shown_host (hostname there))))
        ∷ []
    else downgraded

-- A redirect with the parsed target.
unfoldable pub follow_location :
    Text → ℕ → Text → Bool → List Text → Text → SplitResult → SplitResult → Hop
follow_location target status raw is_head signals next there here =
    if mem_text there.scheme allowed_schemes
    then hop (some (redirect_hop target status raw next is_head)) (some next) none
        (redirect_signals here there signals)
    else hop (some (redirect_hop target status raw next is_head)) none
        (some (text "unsafe_redirect_scheme:" ++ there.scheme))
        (signals ++ (text "unsafe_scheme:" ++ there.scheme) ∷ [])

unfoldable pub follow_parsed :
    Text → ℕ → Text → Bool → List Text → Text → Option SplitResult → Option SplitResult → Hop
follow_parsed target status raw is_head signals next none here = raised
follow_parsed target status raw is_head signals next (some there) none =
    if mem_text there.scheme allowed_schemes
    then raised
    else hop (some (redirect_hop target status raw next is_head)) none
        (some (text "unsafe_redirect_scheme:" ++ there.scheme))
        (signals ++ (text "unsafe_scheme:" ++ there.scheme) ∷ [])
follow_parsed target status raw is_head signals next (some there) (some here) =
    follow_location target status raw is_head signals next there here

unfoldable pub follow_joined : Text → ℕ → Text → Bool → List Text → Option Text → Hop
follow_joined target status raw is_head signals none = raised
follow_joined target status raw is_head signals (some next) =
    follow_parsed target status raw is_head signals next (urlsplit next) (urlsplit target)

-- An answer with a redirect status: HEAD without a location is tried again with GET.
unfoldable pub redirected : Web → Text → ℕ → Option Text → Bool → List Text → Attempt
redirected web target status location is_head signals =
    if truthy location
    then ends (
        follow_joined target status (or_text location []) is_head signals
          (web.urljoin target (or_text location [])))
    else if is_head
    then retry
    else ends (
        hop (some (plain_hop target status is_head)) none (some (text "missing_location_header"))
          signals)

unfoldable pub answered : Web → Text → ℕ → Option Text → Bool → List Text → Attempt
answered web target status location is_head signals =
    if is_head && (status == 405 || status == 403 || status == 400)
    then retry
    else if leb 500 status
    then ends (
        hop (some (plain_hop target status is_head)) none
          (some (text "server_error_" ++ decimal status)) signals)
    else if redirect_code status
    then redirected web target status location is_head signals
    else ends (hop (some (plain_hop target status is_head)) none none signals)

-- The error code for a connection that failed under GET.
unfoldable pub connect_error_code : Text → Text
connect_error_code cause =
    if contains (text "name or service not known") (lower cause)
      || contains (text "getaddrinfo") (lower cause)
    then text "dns_failure"
    else text "connection_refused: " ++ cause

-- One round of the loop over the methods.
unfoldable pub attempt : Web → Text → Bool → List Text → Reply → Attempt
attempt web target is_head signals timeout =
    if is_head then retry else ends (hop none none (some (text "timeout")) signals)
attempt web target is_head signals (connect_error cause) =
    if is_head then retry else ends (hop none none (some (connect_error_code cause)) signals)
attempt web target is_head signals (http_error cause) =
    if is_head then retry else ends (hop none none (some (text "http_error: " ++ cause)) signals)
attempt web target is_head signals other_error = ends raised
attempt web target is_head signals (response status location _) =
    answered web target status location is_head signals

unfoldable pub otherwise : Attempt → Hop → Hop
otherwise retry next = next
otherwise (ends h) next = h

-- `_follow_one_hop`
unfoldable pub follow_one_hop : Web → Text → List Text → Hop
follow_one_hop web target signals =
    otherwise (attempt web target true signals (web.send (text "HEAD") target)) (
      otherwise (attempt web target false signals (web.send (text "GET") target))
        (hop none none (some (text "unexpected_fallthrough")) signals))
