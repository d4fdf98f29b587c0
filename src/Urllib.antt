-- ===== src/Urllib.antt =====
-- `urllib.parse` of Python's standard library, as far as the program calls it: `urlsplit`, the
-- `hostname` and `path` of its results, `urlunsplit` and `urlunparse`; and `str.strip`. Letter case is
-- that of ASCII, and the check of non-ASCII hosts under NFKC is left out.
use lin_clean_be_fastapi.Prelude.{
  ℕ, suc, ◌+◌, ◌-◌, Bool, false, ◌&&◌, ◌||◌, not, Option, none, some, List, mem_text, [], ◌∷◌, ◌++◌,
  map, reverse, Text, text, is_empty, starts_with, ◌≡◌, refl, any, all, drop, take, length, text_eq,
  leb, ◌==◌, if◌then◌else◌,
}

unfoldable pub is_upper : ℕ → Bool
is_upper c = leb b'A' c && leb c b'Z'

unfoldable pub lower_char : ℕ → ℕ
unfolding is_upper
lower_char c = if is_upper c then c + 32 else c

-- `s.lower()`
unfoldable pub lower : Text → Text
unfolding lower_char
lower s = map lower_char s

unfoldable pub is_alpha : ℕ → Bool
is_alpha c = (leb b'a' c && leb c b'z') || (leb b'A' c && leb c b'Z')

unfoldable pub is_scheme_char : ℕ → Bool
unfolding is_alpha
is_scheme_char c = is_alpha c || (leb b'0' c && leb c b'9') || c == b'+' || c == b'-' || c == b'.'

-- The part of `s` in front of the first character that satisfies `p`, and the rest from there on.
unfoldable pub before : (ℕ → Bool) → Text → Text
before p [] = []
before p (c ∷ s) = if p c then [] else c ∷ before p s

unfoldable pub from : (ℕ → Bool) → Text → Text
from p [] = []
from p (c ∷ s) = if p c then c ∷ s else from p s

-- What follows the last `c`, or the whole text: `s.rpartition(c)[2]`.
unfoldable pub after_last_from : ℕ → Text → Text → Text
after_last_from c kept [] = kept
after_last_from c kept (d ∷ t) = after_last_from c (if d == c then t else kept) t

unfoldable pub after_last : ℕ → Text → Text
unfolding after_last_from
after_last c s = after_last_from c s s

unfoldable pub strip_while : (ℕ → Bool) → Text → Text
strip_while p [] = []
strip_while p (c ∷ s) = if p c then strip_while p s else c ∷ s

-- `str.isspace` of a character
unfoldable pub is_space : ℕ → Bool
is_space c =
    (leb 9 c && leb c 13)
    || (leb 28 c && leb c 32)
    || c == 133
    || c == 160
    || c == 5760
    || (leb 8192 c && leb c 8202)
    || c == 8232
    || c == 8233
    || c == 8239
    || c == 8287
    || c == 12288

-- `str.strip`
unfoldable pub strip : Text → Text
unfolding strip_while is_space
strip s = reverse (strip_while is_space (reverse (strip_while is_space s)))

unfoldable pub remove : (ℕ → Bool) → Text → Text
remove p [] = []
remove p (c ∷ s) = let rest = remove p s in if p c then rest else c ∷ rest

pub record SplitResult : Type 0 where
  pub scheme : Text
  pub netloc : Text
  pub path : Text
  pub query : Text
  pub fragment : Text

-- Does the text begin with a scheme and a colon?
unfoldable pub has_scheme : Text → Bool
unfolding is_alpha is_scheme_char before is_empty from
has_scheme [] = false
has_scheme (c ∷ s) =
    is_alpha c
    && all is_scheme_char (before (λ d. d == b':') (c ∷ s))
    && not (is_empty (from (λ d. d == b':') (c ∷ s)))

unfoldable pub is_netloc_end : ℕ → Bool
is_netloc_end c = c == b'/' || c == b'?' || c == b'#'

-- One bracket without the other: `urlsplit` raises ValueError.
unfoldable pub unbalanced : Text → Bool
unbalanced netloc =
    if any (λ c. c == b'[') netloc
    then not (any (λ c. c == b']') netloc)
    else any (λ c. c == b']') netloc

-- The path, the query and the fragment of what follows the host.
unfoldable pub split_tail : Text → Text → Text → SplitResult
unfolding before from
split_tail scheme netloc rest =
    let plain = before (λ c. c == b'#') rest in
    record {
      scheme = scheme;
      netloc = netloc;
      path = before (λ c. c == b'?') plain;
      query = drop 1 (from (λ c. c == b'?') plain);
      fragment = drop 1 (from (λ c. c == b'#') rest);
    }

unfoldable pub split_host : Text → Text → Option SplitResult
unfolding text starts_with before from is_netloc_end unbalanced split_tail
split_host scheme rest =
    if starts_with (text "//") rest
    then (let netloc = before is_netloc_end (drop 2 rest) in
        if unbalanced netloc
        then none
        else some (split_tail scheme netloc (from is_netloc_end (drop 2 rest))))
    else some (split_tail scheme [] rest)

unfoldable pub is_stripped : ℕ → Bool
is_stripped c = leb c 32

unfoldable pub is_unsafe : ℕ → Bool
is_unsafe c = c == 9 || c == 10 || c == 13

-- `none` stands for a ValueError.
unfoldable pub urlsplit : Text → Option SplitResult
unfolding has_scheme lower before from split_host strip_while remove is_stripped is_unsafe
urlsplit raw =
    let url = remove is_unsafe (strip_while is_stripped raw) in
    if has_scheme url
    then split_host (lower (before (λ c. c == b':') url)) (drop 1 (from (λ c. c == b':') url))
    else split_host [] url

unfoldable pub bracketed : Text → Bool
bracketed hostinfo = any (λ c. c == b'[') hostinfo

-- The host of a network location as written, without userinfo, brackets and port.
unfoldable pub raw_hostname : Text → Text
unfolding after_last before from bracketed
raw_hostname netloc =
    let hostinfo = after_last b'@' netloc in
    if bracketed hostinfo
    then before (λ c. c == b']') (drop 1 (from (λ c. c == b'[') hostinfo))
    else before (λ c. c == b':') hostinfo

-- `hostname or ""`: the host in lower case up to a zone id.
unfoldable pub hostname : SplitResult → Text
unfolding raw_hostname lower before from
hostname parts =
    let host = raw_hostname parts.netloc in
    lower (before (λ c. c == b'%') host) ++ from (λ c. c == b'%') host

-- `urlparse(url).hostname or ""`, with the empty text also where `urlparse` raises.
unfoldable pub url_hostname : Text → Text
unfolding urlsplit hostname
url_hostname url = elim (urlsplit url) [ none ↦ [] | some parts ↦ hostname parts ]

-- `urlparse` takes the parameters behind a `;` off the last segment, and `urlunparse` puts them back
-- unless they are empty: a single `;` at the end is lost.
unfoldable pub without_empty_params : Text → Text
unfolding after_last from
without_empty_params path =
    if text_eq (from (λ c. c == b';') (after_last b'/' path)) (b';' ∷ [])
    then take (length path - 1) path
    else path

-- The schemes with which `urlparse` takes parameters off the path.
unfoldable pub uses_params : List Text
unfolding text
uses_params = map text (
    "" ∷ "ftp" ∷ "hdl" ∷ "prospero" ∷ "http" ∷ "https" ∷ "shttp" ∷ "rtsp" ∷ "rtsps" ∷ "sip" ∷ "sips"
    ∷ "mms" ∷ "sftp" ∷ "tel" ∷ [])

-- `urlparse(url).path`: without what follows a `;` in the last segment.
unfoldable pub parsed_path : SplitResult → Text
unfolding after_last before uses_params mem_text
parsed_path parts =
    let last = after_last b'/' parts.path in
    if mem_text parts.scheme uses_params
    then take (length parts.path - length last) parts.path ++ before (λ c. c == b';') last
    else parts.path

-- What stands in front of the last `@` of a network location.
unfoldable pub userinfo : Text → Text
unfolding after_last
userinfo netloc = take (length netloc - suc (length (after_last b'@' netloc))) netloc

-- `username or ""` and `password or ""`
unfoldable pub username : SplitResult → Text
unfolding before userinfo
username parts = before (λ c. c == b':') (userinfo parts.netloc)

unfoldable pub password : SplitResult → Text
unfolding from userinfo
password parts = drop 1 (from (λ c. c == b':') (userinfo parts.netloc))

-- `urlunsplit(parts)` of parts with a host.
unfoldable pub urlunsplit : SplitResult → Text
unfolding is_empty starts_with
urlunsplit parts =
    let path = parts.path in
    let rooted = (if is_empty path || starts_with (b'/' ∷ []) path then path else b'/' ∷ path) in
    let hier = (if is_empty parts.netloc then rooted else b'/' ∷ b'/' ∷ (parts.netloc ++ rooted)) in
    let whole = (if is_empty parts.scheme then hier else parts.scheme ++ b':' ∷ hier) in
    let queried = (if is_empty parts.query then whole else whole ++ b'?' ∷ parts.query) in
    if is_empty parts.fragment then queried else queried ++ b'#' ∷ parts.fragment

-- `urlunparse(parts)` of parts with a host.
unfoldable pub urlunparse : SplitResult → Text
unfolding without_empty_params urlunsplit
urlunparse parts = urlunsplit (record parts { path = without_empty_params parts.path })

hostname_test :
    url_hostname (text "HTTPS://user@evil.Example.com:8080/a?b#c") ≡ text "evil.example.com"
unfolding url_hostname text
hostname_test = refl
