-- ===== src/Tld.antt =====
-- app/core/tld.py: the registered domain of a URL by a table of two-label suffixes.
pub mod Parts
use lin_clean_be_fastapi.Prelude.{
  ℕ, zero, suc, ◌+◌, ◌-◌, ◌≡◌, refl, Bool, ◌&&◌, ◌||◌, List, [], ◌∷◌, ◌++◌, map, Text, text,
  is_empty, contains, mem_text, starts_with, drop, take, length, min, reverse, ◌==◌, if◌then◌else◌,
}
use lin_clean_be_fastapi.Prelude.Split.{split_on, join}
use lin_clean_be_fastapi.Urllib.{url_hostname, lower, strip_while}

-- The table of suffixes with more than one label.
unfoldable pub multi_label_suffixes : List Text
unfolding text
multi_label_suffixes = map text (
    "ac.kr" ∷ "co.in" ∷ "co.jp" ∷ "co.kr" ∷ "co.uk" ∷ "com.au" ∷ "com.br" ∷ "com.cn" ∷ "com.hk"
    ∷ "com.mx" ∷ "com.my" ∷ "com.sg" ∷ "com.tr" ∷ "com.tw" ∷ "edu.au" ∷ "go.kr" ∷ "gov.au"
    ∷ "gov.uk" ∷ "ne.kr" ∷ "net.cn" ∷ "or.kr" ∷ "org.cn" ∷ "re.kr" ∷ "amazonaws.com"
    ∷ "azurewebsites.net" ∷ "backblazeb2.com" ∷ "duckdns.org" ∷ "firebaseapp.com" ∷ "fly.dev"
    ∷ "free.nf" ∷ "github.io" ∷ "gitlab.io" ∷ "glitch.me" ∷ "godaddysites.com" ∷ "herokuapp.com"
    ∷ "my.id" ∷ "netlify.app" ∷ "pages.dev" ∷ "railway.app" ∷ "render.com" ∷ "replit.app"
    ∷ "surge.sh" ∷ "vercel.app" ∷ "wasmer.app" ∷ "web.app" ∷ "workers.dev" ∷ [])

pub record ExtractResult : Type 0 where
  pub subdomain : Text
  pub domain : Text
  pub suffix : Text

-- `domain.suffix`, or the empty text where one of them is missing.
unfoldable pub top_domain_under_public_suffix : ExtractResult → Text
unfolding is_empty
top_domain_under_public_suffix ext =
    if is_empty ext.domain || is_empty ext.suffix then [] else ext.domain ++ b'.' ∷ ext.suffix

abbrev pub is_dot : ℕ → Bool
is_dot c = c == b'.'

-- `s.strip(".")`
unfoldable pub strip_dots : Text → Text
unfolding strip_while
strip_dots s = reverse (strip_while is_dot (reverse (strip_while is_dot s)))

-- `_hostname`: the host in lower case, without dots at its ends.
unfoldable pub host_of : Text → Text
unfolding text contains url_hostname lower strip_dots
host_of url =
    lower (
      strip_dots (url_hostname (if contains (text "://") url then url else text "https://" ++ url)))

-- `[label for label in host.split(".") if label]`
unfoldable pub nonempty : List Text → List Text
unfolding is_empty
nonempty [] = []
nonempty (s ∷ ss) = let rest = nonempty ss in if is_empty s then rest else s ∷ rest

-- `labels[-size:]`, for a size of at most the number of labels.
unfoldable pub last_labels : ℕ → List Text → List Text
last_labels size labels = drop (length labels - size) labels

-- The loop over the sizes, from `size` down to 2: the number of labels of the suffix.
unfoldable pub suffix_length : ℕ → List Text → ℕ
unfolding mem_text last_labels join multi_label_suffixes
suffix_length zero labels = 1
suffix_length (suc zero) labels = 1
suffix_length (suc (suc size)) labels =
    let smaller = suffix_length (suc size) labels in
    if mem_text (join b'.' (last_labels (suc (suc size)) labels)) multi_label_suffixes
    then suc (suc size)
    else smaller

-- What precedes the suffix: no label, or a domain behind the labels of the subdomain.
unfoldable pub split_domain : List Text → Text → ExtractResult
unfolding join last_labels
split_domain [] suffix = record { subdomain = []; domain = []; suffix = suffix }
split_domain (label ∷ labels) suffix = record {
  subdomain = join b'.' (take (length labels) (label ∷ labels));
  domain = join b'.' (last_labels 1 (label ∷ labels));
  suffix = suffix;
}

unfoldable pub extract_labels : List Text → ExtractResult
unfolding suffix_length split_domain join last_labels
extract_labels [] = record { subdomain = []; domain = []; suffix = [] }
extract_labels (label ∷ []) = record { subdomain = []; domain = label; suffix = [] }
extract_labels labels =
    let suffix_len = suffix_length (min 3 (length labels - 1)) labels in
    split_domain (take (length labels - suffix_len) labels)
      (join b'.' (last_labels suffix_len labels))

unfoldable pub extract_url_parts : Text → ExtractResult
unfolding host_of nonempty split_on extract_labels
extract_url_parts url = extract_labels (nonempty (split_on b'.' (host_of url)))

-- `ext.top_domain_under_public_suffix or (urlparse(url).hostname or "")`
unfoldable pub registered_domain : Text → Text
unfolding is_empty extract_url_parts top_domain_under_public_suffix url_hostname
registered_domain url =
    let top = top_domain_under_public_suffix (extract_url_parts url) in
    if is_empty top then url_hostname url else top
