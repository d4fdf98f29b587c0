-- ===== src/ThreatDb/Urlhaus.antt =====
-- app/services/threat_db/urlhaus.py and match_keys.py: the lookup in the local table. The database
-- session is a parameter, two queries that answer or raise SQLAlchemyError (`none`), and so are the
-- hosts with several tenants.
use lin_clean_be_fastapi.Prelude.{
  ℕ, Bool, true, false, ◌&&◌, ◌||◌, not, Option, none, some, List, [], ◌∷◌, ◌++◌, reverse, Text,
  text, is_empty, text_eq, mem_text, any, length, take, ltb, ◌==◌, if◌then◌else◌,
}
use lin_clean_be_fastapi.Prelude.Split.{split_on, join}
use lin_clean_be_fastapi.Schemas.Results.{MatchType, host, host_path, UrlhausResult}
use lin_clean_be_fastapi.Urllib.{
  SplitResult, urlsplit, urlunsplit, parsed_path, hostname, lower, strip_while, strip,
}
use lin_clean_be_fastapi.Tld.{nonempty}

-- The columns of a row that the lookup reads.
pub record Entry : Type 0 where
  pub url : Text
  pub match_key : Text
  pub threat : Option Text
  pub tags : Option Text
  pub urlhaus_link : Option Text

pub record Session : Type 0 where
  -- `select(URLhausEntry).where(URLhausEntry.url == candidate)`, at most one row
  pub by_url : Text → Option (Option Entry)
  -- `select(URLhausEntry).where(URLhausEntry.match_key.in_(keys))`
  pub by_keys : List Text → Option (List Entry)

-- `[t.strip() for t in parts if t.strip()]`
unfoldable pub stripped : List Text → List Text
stripped [] = []
stripped (t ∷ ts) = let rest = stripped ts in if is_empty (strip t) then rest else strip t ∷ rest

unfoldable pub split_tags : Option Text → List Text
split_tags none = []
split_tags (some tags) = if is_empty tags then [] else stripped (split_on b',' tags)

unfoldable pub to_result : Entry → MatchType → Text → UrlhausResult
to_result entry match_type matched_key = record {
  checked = true;
  is_threat = true;
  match_type = some match_type;
  matched_key = some matched_key;
  threat = entry.threat;
  tags = split_tags entry.tags;
  urlhaus_link = entry.urlhaus_link;
  error = none;
}

abbrev pub nothing_found : Bool → Option Text → UrlhausResult
nothing_found checked error = record {
  checked = checked;
  is_threat = false;
  match_type = none;
  matched_key = none;
  threat = none;
  tags = [];
  urlhaus_link = none;
  error = error;
}

-- The local function `add`.
unfoldable pub add_variant : List Text → Text → List Text
add_variant variants candidate =
    if not (is_empty candidate) && not (mem_text candidate variants)
    then variants ++ candidate ∷ []
    else variants

abbrev is_slash : ℕ → Bool
is_slash c = c == b'/'

-- `path.endswith("/")`, by the last character
unfoldable pub ends_with_slash : Text → Bool
ends_with_slash path = elim (reverse path) [ [] ↦ false | c ∷ rest ↦ is_slash c ]

unfoldable pub path_variants : Text → List Text
path_variants path =
    if is_empty path
    then path ∷ (b'/' ∷ []) ∷ []
    else if text_eq path (b'/' ∷ [])
    then path ∷ [] ∷ []
    else if ends_with_slash path
    then path ∷ reverse (strip_while is_slash (reverse path)) ∷ []
    else path ∷ (path ++ b'/' ∷ []) ∷ []

unfoldable pub scheme_variants : Text → List Text
scheme_variants scheme =
    if text_eq scheme (text "https")
    then scheme ∷ text "http" ∷ []
    else if text_eq scheme (text "http")
    then scheme ∷ text "https" ∷ []
    else scheme ∷ []

-- The two loops over the schemes and the paths.
unfoldable pub add_paths : SplitResult → Text → List Text → List Text → List Text
add_paths parts scheme variants [] = variants
add_paths parts scheme variants (path ∷ paths) =
    add_paths parts scheme
      (add_variant variants (urlunsplit (record parts { scheme = scheme; path = path }))) paths

unfoldable pub add_schemes : SplitResult → List Text → List Text → List Text
add_schemes parts variants [] = variants
add_schemes parts variants (scheme ∷ schemes) =
    add_schemes parts (add_paths parts scheme variants (path_variants parts.path)) schemes

unfoldable pub url_variants : Text → List Text
url_variants target = elim (urlsplit target) [
  | none ↦ add_variant [] target
  | some parts ↦
      if is_empty parts.scheme || is_empty parts.netloc
      then add_variant [] target
      else add_schemes parts (add_variant [] target) (scheme_variants parts.scheme)
]

-- `derive_keys` of a parsed URL.
unfoldable pub keys_of : (Text → Option ℕ) → SplitResult → List Text
keys_of tenants parts =
    let name = lower (hostname parts) in
    let segments = nonempty (split_on b'/' (parsed_path parts)) in
    if is_empty name then [] else elim (tenants name) [
      | none ↦ name ∷ []
      | some required ↦
          if required == 0
          then name ∷ []
          else if ltb (length segments) required
          then []
          else (name ++ b'/' ∷ join b'/' (take required segments)) ∷ []
    ]

-- `none` is a ValueError.
unfoldable pub derive_keys : (Text → Option ℕ) → Text → Option (List Text)
derive_keys tenants target = elim (urlsplit target) [
  | none ↦ none
  | some parts ↦ some (keys_of tenants parts)
]

-- The loop over the variants; the outer `none` is an error of the database.
unfoldable pub first_row : Session → List Text → Option (Option Entry)
first_row session [] = some none
first_row session (candidate ∷ candidates) = elim (session.by_url candidate) [
  | none ↦ none
  | some none ↦ first_row session candidates
  | some (some row) ↦ some (some row)
]

-- `by_key.get(key)`: the last row with the key.
unfoldable pub by_key : Text → List Entry → Option Entry
by_key key [] = none
by_key key (row ∷ rows) = elim (by_key key rows) [
  | some later ↦ some later
  | none ↦ if text_eq row.match_key key then some row else none
]

abbrev pub key_type : Text → MatchType
key_type key = if any is_slash key then host_path else host

-- The loop over the keys.
unfoldable pub first_hit : List Entry → List Text → UrlhausResult
first_hit rows [] = nothing_found true none
first_hit rows (key ∷ keys) = elim (by_key key rows) [
  | some hit ↦ to_result hit (key_type key) key
  | none ↦ first_hit rows keys
]

abbrev pub db_error : UrlhausResult
db_error = nothing_found false (some (text "db_error"))

-- The second query.
unfoldable pub check_keys : Session → Option (List Text) → Option UrlhausResult
check_keys session none = none
check_keys session (some []) = some (nothing_found true none)
check_keys session (some (key ∷ keys)) = elim (session.by_keys (key ∷ keys)) [
  | none ↦ some db_error
  | some rows ↦ some (first_hit rows (key ∷ keys))
]

-- `none` is a ValueError, which `derive_keys` raises.
unfoldable pub check_urlhaus : (Text → Option ℕ) → Session → Text → Option UrlhausResult
check_urlhaus tenants session target = elim (first_row session (url_variants target)) [
  | none ↦ some db_error
  | some (some row) ↦ some (to_result row MatchType.url row.url)
  | some none ↦ check_keys session (derive_keys tenants target)
]
