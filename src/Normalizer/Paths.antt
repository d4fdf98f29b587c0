-- ===== src/Normalizer/Paths.antt =====
-- app/services/normalizer/normalize.py: percent encoding, slashes and dot segments.
use lin_clean_be_fastapi.Prelude.{
  ℕ, zero, suc, ◌+◌, ◌-◌, ◌*◌, Bool, ◌&&◌, ◌||◌, not, Option, none, some, List, [], ◌∷◌, ◌++◌,
  false, reverse, Text, text, is_empty, text_eq, starts_with, leb, ◌==◌, if◌then◌else◌,
}
use lin_clean_be_fastapi.Prelude.Split.{split_on, join}
use lin_clean_be_fastapi.Urllib.{is_alpha}

-- Percent encoding.
unfoldable pub is_hex : ℕ → Bool
is_hex c = (leb b'0' c && leb c b'9') || (leb b'A' c && leb c b'F') || (leb b'a' c && leb c b'f')

unfoldable pub hex_value : ℕ → ℕ
hex_value c =
    if leb c b'9' then c - b'0' else if leb c b'F' then (c - b'A') + 10 else (c - b'a') + 10

unfoldable pub hex_upper : ℕ → ℕ
hex_upper c = if leb b'a' c then c - 32 else c

unfoldable pub is_unreserved : ℕ → Bool
unfolding is_alpha
is_unreserved c =
    is_alpha c || (leb b'0' c && leb c b'9') || c == b'-' || c == b'.' || c == b'_' || c == b'~'

-- What an encoded character is replaced by.
unfoldable pub replace_pct : ℕ → ℕ → Text
unfolding is_unreserved hex_value hex_upper
replace_pct d e =
    let char = hex_value d * 16 + hex_value e in
    if is_unreserved char then char ∷ [] else b'%' ∷ hex_upper d ∷ hex_upper e ∷ []

-- The match at the beginning of a text.
unfoldable pub match_pct : Text → Option Text
unfolding is_hex replace_pct
match_pct (c ∷ d ∷ e ∷ s) =
    if c == b'%' && is_hex d && is_hex e then some (replace_pct d e) else none
match_pct _ = none

-- The number is that of the characters that the last match has still to take.
unfoldable pub substitute_pct : ℕ → Text → Text
unfolding match_pct
substitute_pct skip [] = []
substitute_pct (suc skip) (c ∷ s) = substitute_pct skip s
substitute_pct zero (c ∷ s) =
    let found = match_pct (c ∷ s) in
    elim found [ none ↦ c ∷ [] | some out ↦ out ]
    ++ substitute_pct (elim found [ none ↦ 0 | some out ↦ 2 ]) s

unfoldable pub normalize_pct_encoding : Text → Text
unfolding substitute_pct
normalize_pct_encoding s = substitute_pct 0 s

-- `re.sub(r"/{2,}", "/", s)`; the flag says whether a slash stands in front.
unfoldable pub collapse_slashes : Bool → Text → Text
collapse_slashes slash [] = []
collapse_slashes slash (c ∷ s) =
    let rest = collapse_slashes (c == b'/') s in if slash && c == b'/' then rest else c ∷ rest

-- One segment, onto the resolved ones from the last to the first.
unfoldable pub resolve_segment : List Text → Text → List Text
unfolding text text_eq is_empty
resolve_segment resolved segment =
    if text_eq segment (text ".")
    then resolved
    else if text_eq segment (text "..")
    then elim resolved [ [] ↦ [] | (last ∷ rest) ↦ if is_empty last then last ∷ rest else rest ]
    else segment ∷ resolved

unfoldable pub resolve_segments : List Text → List Text → List Text
unfolding resolve_segment
resolve_segments resolved [] = reverse resolved
resolve_segments resolved (segment ∷ segments) =
    resolve_segments (resolve_segment resolved segment) segments

-- `resolved.insert(0, "")` for a path from the root.
unfoldable pub root_segments : Bool → List Text → List Text
unfolding is_empty
root_segments rooted [] = if rooted then [] ∷ [] else []
root_segments rooted (segment ∷ segments) =
    if rooted && not (is_empty segment) then [] ∷ segment ∷ segments else segment ∷ segments

-- The segments that are left of a path.
unfoldable pub resolved_segments : Text → List Text
unfolding root_segments starts_with split_on resolve_segments
resolved_segments path =
    root_segments (starts_with (b'/' ∷ []) path) (resolve_segments [] (split_on b'/' path))

unfoldable pub resolve_dot_segments : Text → Text
unfolding join resolved_segments
resolve_dot_segments path = join b'/' (resolved_segments path)

-- `s or "/"`
unfoldable pub or_slash : Text → Text
or_slash [] = b'/' ∷ []
or_slash (c ∷ s) = c ∷ s

unfoldable pub normalize_path : Text → Text
unfolding or_slash normalize_pct_encoding collapse_slashes resolve_dot_segments
normalize_path raw_path =
    or_slash
      (resolve_dot_segments (collapse_slashes false (normalize_pct_encoding (or_slash raw_path))))
