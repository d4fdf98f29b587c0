-- ===== src/Typosquatting.antt =====
-- app/services/domain_heuristic/typosquatting.py: domains that look like a brand's. The lines of
-- `brands.txt` are an argument. Logging is left out.
pub mod Distance
pub mod Edits
pub mod Lookalike
mod Tests
use lin_clean_be_fastapi.Prelude.{
  ℕ, zero, suc, ◌+◌, ◌-◌, min, Bool, true, false, ◌&&◌, ◌||◌, not, Option, none, some, List, [],
  ◌∷◌, ◌++◌, map, Text, text, is_empty, text_eq, starts_with, mem_text, any, length, reverse, leb,
  ◌==◌, if◌then◌else◌,
}
use lin_clean_be_fastapi.Schemas.Signals.{DomainHeuristicSignal, typo_domain}
use lin_clean_be_fastapi.Urllib.{strip}
use lin_clean_be_fastapi.Tld.{ExtractResult, extract_url_parts, top_domain_under_public_suffix}
use lin_clean_be_fastapi.Patterns.Tables.{hosting_platforms}
use lin_clean_be_fastapi.Typosquatting.Distance.{levenshtein}

abbrev pub brand_eq : Text × Text → Text × Text → Bool
brand_eq (domain, suffix) (domain', suffix') = text_eq domain domain' && text_eq suffix suffix'

unfoldable pub mem_brand : Text × Text → List (Text × Text) → Bool
mem_brand key seen = any (brand_eq key) seen

-- What one line adds to the brands that were read before it.
unfoldable pub load_line : List (Text × Text) → Text → List (Text × Text)
load_line brands line =
    let stripped = strip line in
    let ext = extract_url_parts (text "https://" ++ stripped) in
    if is_empty stripped || starts_with (text "#") stripped
    then brands
    else if not (is_empty ext.domain)
        && not (is_empty ext.suffix)
        && not (mem_brand (ext.domain, ext.suffix) brands)
    then brands ++ (ext.domain, ext.suffix) ∷ []
    else brands

-- The loop of `_load_brands`; the set of seen keys holds the brands themselves.
unfoldable pub load_brands : List (Text × Text) → List Text → List (Text × Text)
load_brands brands [] = brands
load_brands brands (line ∷ lines) = load_brands (load_line brands line) lines

unfoldable pub min_fuzzy_len : ℕ
min_fuzzy_len = 5

unfoldable pub suspicious_suffixes : List Text
unfolding text
suspicious_suffixes = map text (
    "bid" ∷ "cf" ∷ "click" ∷ "date" ∷ "faith" ∷ "ga" ∷ "gq" ∷ "link" ∷ "loan" ∷ "men" ∷ "ml" ∷ "mov"
    ∷ "party" ∷ "pw" ∷ "racing" ∷ "review" ∷ "science" ∷ "stream" ∷ "surf" ∷ "tk" ∷ "top" ∷ "trade"
    ∷ "win" ∷ "xyz" ∷ "zip" ∷ [])

-- `abs(m - n)`
abbrev pub distance_of : ℕ → ℕ → ℕ
distance_of m n = (m - n) + (n - m)

-- The two tests of the distance.
unfoldable pub is_close : Text → Text → Text → Text → Bool
is_close target_domain target_suffix brand_domain brand_suffix =
    let distance = levenshtein target_domain brand_domain in
    (distance == 0 && not (text_eq target_suffix brand_suffix))
    || (leb 1 distance
        && leb distance 2
        && leb min_fuzzy_len (min (length target_domain) (length brand_domain)))

-- One round after the test for an exact match: the new `is_typo`.
unfoldable pub round : Text → Text → Bool → Text × Text → Bool
round target_domain target_suffix is_typo (brand_domain, brand_suffix) =
    if not (text_eq target_suffix brand_suffix) && not (mem_text target_suffix suspicious_suffixes)
    then is_typo
    else if leb 3 (distance_of (length target_domain) (length brand_domain))
    then is_typo
    else if is_close target_domain target_suffix brand_domain brand_suffix
    then true
    else is_typo

-- The loop over the brands.
unfoldable pub scan : Text → Text → Bool → List (Text × Text) → Option DomainHeuristicSignal
scan target_domain target_suffix is_typo [] = if is_typo then some typo_domain else none
scan target_domain target_suffix is_typo (brand ∷ brands) =
    let rest =
      scan target_domain target_suffix (round target_domain target_suffix is_typo brand) brands in
    if brand_eq (target_domain, target_suffix) brand then none else rest

unfoldable pub check_parts : List (Text × Text) → ExtractResult → Option DomainHeuristicSignal
check_parts brands ext =
    if is_empty (top_domain_under_public_suffix ext)
    then none
    else if mem_text (top_domain_under_public_suffix ext) hosting_platforms
    then none
    else scan ext.domain ext.suffix false brands

unfoldable pub check_typosquatting : List (Text × Text) → Text → Option DomainHeuristicSignal
check_typosquatting brands url = check_parts brands (extract_url_parts url)
