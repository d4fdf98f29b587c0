-- ===== src/Typosquatting/Lookalike.antt =====
-- Which domains `check_typosquatting` reports, without reference to its loop and its shortcuts.
use lin_clean_be_fastapi.Prelude.{
  ◌≤◌, Bool, false, ◌&&◌, ◌||◌, not, ◌≡◌, none, some, List, [], ◌∷◌, Text, is_empty, text_eq,
  mem_text, any, length, if◌then◌else◌, arith,
}
use lin_clean_be_fastapi.Schemas.Signals.{typo_domain}
use lin_clean_be_fastapi.Tld.{extract_url_parts, top_domain_under_public_suffix}
use lin_clean_be_fastapi.Typosquatting.Distance.{levenshtein}
use lin_clean_be_fastapi.Typosquatting.Edits.{levenshtein-Edits, Edits-length}
use lin_clean_be_fastapi.Patterns.Tables.{hosting_platforms}
use lin_clean_be_fastapi.Typosquatting.{
  suspicious_suffixes, mem_brand, distance_of, is_close, round, scan, check_parts,
  check_typosquatting,
}

-- The domain is close to the brand, in the brand's suffix or in a suspicious one.
abbrev pub is_lookalike : Text → Text → Text × Text → Bool
is_lookalike domain suffix (brand_domain, brand_suffix) =
    (text_eq suffix brand_suffix || mem_text suffix suspicious_suffixes)
    && is_close domain suffix brand_domain brand_suffix

distance_of-levenshtein : (a b : Text) → distance_of (length a) (length b) ≤ levenshtein a b
distance_of-levenshtein a b =
    let (l, r) = Edits-length _ a b (levenshtein-Edits a b) in omega (arith, l, r)

-- The shortcut by the lengths skips no lookalike.
round-is_lookalike :
    (domain suffix : Text) (is_typo : Bool) (brand : Text × Text)
    → round domain suffix is_typo brand ≡ (is_typo || is_lookalike domain suffix brand)
unfolding round is_close
round-is_lookalike domain suffix is_typo (brand_domain, brand_suffix) =
    ground (arith, distance_of-levenshtein domain brand_domain)

scan-any :
    (domain suffix : Text) (is_typo : Bool) (brands : List (Text × Text))
    → scan domain suffix is_typo brands ≡ (
        if not (mem_brand (domain, suffix) brands)
          && (is_typo || any (is_lookalike domain suffix) brands)
        then some typo_domain
        else none)
unfolding scan mem_brand
scan-any domain suffix is_typo [] = ground arith
scan-any domain suffix is_typo (brand ∷ brands) = ground (
  arith,
  scan-any domain suffix (round domain suffix is_typo brand) brands,
  round-is_lookalike domain suffix is_typo brand,
)

-- The signal is given exactly when the URL has a registered domain that is no hosting platform, the
-- domain is not itself one of the brands, and it looks like one of them, with no regard to the order
-- of the brands or to the difference of the lengths.
pub check_typosquatting-any :
    (brands : List (Text × Text)) (url : Text)
    → check_typosquatting brands url ≡ (
        if not (is_empty (top_domain_under_public_suffix (extract_url_parts url)))
          && (not (
                mem_text (top_domain_under_public_suffix (extract_url_parts url)) hosting_platforms)
              && (not (
                    mem_brand
                      ((extract_url_parts url).domain, (extract_url_parts url).suffix)
                      brands)
                  && any
                      (is_lookalike (extract_url_parts url).domain (extract_url_parts url).suffix)
                      brands))
        then some typo_domain
        else none)
unfolding check_typosquatting check_parts
check_typosquatting-any brands url =
    ground
      (arith, scan-any (extract_url_parts url).domain (extract_url_parts url).suffix false brands)
