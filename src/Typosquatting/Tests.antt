-- ===== src/Typosquatting/Tests.antt =====
-- Concrete runs, and instances of the theorems.
use lin_clean_be_fastapi.Prelude.{
  ◌≡◌, ◌≤◌, refl, ◌&&◌, not, some, none, List, [], ◌∷◌, Text, text, is_empty, mem_text, any,
  if◌then◌else◌,
}
use lin_clean_be_fastapi.Schemas.Signals.{typo_domain}
use lin_clean_be_fastapi.Tld.{extract_url_parts, top_domain_under_public_suffix}
use lin_clean_be_fastapi.Typosquatting.Distance.{
  levenshtein, lev_rows, lev_row, first_row, last_cell,
}
use lin_clean_be_fastapi.Typosquatting.Edits.{Edits, keep, done, insert, levenshtein-IsLeast}
use lin_clean_be_fastapi.Typosquatting.Lookalike.{is_lookalike, check_typosquatting-any}
use lin_clean_be_fastapi.Typosquatting.{check_typosquatting, mem_brand}
use lin_clean_be_fastapi.Patterns.Tables.{hosting_platforms}

levenshtein_test : levenshtein (text "paypa1s") (text "paypal") ≡ 2
unfolding levenshtein lev_rows lev_row first_row last_cell text
levenshtein_test = refl

-- `ab` against `abc`.
levenshtein-IsLeast_example :
    Edits (levenshtein (1 ∷ 2 ∷ []) (1 ∷ 2 ∷ 3 ∷ [])) (1 ∷ 2 ∷ []) (1 ∷ 2 ∷ 3 ∷ [])
    × (levenshtein (1 ∷ 2 ∷ []) (1 ∷ 2 ∷ 3 ∷ []) ≤ 1)
levenshtein-IsLeast_example =
    levenshtein-IsLeast (1 ∷ 2 ∷ []) (1 ∷ 2 ∷ 3 ∷ []) 1 (keep refl (keep refl (insert done)))

abbrev brands : List (Text × Text)
brands = (text "paypal", text "com") ∷ (text "naver", text "com") ∷ []

abbrev lookalike : Text
lookalike = text "https://paypa1.com/login"

check_typosquatting-any_example : check_typosquatting brands lookalike ≡ (
    if not (is_empty (top_domain_under_public_suffix (extract_url_parts lookalike)))
      && (not (
            mem_text
              (top_domain_under_public_suffix (extract_url_parts lookalike))
              hosting_platforms)
          && (not (
                mem_brand
                  ((extract_url_parts lookalike).domain, (extract_url_parts lookalike).suffix)
                  brands)
              && any
                  (is_lookalike
                    (extract_url_parts lookalike).domain
                    (extract_url_parts lookalike).suffix)
                  brands))
    then some typo_domain
    else none)
check_typosquatting-any_example = check_typosquatting-any brands lookalike
