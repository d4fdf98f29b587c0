-- ===== src/Content/Brands.antt =====
-- app/services/content_analyzer/signals.py: the brand labels, and the search for them in a text. The
-- lines of `brands.txt` are an argument. The labels are a frozenset, whose order is not fixed: it is
-- that of a list here, over which the theorems range. `is_word` says which characters `\w` matches.
use lin_clean_be_fastapi.Prelude.{
  ℕ, zero, suc, ◌-◌, Bool, false, ◌&&◌, ◌||◌, not, Option, none, some, List, [], ◌∷◌, ◌++◌, Text,
  text, is_empty, mem_text, starts_with, contains, length, drop, all, leb, ltb, if◌then◌else◌,
}
use lin_clean_be_fastapi.Urllib.{strip, lower}
use lin_clean_be_fastapi.Tld.{extract_url_parts}

unfoldable pub min_brand_len : ℕ
min_brand_len = 4

-- What one line adds to the labels.
unfoldable pub read_label : List Text → Text → List Text
unfolding text starts_with is_empty mem_text min_brand_len
read_label labels line =
    let stripped = strip line in
    let domain = (extract_url_parts (text "https://" ++ stripped)).domain in
    if is_empty stripped || starts_with (text "#") stripped
    then labels
    else if not (is_empty domain)
        && leb min_brand_len (length domain)
        && not (mem_text (lower domain) labels)
    then labels ++ lower domain ∷ []
    else labels

unfoldable pub read_lines : List Text → List Text → List Text
read_lines labels [] = labels
read_lines labels (line ∷ lines) = read_lines (read_label labels line) lines

-- `_read_brand_labels`, of no lines where the file is missing; `none` is a RuntimeError.
unfoldable pub read_brand_labels : Option (List Text) → Option (List Text)
read_brand_labels none = none
read_brand_labels (some lines) = elim (read_lines [] lines) [ [] ↦ none | (l ∷ ls) ↦ some (l ∷ ls) ]

-- `label.isascii()`
unfoldable pub is_ascii : Text → Bool
is_ascii label = all (λ c. ltb c 128) label

module _ (is_word : ℕ → Bool) where
  -- `\b` between a character of which `left` says whether it is of a word, and a text
  unfoldable pub is_boundary : Bool → Text → Bool
  is_boundary left [] = left
  is_boundary left (c ∷ s) = if left then not (is_word c) else is_word c

  -- Is the last character of `label` one of a word?
  unfoldable pub ends_in_word : Bool → Text → Bool
  ends_in_word left [] = left
  ends_in_word left (c ∷ label) = ends_in_word (is_word c) label

  -- The first of the alternatives `\b(l|...)\b` that matches at the beginning of the text.
  unfoldable pub match_label : Bool → List Text → Text → Option Text
  unfolding starts_with is_boundary ends_in_word
  match_label left [] s = none
  match_label left (label ∷ labels) s =
      let rest = match_label left labels s in
      if is_boundary left s
        && starts_with label s
        && is_boundary (ends_in_word left label) (drop (length label) s)
      then some label
      else rest

  unfoldable pub emit : Option Text → List Text → List Text
  emit none found = found
  emit (some label) found = label ∷ found

  -- How many characters behind the first one a match takes.
  unfoldable pub skipped : Option Text → ℕ
  skipped none = 0
  skipped (some label) = length label - 1

  -- `pattern.findall(s)`, with the number of characters that the last match has still to take
  unfoldable pub find_all : List Text → ℕ → Bool → Text → List Text
  unfolding match_label emit skipped
  find_all labels skip left [] = []
  find_all labels (suc skip) left (c ∷ s) = find_all labels skip (is_word c) s
  find_all labels zero left (c ∷ s) =
      let found = match_label left labels (c ∷ s) in
      emit found (find_all labels (skipped found) (is_word c) s)

  -- The labels that are not ASCII, which are looked for anywhere.
  unfoldable pub find_non_ascii : List Text → Text → List Text
  unfolding is_ascii contains
  find_non_ascii [] s = []
  find_non_ascii (label ∷ labels) s =
      let rest = find_non_ascii labels s in
      if not (is_ascii label) && contains label s then label ∷ rest else rest

  unfoldable pub ascii_labels : List Text → List Text
  unfolding is_ascii
  ascii_labels [] = []
  ascii_labels (label ∷ labels) =
      let rest = ascii_labels labels in if is_ascii label then label ∷ rest else rest

  -- `_brands_in_text`: the set that it returns, as a list in which labels may repeat
  unfoldable pub brands_in_text : List Text → Option Text → List Text
  unfolding is_empty ascii_labels find_all find_non_ascii
  brands_in_text labels none = []
  brands_in_text labels (some s) =
      if is_empty s
      then []
      else find_all (ascii_labels labels) 0 false (lower s) ++ find_non_ascii labels (lower s)
