-- ===== src/ThreatDb/Merge.antt =====
-- app/services/threat_db/check.py. The two clients are parameters: what each candidate URL gives, a
-- result, an exception, or a cancellation.
use lin_clean_be_fastapi.Prelude.{
  ℕ, ◌+◌, Bool, true, false, ◌&&◌, ◌||◌, not, Option, none, some, List, [], ◌∷◌, ◌++◌, map, Text,
  text, is_empty, text_eq, mem_text, truthy, or_text, any, if◌then◌else◌,
}
use lin_clean_be_fastapi.Schemas.Results.{GsbMatch, GsbResult, UrlhausResult, ThreatDbResult}

-- What `asyncio.gather(..., return_exceptions=True)` gives for one awaitable.
pub data Gathered (A : Type 0) : Type 0 where
  result : A → Gathered A
  raised : Gathered A
  cancelled : Gathered A

unfoldable pub is_cancelled : {A : Type 0} → Gathered A → Bool
is_cancelled (result a) = false
is_cancelled raised = false
is_cancelled cancelled = true

-- `if candidate and candidate not in seen: seen.append(candidate)`
unfoldable pub add_new : List Text → Text → List Text
add_new seen t = if is_empty t || mem_text t seen then seen else seen ++ t ∷ []

-- The loop of `_merge_threat_types` over the matches.
unfoldable pub add_match_types : List Text → List GsbMatch → List Text
add_match_types seen [] = seen
add_match_types seen (m ∷ matches) = add_match_types (add_new seen m.threat_type) matches

unfoldable pub merge_threat_types : GsbResult → UrlhausResult → List Text
merge_threat_types gsb urlhaus =
    add_new (add_match_types [] gsb.matches) (or_text urlhaus.threat [])

unfoldable pub candidate_urls : Text → Option Text → List Text
candidate_urls final_url none = final_url ∷ []
candidate_urls final_url (some original_url) =
    if not (is_empty original_url) && not (text_eq original_url final_url)
    then final_url ∷ original_url ∷ []
    else final_url ∷ []

-- The first error that is set and not empty.
unfoldable pub first_error : List (Option Text) → Option Text
first_error [] = none
first_error (error ∷ errors) = if truthy error then error else first_error errors

unfoldable pub is_nil {ℓ} : {A : Type ℓ} → List A → Bool
is_nil [] = true
is_nil (x ∷ xs) = false

unfoldable pub all_matches : List GsbResult → List GsbMatch
all_matches [] = []
all_matches (r ∷ rs) = r.matches ++ all_matches rs

unfoldable pub merge_gsb : List GsbResult → GsbResult
merge_gsb results =
    let checked = any (λ (r : GsbResult). r.checked) results in
    record {
      checked = checked;
      is_threat = not (is_nil (all_matches results));
      matches = all_matches results;
      error = if checked then none else first_error (map (λ (r : GsbResult). r.error) results);
    }

unfoldable pub no_match : Bool → Option Text → UrlhausResult
no_match checked error = record {
  checked = checked;
  is_threat = false;
  match_type = none;
  matched_key = none;
  threat = none;
  tags = [];
  urlhaus_link = none;
  error = error;
}

-- The loop that returns the first match.
unfoldable pub first_threat : List UrlhausResult → Option UrlhausResult
first_threat [] = none
first_threat (r ∷ rs) = if r.is_threat then some r else first_threat rs

unfoldable pub merge_urlhaus : List UrlhausResult → UrlhausResult
merge_urlhaus results = elim (first_threat results) [
  | some r ↦ r
  | none ↦
      let checked = any (λ (r : UrlhausResult). r.checked) results in
      no_match checked
        (if checked then none else first_error (map (λ (r : UrlhausResult). r.error) results))
]

unfoldable pub unexpected : Text
unexpected = text "unexpected"

-- An exception of a client becomes a result that was not checked.
unfoldable pub gsb_or_unexpected : Gathered GsbResult → GsbResult
gsb_or_unexpected (result r) = r
gsb_or_unexpected _ = record {
  checked = false;
  is_threat = false;
  matches = [];
  error = some unexpected;
}

unfoldable pub urlhaus_or_unexpected : Gathered UrlhausResult → UrlhausResult
urlhaus_or_unexpected (result r) = r
urlhaus_or_unexpected _ = no_match false (some unexpected)

abbrev pub count : Bool → ℕ
count b = if b then 1 else 0

module _ (check_gsb : Text → Gathered GsbResult)
    (check_urlhaus : Text → Gathered UrlhausResult) where
  unfoldable pub gsb_of : List Text → GsbResult
  gsb_of candidates = merge_gsb (map (λ u. gsb_or_unexpected (check_gsb u)) candidates)

  unfoldable pub urlhaus_of : List Text → UrlhausResult
  urlhaus_of candidates =
      merge_urlhaus (map (λ u. urlhaus_or_unexpected (check_urlhaus u)) candidates)

  -- `none`: a CancelledError is raised again.
  unfoldable pub check_threat_db : Text → Option Text → Option ThreatDbResult
  check_threat_db final_url original_url =
      let candidates = candidate_urls final_url original_url in
      if any (λ u. is_cancelled (check_gsb u)) candidates
        || any (λ u. is_cancelled (check_urlhaus u)) candidates
      then none
      else (let gsb = gsb_of candidates in
          let urlhaus = urlhaus_of candidates in
          some (record {
            final_url = final_url;
            is_malicious = gsb.is_threat || urlhaus.is_threat;
            sources_checked = count gsb.checked + count urlhaus.checked;
            gsb = gsb;
            urlhaus = urlhaus;
            threat_types = merge_threat_types gsb urlhaus;
          }))
