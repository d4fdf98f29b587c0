-- ===== src/ThreatDb/Tests.antt =====
-- Instances of the theorems.
use lin_clean_be_fastapi.Prelude.{
  ℕ, Option, ◌||◌, any, ◌≡◌, ◌≤◌, ◌↔◌, ◌⊎◌, refl, true, false, some, none, text, Text, is_empty,
  mem_text, truthy, or_text, Some, [], ◌∷◌,
}
use lin_clean_be_fastapi.Schemas.Results.{ThreatDbResult, GsbResult, UrlhausResult}
use lin_clean_be_fastapi.Samples.{site, gsb_match, urlhaus}
use lin_clean_be_fastapi.ThreatDb.Merge.{
  Gathered, result, raised, check_threat_db, candidate_urls, merge_threat_types, is_cancelled,
  gsb_of, urlhaus_of, merge_gsb, merge_urlhaus, first_threat, all_matches, is_nil,
  gsb_or_unexpected, urlhaus_or_unexpected, add_match_types, add_new, no_match, first_error,
  unexpected,
}
use lin_clean_be_fastapi.ThreatDb.Malicious
use lin_clean_be_fastapi.ThreatDb.Malicious.{urlhaus_match, check_threat_db-is_malicious_iff}
use lin_clean_be_fastapi.Urllib.{urlsplit, hostname, lower}
use lin_clean_be_fastapi.ThreatDb.Urlhaus.{
  Entry, Session, url_variants, derive_keys, keys_of, check_urlhaus,
}
use lin_clean_be_fastapi.ThreatDb.Table.{
  row_with_url, rows_with_key, IsReport, any_url, has_key, IsAnswered, check_urlhaus-IsReport,
  check_urlhaus-IsAnswered,
}
use lin_clean_be_fastapi.ThreatDb.Types.{IsClean, merge_threat_types-IsClean}
use lin_clean_be_fastapi.Content.OpenAi.Json.{
  object, array, element, end_of_array, member, end_of_object,
}
use lin_clean_be_fastapi.ThreatDb.Gsb.{
  Reply, response, json, check_gsb, check_gsb-IsHonest, IsHonest,
}

-- Google Safe Browsing knows the URL; the local table cannot be read.
abbrev gsb_client : Text → Gathered GsbResult
gsb_client url = result gsb_match

abbrev urlhaus_client : Text → Gathered UrlhausResult
urlhaus_client url = raised

abbrev found : ThreatDbResult
found = record {
  final_url = site;
  is_malicious = true;
  sources_checked = 1;
  gsb = gsb_match;
  urlhaus = no_match false (some (text "unexpected"));
  threat_types = site ∷ [];
}

found_lem : check_threat_db gsb_client urlhaus_client site none ≡ some found
unfolding check_threat_db candidate_urls is_cancelled gsb_of urlhaus_of merge_gsb merge_urlhaus
    first_threat all_matches is_nil gsb_or_unexpected urlhaus_or_unexpected merge_threat_types
    add_match_types add_new no_match first_error unexpected is_empty mem_text truthy or_text text
found_lem = refl

check_threat_db-is_malicious_iff_example :
    ((found.is_malicious ≡ true) ↔ (
      Some (λ u. Malicious.gsb_match (gsb_client u) ≡ true) (candidate_urls site none)
      ⊎ Some (λ u. urlhaus_match (urlhaus_client u) ≡ true) (candidate_urls site none)))
    × (found.sources_checked ≤ 2)
check_threat_db-is_malicious_iff_example =
    check_threat_db-is_malicious_iff gsb_client urlhaus_client site none found found_lem

merge_threat_types-IsClean_example : IsClean (merge_threat_types gsb_match (urlhaus true))
merge_threat_types-IsClean_example = merge_threat_types-IsClean gsb_match (urlhaus true)

-- A reply that lists a match.
abbrev listing : Reply
listing = response 200 (
    json (
      object (
        member (text "matches") (array (element (object end_of_object) end_of_array))
          end_of_object)))

check_gsb-IsHonest_example :
    IsHonest (truthy (some site)) listing (check_gsb is_empty (some site) (λ url. listing) site)
check_gsb-IsHonest_example = check_gsb-IsHonest is_empty (some site) (λ url. listing) site

-- A table with one row, and a site without tenants.
abbrev entry : Entry
entry = record {
  url = text "http://evil.kr/a.exe";
  match_key = text "evil.kr";
  threat = none;
  tags = none;
  urlhaus_link = none;
}

abbrev session : Session
session = record {
  by_url = λ target. some (row_with_url target (entry ∷ []));
  by_keys = λ keys. some (rows_with_key keys (entry ∷ []));
}

abbrev no_tenants : Text → Option ℕ
no_tenants name = none

check_urlhaus-IsReport_example :
    IsReport
      (any_url (entry ∷ []) (url_variants (text "https://Evil.kr/b"))
        || any (has_key (entry ∷ [])) (text "evil.kr" ∷ []))
      (check_urlhaus no_tenants session (text "https://Evil.kr/b"))
unfolding derive_keys keys_of urlsplit hostname lower is_empty text
check_urlhaus-IsReport_example =
    check_urlhaus-IsReport no_tenants session (entry ∷ []) (text "https://Evil.kr/b")
      (text "evil.kr" ∷ []) (record { by_url_lem = λ t. refl; by_keys_lem = λ ks. refl }) refl

check_urlhaus-IsAnswered_example :
    IsAnswered no_tenants session
      (text "https://evil.kr/b")
      (check_urlhaus no_tenants session (text "https://evil.kr/b"))
check_urlhaus-IsAnswered_example =
    check_urlhaus-IsAnswered no_tenants session (text "https://evil.kr/b")
