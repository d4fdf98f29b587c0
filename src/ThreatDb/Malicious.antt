-- ===== src/ThreatDb/Malicious.antt =====
-- When a URL counts as malicious, and how many sources answered.
use lin_clean_be_fastapi.Prelude.{
  Bool, true, false, ◌&&◌, ◌||◌, not, ◌≡◌, ◌↔◌, ◌⊎◌, inl, inr, refl, ◌∙◌, sym, Option, none, some,
  List, [], ◌∷◌, map, Text, any, Some, any→Some, Some→any, ◌≤◌, arith, Option-cases, ◌++◌,
}
use lin_clean_be_fastapi.Schemas.Results.{GsbResult, UrlhausResult, ThreatDbResult}
use lin_clean_be_fastapi.ThreatDb.Merge.{
  Gathered, result, is_nil, all_matches, merge_gsb, no_match, first_threat, merge_urlhaus,
  gsb_or_unexpected, urlhaus_or_unexpected, candidate_urls, gsb_of, urlhaus_of, check_threat_db,
}

-- The client returned a result with a match.
abbrev pub gsb_match : Gathered GsbResult → Bool
gsb_match (result r) = not (is_nil r.matches)
gsb_match _ = false

abbrev pub urlhaus_match : Gathered UrlhausResult → Bool
urlhaus_match (result r) = r.is_threat
urlhaus_match _ = false

is_nil-append : {A : Type 0} (xs ys : List A) → is_nil (xs ++ ys) ≡ (is_nil xs && is_nil ys)
unfolding is_nil
is_nil-append [] ys = refl
is_nil-append (x ∷ xs) ys = refl

gsb_match-or_unexpected :
    (g : Gathered GsbResult) → not (is_nil (gsb_or_unexpected g).matches) ≡ gsb_match g
unfolding gsb_or_unexpected is_nil
gsb_match-or_unexpected (result r) = refl
gsb_match-or_unexpected _ = refl

urlhaus_match-or_unexpected :
    (g : Gathered UrlhausResult) → (urlhaus_or_unexpected g).is_threat ≡ urlhaus_match g
unfolding urlhaus_or_unexpected no_match
urlhaus_match-or_unexpected (result r) = refl
urlhaus_match-or_unexpected _ = refl

first_threat-none :
    (rs : List UrlhausResult)
    → first_threat rs ≡ none
    → any (λ (r : UrlhausResult). r.is_threat) rs ≡ false
unfolding first_threat
first_threat-none [] h = refl
first_threat-none (r ∷ rs) h = ground (arith, first_threat-none rs)

first_threat-some :
    (rs : List UrlhausResult) (r : UrlhausResult) → first_threat rs ≡ some r → r.is_threat ≡ true
unfolding first_threat
first_threat-some [] r h = cc
first_threat-some (x ∷ rs) r h = ground (arith, first_threat-some rs r)

first_threat-any :
    (rs : List UrlhausResult) (r : UrlhausResult)
    → first_threat rs ≡ some r
    → any (λ (r : UrlhausResult). r.is_threat) rs ≡ true
unfolding first_threat
first_threat-any [] r h = cc
first_threat-any (x ∷ rs) r h = ground (arith, first_threat-any rs r)

merge_urlhaus-is_threat :
    (rs : List UrlhausResult)
    → (merge_urlhaus rs).is_threat ≡ any (λ (r : UrlhausResult). r.is_threat) rs
unfolding merge_urlhaus no_match
merge_urlhaus-is_threat rs = elim (Option-cases (first_threat rs)) [
  | inl e ↦ rw (e, merge_urlhaus) (sym (first_threat-none rs e))
  | inr (r, e) ↦ rw (e, merge_urlhaus) (first_threat-some rs r e ∙ sym (first_threat-any rs r e))
]

module _ (check_gsb : Text → Gathered GsbResult)
    (check_urlhaus : Text → Gathered UrlhausResult) where
  gsb_of-is_threat :
      (candidates : List Text)
      → (gsb_of check_gsb check_urlhaus candidates).is_threat
        ≡ any (λ u. gsb_match (check_gsb u)) candidates
  unfolding gsb_of merge_gsb all_matches
  gsb_of-is_threat [] = unfold is_nil in refl
  gsb_of-is_threat (u ∷ us) =
      rw (is_nil-append (gsb_or_unexpected (check_gsb u)).matches)
        (ground (arith, gsb_of-is_threat us, gsb_match-or_unexpected (check_gsb u)))

  any-urlhaus_match :
      (candidates : List Text)
      → any
          (λ (r : UrlhausResult). r.is_threat)
          (map (λ u. urlhaus_or_unexpected (check_urlhaus u)) candidates)
        ≡ any (λ u. urlhaus_match (check_urlhaus u)) candidates
  any-urlhaus_match [] = refl
  any-urlhaus_match (u ∷ us) =
      ground (arith, any-urlhaus_match us, urlhaus_match-or_unexpected (check_urlhaus u))

  urlhaus_of-is_threat :
      (candidates : List Text)
      → (urlhaus_of check_gsb check_urlhaus candidates).is_threat
        ≡ any (λ u. urlhaus_match (check_urlhaus u)) candidates
  unfolding urlhaus_of
  urlhaus_of-is_threat candidates = merge_urlhaus-is_threat _ ∙ any-urlhaus_match candidates

  check_threat_db-is_malicious :
      (final_url : Text) (original_url : Option Text) (r : ThreatDbResult)
      → check_threat_db check_gsb check_urlhaus final_url original_url ≡ some r
      → (r.is_malicious ≡ (
          any (λ u. gsb_match (check_gsb u)) (candidate_urls final_url original_url)
          || any (λ u. urlhaus_match (check_urlhaus u)) (candidate_urls final_url original_url)))
        × (r.sources_checked ≤ 2)
  unfolding check_threat_db
  check_threat_db-is_malicious final_url original_url r h = ground (
    arith,
    gsb_of-is_threat (candidate_urls final_url original_url),
    urlhaus_of-is_threat (candidate_urls final_url original_url),
  )

or_Some_iff :
    {A : Type 0} (p q : A → Bool) (xs : List A)
    → ((any p xs || any q xs) ≡ true) ↔ (Some (λ x. p x ≡ true) xs ⊎ Some (λ x. q x ≡ true) xs)
or_Some_iff p q xs = (forth (any p xs) refl, back)
  where
    forth :
        (b : Bool)
        → any p xs ≡ b
        → (b || any q xs) ≡ true
        → Some (λ x. p x ≡ true) xs ⊎ Some (λ x. q x ≡ true) xs
    forth true e h = inl (any→Some p xs e)
    forth false e h = inr (any→Some q xs h)

    back : Some (λ x. p x ≡ true) xs ⊎ Some (λ x. q x ≡ true) xs → (any p xs || any q xs) ≡ true
    back (inl h) = rw (Some→any p xs h)
    back (inr h) = rw (Some→any q xs h) (ground arith)

-- Where a result is given, the URL is malicious in it exactly when one of the clients returned a
-- match for one of the candidate URLs: a client that raises or fails hides nothing that the other, or
-- the same client for the other URL, reports. At most two sources count as checked.
pub check_threat_db-is_malicious_iff :
    (check_gsb : Text → Gathered GsbResult) (check_urlhaus : Text → Gathered UrlhausResult)
    (final_url : Text) (original_url : Option Text) (r : ThreatDbResult)
    → check_threat_db check_gsb check_urlhaus final_url original_url ≡ some r
    → ((r.is_malicious ≡ true) ↔ (
        Some (λ u. gsb_match (check_gsb u) ≡ true) (candidate_urls final_url original_url)
        ⊎ Some
            (λ u. urlhaus_match (check_urlhaus u) ≡ true)
            (candidate_urls final_url original_url)))
      × (r.sources_checked ≤ 2)
check_threat_db-is_malicious_iff check_gsb check_urlhaus final_url original_url r h =
    let (e, few) =
      check_threat_db-is_malicious check_gsb check_urlhaus final_url original_url r h in
    (
      rw e (
          or_Some_iff (λ u. gsb_match (check_gsb u)) (λ u. urlhaus_match (check_urlhaus u))
            (candidate_urls final_url original_url)),
      few,
    )
