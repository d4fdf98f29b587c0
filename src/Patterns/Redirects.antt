-- ===== src/Patterns/Redirects.antt =====
-- When a URL is not reported for an open redirect.
use lin_clean_be_fastapi.Prelude.{
  ◌≡◌, refl, Bool, true, false, ◌||◌, Option, none, some, List, [], ◌∷◌, Text, text, text_eq,
  mem_text, is_empty, All, ◌⊎◌, inl, inr, Bool-cases, Option-cases,
}
use lin_clean_be_fastapi.Settings.{Settings}
use lin_clean_be_fastapi.Schemas.Signals.{
  DomainHeuristicSignal, mem_domain, ip_direct, open_redirect_param,
}
use lin_clean_be_fastapi.Urllib.{SplitResult, urlsplit, hostname, lower}
use lin_clean_be_fastapi.Tld.{extract_url_parts}
use lin_clean_be_fastapi.Patterns.{
  Stdlib, domain_or_host, leads_out, values_lead_out, has_external_open_redirect_target, test_host,
  host_signals, check_patterns,
}
use lin_clean_be_fastapi.Patterns.Tables.{open_redirect_params}
use lin_clean_be_fastapi.Patterns.Coherence.{
  check_patterns-cases, mem_domain-host_signals, test_host-leads,
}

-- A web address with a host, whose registered domain is the given one.
abbrev pub StaysAt : Text → Text → Type 0
StaysAt domain value =
    (parsed : SplitResult) × (urlsplit value ≡ some parsed)
    × ((text_eq parsed.scheme (text "http") || text_eq parsed.scheme (text "https")) ≡ true)
    × (is_empty (hostname parsed) ≡ false)
    × (text_eq (domain_or_host (extract_url_parts value) (hostname parsed)) domain ≡ true)

-- A parameter whose name is not one of redirects, or all of whose values stay at the domain.
abbrev pub IsHarmless : Text → Text × List Text → Type 0
IsHarmless domain (key, values) =
    (mem_text (lower key) open_redirect_params ≡ false) ⊎ All (StaysAt domain) values

leads_out-StaysAt :
    (domain : Text) (values : List Text)
    → leads_out domain values ≡ some false
    → All (StaysAt domain) values
unfolding leads_out
leads_out-StaysAt domain [] h = tt
leads_out-StaysAt domain (value ∷ values) h = elim (Option-cases (urlsplit value)) [
  | inl e ↦ let h' : none ≡ some false = rw (e, leads_out) at h in absurd cc
  | inr (parsed, e) ↦
      elim (Bool-cases
        (text_eq parsed.scheme (text "http") || text_eq parsed.scheme (text "https"))) [
          | inl f ↦ elim (Bool-cases (is_empty (hostname parsed))) [
            | inl g ↦ let h' : some true ≡ some false = rw (e, f, g, leads_out) at h in absurd cc
            | inr g ↦
                elim (Bool-cases
                  (text_eq (domain_or_host (extract_url_parts value) (hostname parsed)) domain)) [
                    | inl k ↦ (
                      (parsed, e, f, g, k),
                      leads_out-StaysAt domain values (rw (e, f, g, k, leads_out) at h),
                    )
                    | inr k ↦
                        let h' : some true ≡ some false = rw (e, f, g, k, leads_out) at h in
                        absurd cc
                  ]
          ]
          | inr f ↦ let h' : some true ≡ some false = rw (e, f, leads_out) at h in absurd cc
        ]
]

values_lead_out-StaysAt :
    (domain : Text) (values : List Text)
    → values_lead_out domain values ≡ some false
    → All (StaysAt domain) values
unfolding values_lead_out
values_lead_out-StaysAt domain [] h = tt
values_lead_out-StaysAt domain (value ∷ values) h = leads_out-StaysAt domain (value ∷ values) h

-- The three ends of the look at one parameter of a redirect.
ends : (o : Option Bool) → (o ≡ none) ⊎ (o ≡ some true) ⊎ (o ≡ some false)
ends none = inl refl
ends (some true) = inr (inl refl)
ends (some false) = inr (inr refl)

has_external_open_redirect_target-IsHarmless :
    (qs : List (Text × List Text)) (domain : Text)
    → has_external_open_redirect_target qs domain ≡ some false
    → All (IsHarmless domain) qs
unfolding has_external_open_redirect_target
has_external_open_redirect_target-IsHarmless [] domain h = tt
has_external_open_redirect_target-IsHarmless ((key, values) ∷ qs) domain h =
    elim (Bool-cases (mem_text (lower key) open_redirect_params)) [
      | inl e ↦ elim (ends (values_lead_out domain values)) [
        | inl f ↦
            let h' : none ≡ some false = rw (e, f, has_external_open_redirect_target) at h in
            absurd cc
        | inr (inl f) ↦
            let h' : some true ≡ some false = rw (e, f, has_external_open_redirect_target) at h in
            absurd cc
        | inr (inr f) ↦ (
          inr (values_lead_out-StaysAt domain values f),
          has_external_open_redirect_target-IsHarmless qs domain
              (rw (e, f, has_external_open_redirect_target) at h),
        )
      ]
      | inr e ↦ (
        inl e,
        has_external_open_redirect_target-IsHarmless qs domain
            (rw (e, has_external_open_redirect_target) at h),
      )
    ]

-- If `check_patterns` returns signals with neither IP_DIRECT nor OPEN_REDIRECT_PARAM, then in every
-- query parameter whose name is one of redirects, every value is an http or https address with a
-- host whose registered domain is that of the URL itself.
pub check_patterns-IsHarmless :
    (cfg : Settings) (lib : Stdlib) (lines : List Text) (url : Text) (parsed : SplitResult)
    (signals : List DomainHeuristicSignal)
    → urlsplit url ≡ some parsed
    → check_patterns cfg lib lines url ≡ some signals
    → mem_domain ip_direct signals ≡ false
    → mem_domain open_redirect_param signals ≡ false
    → All
        (IsHarmless (domain_or_host (extract_url_parts url) (hostname parsed)))
        (lib.parse_qs parsed.query)
unfolding mem_domain
check_patterns-IsHarmless cfg lib lines url parsed signals p h no_ip no_redirect =
    elim (check_patterns-cases cfg lib lines url) [
      | inl e ↦ absurd cc
      | inr (inl e) ↦
          let e' : signals ≡ ip_direct ∷ [] = cc in
          let n : true ≡ false = rw e' at no_ip in absurd cc
      | inr (inr (parsed', leads, p', l, e)) ↦
          let q : parsed' ≡ parsed = cc in
          let e' : signals
              ≡ host_signals (test_host cfg lines parsed' (extract_url_parts url) leads) =
            cc in
          let (_, _, _, _, _, redirect) =
            mem_domain-host_signals (test_host cfg lines parsed' (extract_url_parts url) leads) in
          let f : leads ≡ false =
            rw (e', redirect, test_host-leads cfg lines parsed') at no_redirect in
          has_external_open_redirect_target-IsHarmless _ _ (rw (q, f) at l)
    ]
