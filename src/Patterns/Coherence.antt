-- ===== src/Patterns/Coherence.antt =====
-- Which signals of `check_patterns` stand together.
use lin_clean_be_fastapi.Prelude.{
  ℕ, suc, ◌≡◌, refl, Bool, true, false, ◌&&◌, ◌||◌, not, none, some, List, [], ◌∷◌, ◌++◌, Text,
  ◌==◌, arith, any-append, mem_text, ◌⊎◌, inl, inr, Bool-cases, Option-cases, and_false, and_true,
  or_false,
}
use lin_clean_be_fastapi.Prelude.Ascending.{
  list_if, IsAscending, IsAscending-append, IsAscending-list_if,
}
use lin_clean_be_fastapi.Settings.{Settings}
use lin_clean_be_fastapi.Schemas.Signals.{
  DomainHeuristicSignal, domain_index, mem_domain, ip_direct, typo_domain, new_domain, dga_like,
  redirect_cross_origin, punycode_idn, subdomain_overuse, no_https, open_redirect_param,
  hyphen_overuse, suspicious_tld, hosting_platform, url_userinfo, brand_in_url, free_hosting_lure,
  sensitive_path, url_shortener,
}
use lin_clean_be_fastapi.Urllib.{SplitResult, urlsplit, hostname}
use lin_clean_be_fastapi.Tld.{ExtractResult, extract_url_parts}
use lin_clean_be_fastapi.Patterns.{
  Stdlib, is_ip_address, domain_or_host, trusted_brand_domains, has_external_open_redirect_target,
  HostTests, test_host, host_signals, check_patterns,
}

-- The place of a signal among the checks; the last four belong to other checks.
abbrev pub position : DomainHeuristicSignal → ℕ
position ip_direct = 0
position no_https = 1
position url_userinfo = 2
position subdomain_overuse = 3
position punycode_idn = 4
position hyphen_overuse = 5
position suspicious_tld = 6
position open_redirect_param = 7
position hosting_platform = 8
position url_shortener = 9
position sensitive_path = 10
position brand_in_url = 11
position free_hosting_lure = 12
position typo_domain = 13
position new_domain = 14
position dga_like = 15
position redirect_cross_origin = 16

-- In the order of the checks and each at most once; an address stands alone; the lure on a hosting
-- platform stands with the platform.
abbrev pub IsCoherent : List DomainHeuristicSignal → Type 0
IsCoherent signals =
    IsAscending position 0 signals 13
    × ((signals ≡ ip_direct ∷ []) ⊎ (mem_domain ip_direct signals ≡ false))
    × ((not (mem_domain free_hosting_lure signals) || mem_domain hosting_platform signals) ≡ true)

-- Appending what a test adds, when everything so far belongs to earlier checks.
IsAscending-snoc :
    (xs : List DomainHeuristicSignal) (b : Bool) (s : DomainHeuristicSignal)
    → IsAscending position 0 xs (position s)
    → IsAscending position 0 (xs ++ list_if b s) (suc (position s))
IsAscending-snoc xs b s a =
    IsAscending-append position xs (list_if b s) 0 (position s) (suc (position s)) a
      (IsAscending-list_if position b s (position s) (suc (position s)) (omega arith) (omega arith))

host_signals-IsAscending : (t : HostTests) → IsAscending position 0 (host_signals t) 13
unfolding host_signals
host_signals-IsAscending t = IsAscending-snoc _ _ free_hosting_lure (
    IsAscending-snoc _ _ brand_in_url (
      IsAscending-snoc _ _ sensitive_path (
        IsAscending-snoc _ _ url_shortener (
          IsAscending-snoc _ _ hosting_platform (
            IsAscending-snoc _ _ open_redirect_param (
              IsAscending-snoc _ _ suspicious_tld (
                IsAscending-snoc _ _ hyphen_overuse (
                  IsAscending-snoc _ _ punycode_idn (
                    IsAscending-snoc _ _ subdomain_overuse (
                      IsAscending-snoc _ _ url_userinfo (
                        IsAscending-list_if position t.is_http no_https 0 2 (omega arith)
                          (omega arith))))))))))))

mem_domain-list_if :
    (t : DomainHeuristicSignal) (b : Bool) (s : DomainHeuristicSignal)
    → mem_domain t (list_if b s) ≡ (b && domain_index s == domain_index t)
unfolding mem_domain list_if
mem_domain-list_if t b s = ground arith

mem_domain-append :
    (t : DomainHeuristicSignal) (xs ys : List DomainHeuristicSignal)
    → mem_domain t (xs ++ ys) ≡ (mem_domain t xs || mem_domain t ys)
unfolding mem_domain
mem_domain-append t xs ys = any-append _ xs ys

ruleset membership = (mem_domain-append, mem_domain-list_if, and_false, and_true, or_false)

-- Whether a signal is among those of the tests: the test that adds it.
pub mem_domain-host_signals :
    (t : HostTests)
    → (mem_domain ip_direct (host_signals t) ≡ false)
      × (mem_domain free_hosting_lure (host_signals t)
          ≡ (t.is_hosting_platform && (t.names_brand || t.is_sensitive_path)))
      × (mem_domain hosting_platform (host_signals t) ≡ t.is_hosting_platform)
      × (mem_domain sensitive_path (host_signals t)
          ≡ (t.is_sensitive_path && not t.is_trusted_brand_domain))
      × (mem_domain brand_in_url (host_signals t)
          ≡ (t.names_brand && not t.is_trusted_brand_domain && not t.is_named_brand))
      × (mem_domain open_redirect_param (host_signals t) ≡ t.leads_elsewhere)
unfolding host_signals
mem_domain-host_signals t = (
  simp membership,
  simp membership,
  simp membership,
  simp membership,
  simp membership,
  simp membership,
)

-- The three ends of `check_patterns`.
pub check_patterns-cases :
    (cfg : Settings) (lib : Stdlib) (lines : List Text) (url : Text)
    → (check_patterns cfg lib lines url ≡ none)
      ⊎ (check_patterns cfg lib lines url ≡ some (ip_direct ∷ []))
      ⊎ ((parsed : SplitResult) × (leads : Bool) × (urlsplit url ≡ some parsed)
          × (has_external_open_redirect_target
                (lib.parse_qs parsed.query)
                (domain_or_host (extract_url_parts url) (hostname parsed))
              ≡ some leads)
          × (check_patterns cfg lib lines url
              ≡ some (host_signals (test_host cfg lines parsed (extract_url_parts url) leads))))
unfolding check_patterns
check_patterns-cases cfg lib lines url = elim (Option-cases (urlsplit url)) [
  | inl e ↦ inl (rw (e, check_patterns))
  | inr (parsed, e) ↦ elim (Bool-cases (is_ip_address lib (hostname parsed))) [
    | inl f ↦ inr (inl (rw (e, f, check_patterns)))
    | inr f ↦
        elim (Option-cases (
          has_external_open_redirect_target (lib.parse_qs parsed.query)
            (domain_or_host (extract_url_parts url) (hostname parsed)))) [
              | inl g ↦ inl (rw (e, f, g, check_patterns))
              | inr (leads, g) ↦ inr (inr (parsed, leads, e, g, rw (e, f, g, check_patterns)))
            ]
  ]
]

IsCoherent-host_signals : (t : HostTests) → IsCoherent (host_signals t)
IsCoherent-host_signals t =
    let (ip, lure, platform, _, _, _) = mem_domain-host_signals t in
    (host_signals-IsAscending t, inr ip, rw (lure, platform) (ground arith))

some-inj {ℓ} : {A : Type ℓ} (x y : A) → some x ≡ some y → x ≡ y
some-inj x y e = cc

-- When `check_patterns` returns, the signals stand in the order of the checks and each at most once;
-- IP_DIRECT stands alone; and FREE_HOSTING_LURE stands only with HOSTING_PLATFORM.
pub check_patterns-IsCoherent :
    (cfg : Settings) (lib : Stdlib) (lines : List Text) (url : Text)
    (signals : List DomainHeuristicSignal)
    → check_patterns cfg lib lines url ≡ some signals
    → IsCoherent signals
unfolding mem_domain
check_patterns-IsCoherent cfg lib lines url signals h =
    elim (check_patterns-cases cfg lib lines url) [
      | inl e ↦ absurd cc
      | inr (inl e) ↦
          let e' : signals ≡ ip_direct ∷ [] = cc in
          rw e' ((omega arith, omega arith), inl refl, refl)
      | inr (inr (parsed, leads, _, _, e)) ↦
          let e' : signals
              ≡ host_signals (test_host cfg lines parsed (extract_url_parts url) leads) =
            cc in
          rw e' (IsCoherent-host_signals _)
    ]

host_signals-trusted :
    (t : HostTests)
    → t.is_trusted_brand_domain ≡ true
    → (mem_domain sensitive_path (host_signals t) ≡ false)
      × (mem_domain brand_in_url (host_signals t) ≡ false)
host_signals-trusted t h =
    let (_, _, _, sensitive, brand, _) = mem_domain-host_signals t in
    (rw (sensitive, h, and_false), rw (brand, h, and_false))

test_host-trusted :
    (cfg : Settings) (lines : List Text) (parsed : SplitResult) (ext : ExtractResult) (leads : Bool)
    → (test_host cfg lines parsed ext leads).is_trusted_brand_domain
      ≡ mem_text (domain_or_host ext (hostname parsed)) (trusted_brand_domains lines)
unfolding test_host
test_host-trusted cfg lines parsed ext leads = refl

pub test_host-leads :
    (cfg : Settings) (lines : List Text) (parsed : SplitResult) (ext : ExtractResult) (leads : Bool)
    → (test_host cfg lines parsed ext leads).leads_elsewhere ≡ leads
unfolding test_host
test_host-leads cfg lines parsed ext leads = refl

-- If the host has a registered domain of `brands.txt`, `check_patterns` reports neither
-- SENSITIVE_PATH nor BRAND_IN_URL, whatever the path and the query are.
pub check_patterns-trusted :
    (cfg : Settings) (lib : Stdlib) (lines : List Text) (url : Text) (parsed : SplitResult)
    (signals : List DomainHeuristicSignal)
    → urlsplit url ≡ some parsed
    → mem_text
        (domain_or_host (extract_url_parts url) (hostname parsed))
        (trusted_brand_domains lines)
      ≡ true
    → check_patterns cfg lib lines url ≡ some signals
    → (mem_domain sensitive_path signals ≡ false) × (mem_domain brand_in_url signals ≡ false)
unfolding mem_domain
check_patterns-trusted cfg lib lines url parsed signals p t h =
    elim (check_patterns-cases cfg lib lines url) [
      | inl e ↦ absurd cc
      | inr (inl e) ↦ let e' : signals ≡ ip_direct ∷ [] = cc in rw e' (refl, refl)
      | inr (inr (parsed', leads, p', _, e)) ↦
          let q : parsed' ≡ parsed = cc in
          let e' : signals
              ≡ host_signals (test_host cfg lines parsed' (extract_url_parts url) leads) =
            cc in
          rw (e', q) (host_signals-trusted _ (rw (test_host-trusted _ _ _ _ _) t))
    ]
