-- ===== src/DomainHeuristic.antt =====
-- app/services/domain_heuristic/check.py: `check_domain_heuristic`. The checks that it calls are the
-- fields of `Checks`; `none` is an exception, which the code swallows, except for that of the RDAP
-- lookup. The limit of the RDAP lookup is taken to be nonnegative, and its timeout is a parameter.
pub mod Score
mod Tests
use lin_clean_be_fastapi.Prelude.{
  ℕ, ◌+◌, ◌-◌, min, Bool, true, false, ◌&&◌, not, Option, none, some, List, [], ◌∷◌, ◌++◌, Text,
  text, leb, if◌then◌else◌,
}
use lin_clean_be_fastapi.Settings.{Settings}
use lin_clean_be_fastapi.Schemas.Signals.{
  DomainHeuristicSignal, mem_domain, ip_direct, typo_domain, punycode_idn, new_domain,
  subdomain_overuse, no_https, open_redirect_param, hyphen_overuse, suspicious_tld, dga_like,
  hosting_platform, url_userinfo, brand_in_url, free_hosting_lure, sensitive_path, url_shortener,
  redirect_cross_origin,
}
use lin_clean_be_fastapi.Schemas.Results.{RdapInfo, DomainHeuristicResult}
use lin_clean_be_fastapi.Urllib.{urlsplit}
use lin_clean_be_fastapi.Tld.{registered_domain}
use lin_clean_be_fastapi.Deadline.{Outcome, returned, timeout_error, exception, Task, wait_for}

unfoldable pub signal_score : Settings → DomainHeuristicSignal → ℕ
signal_score cfg ip_direct = cfg.score_weight_ip_direct
signal_score cfg typo_domain = cfg.score_weight_typo_domain
signal_score cfg punycode_idn = cfg.score_weight_punycode_idn
signal_score cfg new_domain = cfg.score_weight_new_domain
signal_score cfg subdomain_overuse = cfg.score_weight_subdomain_overuse
signal_score cfg no_https = cfg.score_weight_no_https
signal_score cfg open_redirect_param = cfg.score_weight_open_redirect_param
signal_score cfg hyphen_overuse = cfg.score_weight_hyphen_overuse
signal_score cfg suspicious_tld = cfg.score_weight_suspicious_tld
signal_score cfg dga_like = cfg.score_weight_dga_like
signal_score cfg hosting_platform = cfg.score_weight_hosting_platform
signal_score cfg url_userinfo = cfg.score_weight_url_userinfo
signal_score cfg brand_in_url = cfg.score_weight_brand_in_url
signal_score cfg free_hosting_lure = cfg.score_weight_free_hosting_lure
signal_score cfg sensitive_path = cfg.score_weight_sensitive_path
signal_score cfg url_shortener = cfg.score_weight_url_shortener
signal_score cfg redirect_cross_origin = cfg.score_weight_redirect_cross_origin

unfoldable pub raw_score : Settings → List DomainHeuristicSignal → ℕ
raw_score cfg [] = 0
raw_score cfg (s ∷ signals) = signal_score cfg s + raw_score cfg signals

pub record Checks : Type 0 where
  pub check_patterns : Text → Option (List DomainHeuristicSignal)
  pub check_dga : Text → Option (Option DomainHeuristicSignal)
  pub check_typosquatting : Text → Option (Option DomainHeuristicSignal)
  pub lookup_rdap : Text → Task (Option RdapInfo × Option Text)
  -- how long after its cancellation the lookup has ended
  pub rdap_late : ℕ

-- `signals.extend`, `signals.append`: what a check that raised or found nothing adds is nothing.
unfoldable pub found_all : Option (List DomainHeuristicSignal) → List DomainHeuristicSignal
found_all none = []
found_all (some signals) = signals

unfoldable pub found_one : Option (Option DomainHeuristicSignal) → List DomainHeuristicSignal
found_one (some (some s)) = s ∷ []
found_one _ = []

-- The signals of the checks that need no network, for a URL that is no address.
unfoldable pub local_signals :
    Checks → Text → List DomainHeuristicSignal → List DomainHeuristicSignal
local_signals checks url patterns =
    let so_far = patterns ++ found_one (checks.check_dga url) in
    if mem_domain hosting_platform so_far
    then so_far
    else so_far ++ found_one (checks.check_typosquatting url)

unfoldable pub new_domain_signal : Option RdapInfo → List DomainHeuristicSignal
new_domain_signal none = []
new_domain_signal (some info) = if info.is_new_domain then new_domain ∷ [] else []

-- The score and the result, when all signals are known.
unfoldable pub to_result :
    Settings
    → Text
    → List DomainHeuristicSignal
    → Option RdapInfo
    → Option Text
    → DomainHeuristicResult
to_result cfg url signals rdap rdap_error = record {
  domain = registered_domain url;
  score = min (raw_score cfg signals) cfg.domain_heuristic_score_cap;
  signals = signals;
  rdap = rdap;
  rdap_error = rdap_error;
  skipped_reason = none;
}

-- After the RDAP lookup.
unfoldable pub after_rdap :
    Settings
    → Text
    → List DomainHeuristicSignal
    → Outcome (Option RdapInfo × Option Text)
    → Outcome DomainHeuristicResult
unfolding text
after_rdap cfg url signals (returned (rdap, rdap_error)) =
    returned (to_result cfg url (signals ++ new_domain_signal rdap) rdap rdap_error)
after_rdap cfg url signals timeout_error =
    returned (to_result cfg url signals none (some (text "timeout")))
after_rdap cfg url signals exception = exception

-- The limit of the lookup, a quarter of a second below the budget of the stage.
unfoldable pub rdap_limit : Settings → ℕ → ℕ
rdap_limit cfg rdap_timeout = min rdap_timeout (cfg.pipeline_domain_timeout - 250000)

-- `extract_url_parts` and `urlparse` raise a ValueError for other URLs, before anything else.
unfoldable pub is_parsed : Text → Bool
unfolding urlsplit
is_parsed url = elim (urlsplit url) [ none ↦ false | some parts ↦ true ]

unfoldable pub check_domain_heuristic : Settings → ℕ → Checks → Text → Task DomainHeuristicResult
check_domain_heuristic cfg rdap_timeout checks url =
    let patterns = found_all (checks.check_patterns url) in
    let (duration, outcome) =
      wait_for (rdap_limit cfg rdap_timeout) checks.rdap_late (checks.lookup_rdap url) in
    if not (is_parsed url)
    then record { duration = 0; outcome = exception }
    else if mem_domain ip_direct patterns
    then record { duration = 0; outcome = returned (to_result cfg url patterns none none) }
    else record {
      duration = duration;
      outcome = after_rdap cfg url (local_signals checks url patterns) outcome;
    }
