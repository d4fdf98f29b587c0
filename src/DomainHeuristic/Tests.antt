-- ===== src/DomainHeuristic/Tests.antt =====
-- An instance of the theorem.
use lin_clean_be_fastapi.Prelude.{◌≤◌, ◌+◌, ◌-◌, refl, none, some, [], ◌∷◌, if◌then◌else◌}
use lin_clean_be_fastapi.Settings.{default_settings}
use lin_clean_be_fastapi.Schemas.Signals.{mem_domain, ip_direct, no_https, typo_domain}
use lin_clean_be_fastapi.Deadline.{returned}
use lin_clean_be_fastapi.Samples.{site}
use lin_clean_be_fastapi.DomainHeuristic.{
  Checks, found_all, local_signals, is_parsed, check_domain_heuristic,
}
use lin_clean_be_fastapi.DomainHeuristic.Score.{IsScored, check_domain_heuristic-IsScored}

-- A DGA check that raises, and an RDAP lookup that is too slow.
abbrev checks : Checks
checks = record {
  check_patterns = λ url. some (no_https ∷ []);
  check_dga = λ url. none;
  check_typosquatting = λ url. some (some typo_domain);
  lookup_rdap = λ url. record { duration = 9000000; outcome = returned (none, none) };
  rdap_late = 5;
}

check_domain_heuristic-IsScored_example :
    IsScored default_settings
      (if mem_domain ip_direct (found_all (checks.check_patterns site))
        then found_all (checks.check_patterns site)
        else local_signals checks site (found_all (checks.check_patterns site)))
      (check_domain_heuristic default_settings 3000000 checks site).outcome
    × ((check_domain_heuristic default_settings 3000000 checks site).duration ≤ 3000000 + 5)
    × ((check_domain_heuristic default_settings 3000000 checks site).duration
        ≤ 4000000 - 250000 + 5)
unfolding is_parsed
check_domain_heuristic-IsScored_example =
    check_domain_heuristic-IsScored default_settings 3000000 checks site refl (λ e. cc)
