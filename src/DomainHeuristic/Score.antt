-- ===== src/DomainHeuristic/Score.antt =====
-- What `check_domain_heuristic` returns, whatever the checks find and however long RDAP takes.
use lin_clean_be_fastapi.Prelude.{
  ℕ, ◌+◌, ◌-◌, ◌≤◌, true, min, ◌≡◌, ◌≢◌, refl, Option, List, [], ◌++◌, Text, leb, if◌then◌else◌,
  arith, Bool-cases, inl, inr, leb→le, sym, append-nil,
}
use lin_clean_be_fastapi.Settings.{Settings}
use lin_clean_be_fastapi.Schemas.Signals.{DomainHeuristicSignal, mem_domain, ip_direct}
use lin_clean_be_fastapi.Schemas.Results.{RdapInfo, DomainHeuristicResult}
use lin_clean_be_fastapi.Deadline.{Outcome, returned, timeout_error, exception, wait_for}
use lin_clean_be_fastapi.DomainHeuristic.{
  raw_score, Checks, found_all, local_signals, to_result, after_rdap, rdap_limit, is_parsed,
  check_domain_heuristic,
}

-- A result with the capped sum of the weights of its signals, which has each of the given signals.
abbrev pub IsScored : Settings → List DomainHeuristicSignal → Outcome DomainHeuristicResult → Type 0
IsScored cfg signals (returned r) =
    (r.score ≡ min (raw_score cfg r.signals) cfg.domain_heuristic_score_cap)
    × ((more : List DomainHeuristicSignal) × (r.signals ≡ signals ++ more))
IsScored cfg signals _ = ⊥

after_rdap-IsScored :
    (cfg : Settings) (url : Text) (signals : List DomainHeuristicSignal)
    (o : Outcome (Option RdapInfo × Option Text))
    → o ≢ exception
    → IsScored cfg signals (after_rdap cfg url signals o)
unfolding after_rdap to_result
after_rdap-IsScored cfg url signals (returned (rdap, error)) ne = (refl, (_, refl))
after_rdap-IsScored cfg url signals timeout_error ne = (refl, ([], sym (append-nil signals)))
after_rdap-IsScored cfg url signals exception ne = absurd (ne refl)

pub check_domain_heuristic-IsScored :
    (cfg : Settings) (rdap_timeout : ℕ) (checks : Checks) (url : Text)
    → is_parsed url ≡ true
    → (checks.lookup_rdap url).outcome ≢ exception
    → IsScored cfg
        (if mem_domain ip_direct (found_all (checks.check_patterns url))
          then found_all (checks.check_patterns url)
          else local_signals checks url (found_all (checks.check_patterns url)))
        (check_domain_heuristic cfg rdap_timeout checks url).outcome
      × ((check_domain_heuristic cfg rdap_timeout checks url).duration
          ≤ rdap_timeout + checks.rdap_late)
      × ((check_domain_heuristic cfg rdap_timeout checks url).duration
          ≤ cfg.pipeline_domain_timeout - 250000 + checks.rdap_late)
unfolding check_domain_heuristic to_result rdap_limit wait_for
check_domain_heuristic-IsScored cfg rdap_timeout checks url p ne =
    elim (Bool-cases (mem_domain ip_direct (found_all (checks.check_patterns url)))) [
      | inl e ↦ rw (p, e) ((refl, ([], sym (append-nil _))), omega arith, omega arith)
      | inr e ↦
          elim (Bool-cases (
            leb (checks.lookup_rdap url).duration
              (min rdap_timeout (cfg.pipeline_domain_timeout - 250000)))) [
                | inl f ↦
                    rw (p, e, f)
                      (
                        after_rdap-IsScored cfg url _ _ ne,
                        omega (arith, leb→le _ _ f),
                        omega (arith, leb→le _ _ f),
                      )
                | inr f ↦
                    rw (p, e, f)
                      (after_rdap-IsScored cfg url _ _ (λ q. cc), omega arith, omega arith)
              ]
    ]
