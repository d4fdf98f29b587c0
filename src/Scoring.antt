-- ===== src/Scoring.antt =====
-- app/services/pipeline.py: the score and the verdict of a request, and the signal that a redirect
-- to another registered domain adds to the heuristics.
use lin_clean_be_fastapi.Prelude.{
  ℕ, ◌+◌, min, Bool, false, ◌&&◌, not, List, [], ◌∷◌, ◌++◌, map, Text, text, starts_with, any, leb,
  if◌then◌else◌, Option, none, some,
}
use lin_clean_be_fastapi.Settings.{Settings}
use lin_clean_be_fastapi.Schemas.Signals.{
  redirect_cross_origin, domain_code, mem_domain, Verdict, safe, caution, danger, threat_matched,
  fetch_failed,
}
use lin_clean_be_fastapi.Schemas.Results.{
  UnchainResult, ThreatDbResult, DomainHeuristicResult, ContentAnalysisResult, content_defaults,
}
use lin_clean_be_fastapi.Tld.{registered_domain}

unfoldable pub collect_upstream_signals : ThreatDbResult → DomainHeuristicResult → List Text
unfolding text domain_code
collect_upstream_signals threat heuristic =
    map domain_code heuristic.signals
    ++ ((if threat.gsb.is_threat then text "GSB_THREAT" ∷ [] else [])
        ++ (if threat.urlhaus.is_threat then text "URLHAUS_THREAT" ∷ [] else []))

-- `any(signal.startswith("cross_origin:") for signal in unchain.signals)`
unfoldable pub crossed_origin : UnchainResult → Bool
unfolding starts_with text
crossed_origin unchain = any (λ s. starts_with (text "cross_origin:") s) unchain.signals

module _ (cfg : Settings) where
  -- A copy with the signal and its weight, unless the signal is there.
  unfoldable pub augment_heuristic_with_redirect_signals :
      DomainHeuristicResult → UnchainResult → DomainHeuristicResult
  augment_heuristic_with_redirect_signals heuristic unchain =
      if crossed_origin unchain && not (mem_domain redirect_cross_origin heuristic.signals)
      then record heuristic {
        signals = heuristic.signals ++ redirect_cross_origin ∷ [];
        score =
            min (heuristic.score + cfg.score_weight_redirect_cross_origin)
              cfg.domain_heuristic_score_cap;
      }
      else heuristic

  unfoldable pub preceding_score : ThreatDbResult → DomainHeuristicResult → ℕ
  preceding_score threat heuristic =
      heuristic.score
      + (if threat.gsb.is_threat then cfg.score_weight_gsb else 0)
      + (if threat.urlhaus.is_threat then cfg.score_weight_urlhaus else 0)

  unfoldable pub total_score : ThreatDbResult → DomainHeuristicResult → ContentAnalysisResult → ℕ
  unfolding preceding_score
  total_score threat heuristic content =
      if threat.is_malicious
      then cfg.score_total_cap
      else min (preceding_score threat heuristic + content.score) cfg.score_total_cap

  unfoldable pub decide_verdict : ℕ → ThreatDbResult → Verdict
  decide_verdict score threat =
      if threat.is_malicious
      then danger
      else if leb cfg.score_danger_threshold score
      then danger
      else if leb cfg.score_caution_threshold score
      then caution
      else safe

-- The placeholder for heuristics that a threat match made unnecessary.
unfoldable pub skipped_heuristic : Text → DomainHeuristicResult
skipped_heuristic final_url = record {
  domain = registered_domain final_url;
  score = 0;
  signals = [];
  rdap = none;
  rdap_error = none;
  skipped_reason = some threat_matched;
}

unfoldable pub page_unavailable_content : Text → Text → Option ℕ → ContentAnalysisResult
unfolding text
page_unavailable_content final_url message status = record (content_defaults final_url false) {
  status_code = status;
  signals = fetch_failed ∷ [];
  reason = some message;
  error = some (text "page_unavailable");
}
