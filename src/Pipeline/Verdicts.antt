-- ===== src/Pipeline/Verdicts.antt =====
-- What a response says, whatever the stages return.
use lin_clean_be_fastapi.Prelude.{
  ℕ, ◌≤◌, ◌<◌, Bool, true, false, ◌≡◌, refl, ◌⊎◌, inl, inr, Option, none, some, arith, Text,
  Bool-cases, leb, ◌+◌, min, ap, if◌then◌else◌, leb→le, leb_false→lt,
}
use lin_clean_be_fastapi.Settings.{Settings}
use lin_clean_be_fastapi.Schemas.Signals.{PipelineStage, Verdict, safe, caution, danger}
use lin_clean_be_fastapi.Schemas.Results.{
  NormalizeResult, UnchainResult, ThreatDbResult, DomainHeuristicResult, ContentAnalysisResult,
  PipelineSuccess, PipelineFailure, PipelineResult, succeeded, failed,
}
use lin_clean_be_fastapi.Scoring.{total_score, preceding_score, decide_verdict}
use lin_clean_be_fastapi.Summary.Order.{IsExplained, build_analysis_summary-IsExplained}
use lin_clean_be_fastapi.Unavailability.{page_unavailable_code}
use lin_clean_be_fastapi.Pipeline.{
  Stages, Request, normalized, normalization_error, pipeline_success, page_unavailable_failure,
  after_normalize, run_pipeline,
}
use lin_clean_be_fastapi.Pipeline.Ends.{IsBecause, run_pipeline-ends}
use lin_clean_be_fastapi.Pipeline.Known.{unchained}

-- The range of scores that a verdict stands for. The three exclude one another.
abbrev pub Fits : Settings → Bool → ℕ → Verdict → Type 0
Fits cfg malicious score danger = (malicious ≡ true) ⊎ (cfg.score_danger_threshold ≤ score)
Fits cfg malicious score caution =
    (malicious ≡ false)
    × (score < cfg.score_danger_threshold)
    × (cfg.score_caution_threshold ≤ score)
Fits cfg malicious score safe =
    (malicious ≡ false)
    × (score < cfg.score_danger_threshold)
    × (score < cfg.score_caution_threshold)

pub decide_verdict-Fits :
    (cfg : Settings) (score : ℕ) (threat : ThreatDbResult)
    → Fits cfg threat.is_malicious score (decide_verdict cfg score threat)
unfolding decide_verdict
decide_verdict-Fits cfg score threat = elim (Bool-cases threat.is_malicious) [
  | inl m ↦ rw m (inl refl)
  | inr m ↦ elim (Bool-cases (leb cfg.score_danger_threshold score)) [
    | inl d ↦ rw (m, d) (inr (leb→le _ _ d))
    | inr d ↦ elim (Bool-cases (leb cfg.score_caution_threshold score)) [
      | inl c ↦ rw (m, d, c) (refl, leb_false→lt _ _ d, leb→le _ _ c)
      | inr c ↦ rw (m, d, c) (refl, leb_false→lt _ _ d, leb_false→lt _ _ c)
    ]
  ]
]

-- The score of a page that is known as malicious is the cap; any other one is the sum of the scores
-- of the heuristics and of the content analysis and of the weights of the databases that match, up to
-- the cap.
abbrev IsTotal :
    Settings → ThreatDbResult → DomainHeuristicResult → ContentAnalysisResult → ℕ → Type 0
IsTotal cfg threat heuristic content score =
    ((threat.is_malicious ≡ true) × (score ≡ cfg.score_total_cap))
    ⊎ ((threat.is_malicious ≡ false)
        × (score
            ≡ min
                (heuristic.score
                  + content.score
                  + ((if threat.gsb.is_threat then cfg.score_weight_gsb else 0)
                      + (if threat.urlhaus.is_threat then cfg.score_weight_urlhaus else 0)))
                cfg.score_total_cap))

-- The summary is there and says what it should.
abbrev IsSummary :
    Verdict → ThreatDbResult → DomainHeuristicResult → ContentAnalysisResult → Option Text → Type 0
IsSummary verdict threat heuristic content none = ⊥
IsSummary verdict threat heuristic content (some summary) =
    IsExplained verdict threat heuristic content summary

-- The conclusions of a successful response follow from the stage results that it carries, and those
-- of the first two stages are the ones of this request.
pub record IsConsistent (cfg : Settings) (stages : Stages) (req : Request) (r : PipelineSuccess)
    : Type 0 where
  pub normalized_url : stages.normalize_url req.original_url ≡ normalized r.stages.normalize
  pub unchained_url : r.stages.unchain ≡ (unchained cfg stages req r.stages.normalize).value
  pub score_is_total :
      IsTotal cfg r.stages.threat_db r.stages.domain_heuristic r.stages.content_analysis r.score
  pub score_capped : r.score ≤ cfg.score_total_cap
  pub verdict_fits : Fits cfg r.stages.threat_db.is_malicious r.score r.verdict
  pub same_url : r.final_url ≡ r.stages.unchain.final_url
  pub explained :
      IsSummary r.verdict r.stages.threat_db r.stages.domain_heuristic r.stages.content_analysis
        r.summary

-- A failure is either that of the normalisation, with its message and neither a final URL nor a code,
-- or an unavailable page: then the unchaining of this request's URL, or else a content analysis, finds
-- it unavailable, with the message and the status of the failure.
abbrev pub IsClassified : Settings → Stages → Request → PipelineFailure → Type 0
IsClassified cfg stages req r =
    ((r.failed_at_stage ≡ PipelineStage.normalize)
      × (stages.normalize_url req.original_url ≡ normalization_error r.error)
      × (r.final_url ≡ none)
      × (r.error_code ≡ none))
    ⊎ ((norm : NormalizeResult) × (stages.normalize_url req.original_url ≡ normalized norm)
        × IsBecause (unchained cfg stages req norm).value r.failed_at_stage (r.error, r.status_code)
        × (r.final_url ≡ some (unchained cfg stages req norm).value.final_url)
        × (r.error_code ≡ some page_unavailable_code))

abbrev pub IsSound : Settings → Stages → Request → PipelineResult → Type 0
IsSound cfg stages req (succeeded r) = IsConsistent cfg stages req r
IsSound cfg stages req (failed r) = IsClassified cfg stages req r

total_score-IsTotal :
    (cfg : Settings) (threat : ThreatDbResult) (heuristic : DomainHeuristicResult)
    (content : ContentAnalysisResult)
    → IsTotal cfg threat heuristic content (total_score cfg threat heuristic content)
unfolding total_score preceding_score
total_score-IsTotal cfg threat heuristic content = elim (Bool-cases threat.is_malicious) [
  | inl m ↦ inl (m, rw (m, total_score) refl)
  | inr m ↦ inr (m, rw (m, total_score, preceding_score) (ground arith))
]

total_score-le-cap :
    (cfg : Settings) (threat : ThreatDbResult) (heuristic : DomainHeuristicResult)
    (content : ContentAnalysisResult)
    → total_score cfg threat heuristic content ≤ cfg.score_total_cap
unfolding total_score
total_score-le-cap cfg threat heuristic content = ground arith

pub run_pipeline-IsSound :
    (cfg : Settings) (stages : Stages) (req : Request)
    → IsSound cfg stages req (run_pipeline cfg stages req)
unfolding pipeline_success page_unavailable_failure after_normalize
run_pipeline-IsSound cfg stages req =
    run_pipeline-ends cfg stages req (IsSound cfg stages req)
      (λ norm unchain threat heuristic s f u h. record {
        normalized_url = f;
        unchained_url = u;
        score_is_total = total_score-IsTotal cfg threat heuristic s.value;
        score_capped = total_score-le-cap cfg threat heuristic s.value;
        verdict_fits = decide_verdict-Fits cfg (total_score cfg threat heuristic s.value) threat;
        same_url = refl;
        explained = build_analysis_summary-IsExplained _ threat heuristic s.value;
      })
      (λ norm unchain stage why now timings f u b h.
        inr (norm, f, rw u at b, ap (λ (v : UnchainResult). some v.final_url) u, refl))
      (λ message e. inl (refl, e, refl, refl))
