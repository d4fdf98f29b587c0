-- ===== src/DbIndependent/Verdicts.antt =====
-- What a response of the pipeline without the threat databases says, whatever its stages return.
use lin_clean_be_fastapi.Prelude.{
  ℕ, ◌+◌, min, ◌≡◌, refl, ◌⊎◌, inl, inr, Option, none, some, Text, false, Bool-cases, leb, leb→le,
  leb_false→lt,
}
use lin_clean_be_fastapi.Settings.{Settings}
use lin_clean_be_fastapi.Schemas.Signals.{PipelineStage}
use lin_clean_be_fastapi.Schemas.Results.{
  NormalizeResult, UnchainResult, DomainHeuristicResult, ContentAnalysisResult,
  DbIndependentPipelineSuccess, DbIndependentPipelineFailure, DbIndependentPipelineResult,
  succeeded, failed, no_timings,
}
use lin_clean_be_fastapi.Unavailability.{
  page_unavailable_code, unchain_page_unavailable, content_page_unavailable,
}
use lin_clean_be_fastapi.Pipeline.Ends.{IsBecause}
use lin_clean_be_fastapi.Pipeline.{
  Normalized, normalized, normalization_error, Stages, Step, Request,
}
use lin_clean_be_fastapi.Pipeline.Verdicts.{Fits}
use lin_clean_be_fastapi.DbIndependent.{
  decide_verdict, total_score, success, page_unavailable_failure, conclude_unavailable, conclude,
  unchain_stage, after_unchain, after_normalize, run_db_independent_pipeline,
}

decide_verdict-Fits : (cfg : Settings) (score : ℕ) → Fits cfg false score (decide_verdict cfg score)
unfolding decide_verdict
decide_verdict-Fits cfg score = elim (Bool-cases (leb cfg.score_danger_threshold score)) [
  | inl d ↦ rw d (inr (leb→le _ _ d))
  | inr d ↦ elim (Bool-cases (leb cfg.score_caution_threshold score)) [
    | inl c ↦ rw (d, c) (refl, leb_false→lt _ _ d, leb→le _ _ c)
    | inr c ↦ rw (d, c) (refl, leb_false→lt _ _ d, leb_false→lt _ _ c)
  ]
]

-- Where the unchaining of a normalised URL leads in this pipeline.
abbrev pub unchained : Settings → Stages → Request → NormalizeResult → Step UnchainResult
unchained cfg stages req norm = unchain_stage cfg stages req (record {
  now = req.started + stages.normalize_duration;
  timings = record no_timings { normalize = some stages.normalize_duration };
  value = norm;
})

pub record IsConsistent (cfg : Settings) (stages : Stages) (req : Request)
    (r : DbIndependentPipelineSuccess) : Type 0 where
  pub normalized_url : stages.normalize_url req.original_url ≡ normalized r.stages.normalize
  pub unchained_url : r.stages.unchain ≡ (unchained cfg stages req r.stages.normalize).value
  pub score_is_sum :
      r.score
      ≡ min (r.stages.domain_heuristic.score + r.stages.content_analysis.score) cfg.score_total_cap
  pub verdict_fits : Fits cfg false r.score r.verdict
  pub same_url : r.final_url ≡ r.stages.unchain.final_url

-- A failure is that of the normalisation, with its message, or of a page that the unchaining of this
-- request's URL, or else a content analysis, finds unavailable, with that message and status.
abbrev pub IsClassified : Settings → Stages → Request → DbIndependentPipelineFailure → Type 0
IsClassified cfg stages req r =
    ((r.failed_at_stage ≡ PipelineStage.normalize)
      × (stages.normalize_url req.original_url ≡ normalization_error r.error)
      × (r.final_url ≡ none)
      × (r.error_code ≡ none))
    ⊎ ((norm : NormalizeResult) × (stages.normalize_url req.original_url ≡ normalized norm)
        × IsBecause (unchained cfg stages req norm).value r.failed_at_stage (r.error, r.status_code)
        × (r.final_url ≡ some (unchained cfg stages req norm).value.final_url)
        × (r.error_code ≡ some page_unavailable_code))

abbrev pub IsSound : Settings → Stages → Request → DbIndependentPipelineResult → Type 0
IsSound cfg stages req (succeeded r) = IsConsistent cfg stages req r
IsSound cfg stages req (failed r) = IsClassified cfg stages req r

module _ (cfg : Settings) (stages : Stages) (req : Request) where
  module _ (norm : NormalizeResult)
      (found : stages.normalize_url req.original_url ≡ normalized norm) where
    abbrev the_unchain : UnchainResult
    the_unchain = (unchained cfg stages req norm).value

    success-IsSound :
        (heuristic : DomainHeuristicResult) (s : Step ContentAnalysisResult)
        → IsSound cfg stages req (success cfg stages req norm the_unchain heuristic s)
    unfolding success total_score
    success-IsSound heuristic s = record {
      normalized_url = found;
      unchained_url = refl;
      score_is_sum = refl;
      verdict_fits = decide_verdict-Fits cfg (total_score cfg heuristic s.value);
      same_url = refl;
    }

    conclude_unavailable-IsSound :
        (heuristic : DomainHeuristicResult) (s : Step ContentAnalysisResult) (stage : PipelineStage)
        (why : Text × Option ℕ)
        → IsBecause the_unchain stage why
        → IsSound cfg stages req
            (conclude_unavailable cfg stages req norm the_unchain heuristic s stage why)
    unfolding conclude_unavailable page_unavailable_failure
    conclude_unavailable-IsSound heuristic s stage why b =
        elim (Bool-cases (leb cfg.score_caution_threshold (total_score cfg heuristic s.value))) [
          | inl e ↦ rw e (success-IsSound heuristic s)
          | inr e ↦ rw e (inr (norm, found, b, refl, refl))
        ]

    conclude-IsSound :
        (heuristic : DomainHeuristicResult) (s : Step ContentAnalysisResult)
        (why : Option (Text × Option ℕ))
        → unchain_page_unavailable the_unchain ≡ none
        → content_page_unavailable s.value ≡ why
        → IsSound cfg stages req (conclude cfg stages req norm the_unchain heuristic s why)
    unfolding conclude
    conclude-IsSound heuristic s none n w = success-IsSound heuristic s
    conclude-IsSound heuristic s (some why) n w =
        conclude_unavailable-IsSound heuristic s PipelineStage.content_analysis why
          (inr (refl, n, (s.value, w)))

    after_unchain-IsSound :
        (why : Option (Text × Option ℕ))
        → unchain_page_unavailable the_unchain ≡ why
        → IsSound cfg stages req
            (after_unchain cfg stages req norm (unchained cfg stages req norm) why)
    unfolding after_unchain
    after_unchain-IsSound none n = conclude-IsSound _ _ _ n refl
    after_unchain-IsSound (some why) w =
        conclude_unavailable-IsSound _ _ PipelineStage.unchain why (inl (refl, w))

  after_normalize-IsSound :
      (n : Normalized)
      → stages.normalize_url req.original_url ≡ n
      → IsSound cfg stages req (after_normalize cfg stages req n)
  unfolding after_normalize
  after_normalize-IsSound (normalization_error message) e = inl (refl, e, refl, refl)
  after_normalize-IsSound (normalized norm) e = after_unchain-IsSound norm e _ refl

  pub run_db_independent_pipeline-IsSound :
      IsSound cfg stages req (run_db_independent_pipeline cfg stages req)
  unfolding run_db_independent_pipeline
  run_db_independent_pipeline-IsSound =
      after_normalize-IsSound (stages.normalize_url req.original_url) refl
