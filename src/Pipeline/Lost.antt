-- ===== src/Pipeline/Lost.antt =====
-- Heuristics that raise before the lookup has ended.
use lin_clean_be_fastapi.Prelude.{
  ℕ, ◌<◌, Bool, false, ◌||◌, ◌≡◌, refl, ap, inl, inr, Option, none, some, Text, arith, Bool-cases,
  leb,
}
use lin_clean_be_fastapi.Settings.{Settings}
use lin_clean_be_fastapi.Schemas.Signals.{PipelineStage}
use lin_clean_be_fastapi.Schemas.Results.{
  NormalizeResult, UnchainResult, ThreatDbResult, DomainHeuristicResult, ContentAnalysisResult,
  PipelineResult, succeeded, failed,
}
use lin_clean_be_fastapi.Deadline.{
  exception, Task, run, timed_out_threat_db_result, timed_out_domain_result,
}
use lin_clean_be_fastapi.Scoring.{total_score}
use lin_clean_be_fastapi.Reputation.{run_stage_2_and_3}
use lin_clean_be_fastapi.Pipeline.Known.{unchained}
use lin_clean_be_fastapi.Pipeline.{
  normalized, Stages, Step, Request, deadline, stage_threat_db, reputation_value, reputation_stage,
  pipeline_success, page_unavailable_failure, conclude_unavailable, run_unavailable, conclude,
  run_available, after_unchain, after_normalize, run_pipeline,
}

-- A success carries this result of the lookup.
abbrev pub Carries : ThreatDbResult → PipelineResult → Type 0
Carries threat (succeeded r) = r.stages.threat_db ≡ threat
Carries threat (failed r) = Unit

run_stage_2_and_3-raised :
    (final_url : Text) (threat : Task ThreatDbResult) (heuristic : Task DomainHeuristicResult)
    → heuristic.duration < threat.duration
    → heuristic.outcome ≡ exception
    → run_stage_2_and_3 final_url threat heuristic
      ≡ record { duration = heuristic.duration; outcome = exception }
unfolding run_stage_2_and_3
run_stage_2_and_3-raised final_url threat heuristic first e = ground (arith, e)

module _ (cfg : Settings) (stages : Stages) (req : Request) (threat : ThreatDbResult) where
  pipeline_success-Carries :
      (norm : NormalizeResult) (unchain : UnchainResult) (heuristic : DomainHeuristicResult)
      (s : Step ContentAnalysisResult)
      → Carries threat (pipeline_success cfg stages req norm unchain threat heuristic s)
  unfolding pipeline_success
  pipeline_success-Carries norm unchain heuristic s = refl

  conclude_unavailable-Carries :
      (norm : NormalizeResult) (unchain : UnchainResult) (heuristic : DomainHeuristicResult)
      (s : Step ContentAnalysisResult) (stage : PipelineStage) (why : Text × Option ℕ)
      → Carries threat
          (conclude_unavailable cfg stages req norm unchain threat heuristic s stage why)
  unfolding conclude_unavailable page_unavailable_failure
  conclude_unavailable-Carries norm unchain heuristic s stage why =
      elim (Bool-cases (
        threat.is_malicious
        || leb cfg.score_caution_threshold (total_score cfg threat heuristic s.value))) [
          | inl e ↦ rw e (pipeline_success-Carries norm unchain heuristic s)
          | inr e ↦ rw e tt
        ]

  conclude-Carries :
      (norm : NormalizeResult) (unchain : UnchainResult) (heuristic : DomainHeuristicResult)
      (s : Step ContentAnalysisResult) (why : Option (Text × Option ℕ))
      → Carries threat (conclude cfg stages req norm unchain threat heuristic s why)
  unfolding conclude
  conclude-Carries norm unchain heuristic s none = pipeline_success-Carries norm unchain heuristic s
  conclude-Carries norm unchain heuristic s (some why) =
      conclude_unavailable-Carries norm unchain heuristic s PipelineStage.content_analysis why

module _ (cfg : Settings) (stages : Stages) (req : Request) (norm : NormalizeResult)
    (s : Step UnchainResult)
    (raises : (stages.check_domain_heuristic s.value.final_url).outcome ≡ exception)
    (first : (stages.check_domain_heuristic s.value.final_url).duration
      < (stage_threat_db cfg stages req s.value.final_url norm.normalized_url).duration) where
  run-exception :
      (limit late : ℕ) (task : Task (ThreatDbResult × DomainHeuristicResult × Bool))
      → task.outcome ≡ exception
      → reputation_value cfg stages req s.value.final_url
          (run (deadline cfg stages req) s.now task limit late).1
        ≡ (
          timed_out_threat_db_result s.value.final_url,
          timed_out_domain_result s.value.final_url,
          false,
        )
  unfolding run reputation_value
  run-exception limit late task e = ground (arith, e)

  reputation_stage-lost : (reputation_stage cfg stages req norm.normalized_url s).value ≡ (
    timed_out_threat_db_result s.value.final_url,
    timed_out_domain_result s.value.final_url,
    false,
  )
  unfolding reputation_stage
  reputation_stage-lost = run-exception cfg.pipeline_reputation_timeout _ _ (
      ap (λ (t : Task (ThreatDbResult × DomainHeuristicResult × Bool)). t.outcome)
        (run_stage_2_and_3-raised s.value.final_url _ _ first raises))

  after_unchain-Carries :
      (why : Option (Text × Option ℕ))
      → Carries
          (timed_out_threat_db_result s.value.final_url)
          (after_unchain cfg stages req norm s why)
  unfolding after_unchain run_available run_unavailable
  after_unchain-Carries none =
      rw reputation_stage-lost (conclude-Carries cfg stages req _ norm s.value _ _ _)
  after_unchain-Carries (some why) =
      rw reputation_stage-lost (conclude_unavailable-Carries cfg stages req _ norm s.value _ _ _ _)

-- Where the heuristics raise before the lookup ends, the result of the lookup is lost, a match
-- included: whatever the databases know, a success carries the placeholder for a lookup that timed
-- out, which is not malicious.
pub run_pipeline-Carries_placeholder :
    (cfg : Settings) (stages : Stages) (req : Request) (norm : NormalizeResult)
    → stages.normalize_url req.original_url ≡ normalized norm
    → (stages.check_domain_heuristic (unchained cfg stages req norm).value.final_url).outcome
      ≡ exception
    → (stages.check_domain_heuristic (unchained cfg stages req norm).value.final_url).duration
      < (stage_threat_db cfg stages req
          (unchained cfg stages req norm).value.final_url
          norm.normalized_url).duration
    → Carries
        (timed_out_threat_db_result (unchained cfg stages req norm).value.final_url)
        (run_pipeline cfg stages req)
      × ((timed_out_threat_db_result (unchained cfg stages req norm).value.final_url).is_malicious
          ≡ false)
unfolding run_pipeline after_normalize timed_out_threat_db_result
run_pipeline-Carries_placeholder cfg stages req norm ok raises first = (
  rw ok (after_unchain-Carries cfg stages req norm (unchained cfg stages req norm) raises first _),
  refl,
)
