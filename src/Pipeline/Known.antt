-- ===== src/Pipeline/Known.antt =====
-- A page that the threat databases know.
use lin_clean_be_fastapi.Prelude.{
  ℕ, ◌+◌, ◌≤◌, ◌<◌, Bool, true, false, ◌≡◌, refl, ap, ◌⊎◌, inl, inr, Option, none, some, Text,
  arith,
}
use lin_clean_be_fastapi.Settings.{Settings}
use lin_clean_be_fastapi.Schemas.Signals.{PipelineStage, danger}
use lin_clean_be_fastapi.Schemas.Results.{
  NormalizeResult, UnchainResult, ThreatDbResult, DomainHeuristicResult, ContentAnalysisResult,
  PipelineResult, succeeded, failed, no_timings,
}
use lin_clean_be_fastapi.Deadline.{returned, Task, PipelineDeadline, run, budget}
use lin_clean_be_fastapi.Scoring.{
  total_score, decide_verdict, skipped_heuristic, page_unavailable_content,
}
use lin_clean_be_fastapi.Content.{skipped_already_danger}
use lin_clean_be_fastapi.Reputation.{run_stage_2_and_3}
use lin_clean_be_fastapi.Pipeline.{
  normalized, Stages, Step, Request, deadline, unchain_stage, stage_threat_db, reputation_value,
  reputation_stage, content_stage, pipeline_success, conclude_unavailable, run_unavailable,
  conclude, run_available, after_unchain, after_normalize, run_pipeline,
}

-- A success with the verdict danger and the highest score, that carries the match, and for which the
-- page was not opened.
abbrev pub MarksDanger : Settings → ThreatDbResult → PipelineResult → Type 0
MarksDanger cfg threat (succeeded r) =
    (r.verdict ≡ danger)
    × (r.score ≡ cfg.score_total_cap)
    × (r.stages.threat_db ≡ threat)
    × (r.stages.content_analysis.fetched ≡ false)
MarksDanger cfg threat (failed r) = ⊥

-- The heuristics do not raise before the lookup has ended.
abbrev pub DoesNotPreempt : ℕ → Task DomainHeuristicResult → Type 0
DoesNotPreempt passed task =
    (passed < task.duration) ⊎ ((h : DomainHeuristicResult) × (task.outcome ≡ returned h))

run_stage_2_and_3-match :
    (target : Text) (threat : ThreatDbResult) (passed : ℕ) (task : Task DomainHeuristicResult)
    → threat.is_malicious ≡ true
    → DoesNotPreempt passed task
    → run_stage_2_and_3 target (record { duration = passed; outcome = returned threat }) task
      ≡ record { duration = passed; outcome = returned (threat, skipped_heuristic target, true) }
unfolding run_stage_2_and_3
run_stage_2_and_3-match target threat passed task bad (inl h) = ground arith
run_stage_2_and_3-match target threat passed task bad (inr (h, e)) = ground arith

run-returned :
    {A : Type 0} (d : PipelineDeadline) (now : ℕ) (task : Task A) (stage late : ℕ)
    → task.duration ≤ budget d now stage
    → (run d now task stage late).1 ≡ task.outcome
unfolding run
run-returned d now task stage late h = ground arith

module _ (cfg : Settings) (stages : Stages) (req : Request) (threat : ThreatDbResult)
    (bad : threat.is_malicious ≡ true) where
  pipeline_success-MarksDanger :
      (norm : NormalizeResult) (unchain : UnchainResult) (heuristic : DomainHeuristicResult)
      (s : Step ContentAnalysisResult)
      → s.value.fetched ≡ false
      → MarksDanger cfg threat (pipeline_success cfg stages req norm unchain threat heuristic s)
  unfolding pipeline_success total_score decide_verdict
  pipeline_success-MarksDanger norm unchain heuristic s h = rw bad (refl, refl, refl, h)

  conclude_unavailable-MarksDanger :
      (norm : NormalizeResult) (unchain : UnchainResult) (heuristic : DomainHeuristicResult)
      (s : Step ContentAnalysisResult) (stage : PipelineStage) (why : Text × Option ℕ)
      → s.value.fetched ≡ false
      → MarksDanger cfg threat
          (conclude_unavailable cfg stages req norm unchain threat heuristic s stage why)
  unfolding conclude_unavailable
  conclude_unavailable-MarksDanger norm unchain heuristic s stage why h =
      simp bad (pipeline_success-MarksDanger norm unchain heuristic s h)

  conclude-MarksDanger :
      (norm : NormalizeResult) (unchain : UnchainResult) (heuristic : DomainHeuristicResult)
      (s : Step ContentAnalysisResult) (why : Option (Text × Option ℕ))
      → s.value.fetched ≡ false
      → MarksDanger cfg threat (conclude cfg stages req norm unchain threat heuristic s why)
  unfolding conclude
  conclude-MarksDanger norm unchain heuristic s none h =
      pipeline_success-MarksDanger norm unchain heuristic s h
  conclude-MarksDanger norm unchain heuristic s (some why) h =
      conclude_unavailable-MarksDanger norm unchain heuristic s PipelineStage.content_analysis why h

  content_stage-value :
      (target : Text) (heuristic : DomainHeuristicResult) (s : Step Bool)
      → s.value ≡ true
      → (content_stage cfg stages req target threat heuristic s).value
        ≡ skipped_already_danger target
  unfolding content_stage
  content_stage-value target heuristic s e = rw e

  module _ (norm : NormalizeResult) (s : Step UnchainResult) (passed : ℕ)
      (lookup : stage_threat_db cfg stages req s.value.final_url norm.normalized_url
        ≡ record { duration = passed; outcome = returned threat })
      (in_time : passed ≤ budget (deadline cfg stages req) s.now cfg.pipeline_reputation_timeout)
      (calm : DoesNotPreempt passed (stages.check_domain_heuristic s.value.final_url)) where
    reputation_stage-value :
        (reputation_stage cfg stages req norm.normalized_url s).value
        ≡ (threat, skipped_heuristic s.value.final_url, true)
    unfolding reputation_stage reputation_value
    reputation_stage-value =
        rw (lookup, run_stage_2_and_3-match s.value.final_url threat passed _ bad calm)
          (ap (reputation_value cfg stages req s.value.final_url) (
            run-returned (deadline cfg stages req) s.now _ cfg.pipeline_reputation_timeout _
              in_time))

    after_unchain-MarksDanger :
        (why : Option (Text × Option ℕ))
        → MarksDanger cfg threat (after_unchain cfg stages req norm s why)
    unfolding after_unchain run_available run_unavailable page_unavailable_content
        skipped_already_danger
    after_unchain-MarksDanger none = rw reputation_stage-value (
        conclude-MarksDanger norm s.value _ _ _ (
          ap (λ (c : ContentAnalysisResult). c.fetched)
            (content_stage-value s.value.final_url _ _ refl)))
    after_unchain-MarksDanger (some why) =
        rw reputation_stage-value (conclude_unavailable-MarksDanger norm s.value _ _ _ _ refl)

-- Where the unchaining of a normalised URL leads.
abbrev pub unchained : Settings → Stages → Request → NormalizeResult → Step UnchainResult
unchained cfg stages req norm = unchain_stage cfg stages req (record {
  now = req.started + stages.normalize_duration;
  timings = record no_timings { normalize = some stages.normalize_duration };
  value = norm;
})

-- A page that the threat databases report as malicious is marked as danger, with the highest score
-- and without opening the page, also where the unchaining found it unavailable. The conditions: the
-- URL is normalised, the lookup answers within the budget of stages 2 and 3, and the heuristics do
-- not raise before it answers.
pub run_pipeline-MarksDanger :
    (cfg : Settings) (stages : Stages) (req : Request) (norm : NormalizeResult)
    (threat : ThreatDbResult) (passed : ℕ)
    → stages.normalize_url req.original_url ≡ normalized norm
    → threat.is_malicious ≡ true
    → stage_threat_db cfg stages req
        (unchained cfg stages req norm).value.final_url
        norm.normalized_url
      ≡ record { duration = passed; outcome = returned threat }
    → passed
      ≤ budget
          (deadline cfg stages req)
          (unchained cfg stages req norm).now
          cfg.pipeline_reputation_timeout
    → DoesNotPreempt passed
        (stages.check_domain_heuristic (unchained cfg stages req norm).value.final_url)
    → MarksDanger cfg threat (run_pipeline cfg stages req)
unfolding run_pipeline after_normalize
run_pipeline-MarksDanger cfg stages req norm threat passed ok bad lookup in_time calm = rw ok (
    after_unchain-MarksDanger cfg stages req threat bad norm (unchained cfg stages req norm) passed
      lookup in_time calm _)
