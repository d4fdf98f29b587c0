-- ===== src/Pipeline/Ends.antt =====
-- The three ways in which `run_pipeline` ends: what holds of each of them holds of its response.
use lin_clean_be_fastapi.Prelude.{
  ℕ, zero, suc, ◌+◌, ◌≤◌, max, Bool, ◌||◌, Option, none, some, Text, arith, leb, inl, inr,
  Bool-cases, ◌≡◌, ◌⊎◌, refl,
}
use lin_clean_be_fastapi.Settings.{Settings}
use lin_clean_be_fastapi.Schemas.Signals.{PipelineStage}
use lin_clean_be_fastapi.Schemas.Results.{
  NormalizeResult, UnchainResult, ThreatDbResult, DomainHeuristicResult, ContentAnalysisResult,
  PipelineStageTimings, PipelineResult,
}
use lin_clean_be_fastapi.Deadline.Bounds.{run_by}
use lin_clean_be_fastapi.Scoring.{total_score, collect_upstream_signals}
use lin_clean_be_fastapi.Unavailability.{unchain_page_unavailable, content_page_unavailable}
use lin_clean_be_fastapi.Pipeline.Known.{unchained}
use lin_clean_be_fastapi.Pipeline.{
  Normalized, normalized, normalization_error, Stages, Step, Request, deadline, unchain_stage,
  reputation_stage, content_stage, pipeline_success, page_unavailable_failure, conclude_unavailable,
  run_unavailable, conclude, run_available, after_unchain, after_normalize, run_pipeline,
}

-- Why a page counts as unavailable at a stage: by the unchaining, or else by the content analysis.
abbrev pub IsBecause : UnchainResult → PipelineStage → Text × Option ℕ → Type 0
IsBecause unchain stage why =
    ((stage ≡ PipelineStage.unchain) × (unchain_page_unavailable unchain ≡ some why))
    ⊎ ((stage ≡ PipelineStage.content_analysis)
        × (unchain_page_unavailable unchain ≡ none)
        × ((content : ContentAnalysisResult) × (content_page_unavailable content ≡ some why)))

module _ (cfg : Settings) (stages : Stages) (req : Request) where
  -- The time that the cancellation of the stage with this number takes.
  abbrev pub late_at : ℕ → ℕ
  late_at zero = stages.late PipelineStage.unchain
  late_at (suc zero) = stages.late PipelineStage.threat_db
  late_at _ = stages.late PipelineStage.content_analysis

  -- A time by which n stages after the normalisation have ended.
  abbrev pub by_stage : ℕ → ℕ
  by_stage zero = req.started + max stages.normalize_duration cfg.pipeline_total_timeout
  by_stage (suc n) = by_stage n + 1000 + late_at n

  unchain_stage-now :
      (s : Step NormalizeResult)
      → req.started ≤ s.now
      → s.now ≤ by_stage 0
      → (req.started ≤ (unchain_stage cfg stages req s).now)
        × ((unchain_stage cfg stages req s).now ≤ by_stage 1)
  unfolding unchain_stage deadline
  unchain_stage-now s lo hi =
      let (a, b) = run_by (deadline cfg stages req) s.now _ _ _ (by_stage 0) lo hi (omega arith) in
      (a, omega arith)

  reputation_stage-now :
      (target : Text) (s : Step UnchainResult)
      → req.started ≤ s.now
      → s.now ≤ by_stage 1
      → (req.started ≤ (reputation_stage cfg stages req target s).now)
        × ((reputation_stage cfg stages req target s).now ≤ by_stage 2)
  unfolding reputation_stage deadline
  reputation_stage-now target s lo hi =
      let (a, b) = run_by (deadline cfg stages req) s.now _ _ _ (by_stage 1) lo hi (omega arith) in
      (a, omega arith)

  content_stage-now :
      (target : Text) (threat : ThreatDbResult) (heuristic : DomainHeuristicResult) (s : Step Bool)
      → req.started ≤ s.now
      → s.now ≤ by_stage 2
      → (content_stage cfg stages req target threat heuristic s).now ≤ by_stage 3
  unfolding content_stage deadline
  content_stage-now target threat heuristic s lo hi =
      elim (Bool-cases (s.value || threat.is_malicious)) [
        | inl e ↦ rw e (omega arith)
        | inr e ↦
            rw e
              (run_by (deadline cfg stages req) s.now
                (stages.analyze_content target (collect_upstream_signals threat heuristic)
                  req.use_ai)
                cfg.pipeline_content_timeout _ (by_stage 2) lo hi (omega arith)).1
      ]

  module _ (P : PipelineResult → Type 0)
      (on_success : (norm : NormalizeResult) (unchain : UnchainResult) (threat : ThreatDbResult)
          (heuristic : DomainHeuristicResult) (s : Step ContentAnalysisResult)
        → stages.normalize_url req.original_url ≡ normalized norm
        → unchain ≡ (unchained cfg stages req norm).value
        → s.now ≤ by_stage 3
        → P (pipeline_success cfg stages req norm unchain threat heuristic s))
      (on_unavailable : (norm : NormalizeResult) (unchain : UnchainResult) (stage : PipelineStage)
          (why : Text × Option ℕ) (now : ℕ) (timings : PipelineStageTimings)
        → stages.normalize_url req.original_url ≡ normalized norm
        → unchain ≡ (unchained cfg stages req norm).value
        → IsBecause unchain stage why
        → now ≤ by_stage 3
        → P (page_unavailable_failure cfg stages req unchain stage why now timings))
      (on_error : (message : Text)
        → stages.normalize_url req.original_url ≡ normalization_error message
        → P (after_normalize cfg stages req (normalization_error message))) where
    conclude_unavailable-ends :
        (norm : NormalizeResult) (unchain : UnchainResult) (threat : ThreatDbResult)
        (heuristic : DomainHeuristicResult) (s : Step ContentAnalysisResult) (stage : PipelineStage)
        (why : Text × Option ℕ)
        → stages.normalize_url req.original_url ≡ normalized norm
        → unchain ≡ (unchained cfg stages req norm).value
        → IsBecause unchain stage why
        → s.now ≤ by_stage 3
        → P (conclude_unavailable cfg stages req norm unchain threat heuristic s stage why)
    unfolding conclude_unavailable
    conclude_unavailable-ends norm unchain threat heuristic s stage why f u b h =
        elim (Bool-cases (
          threat.is_malicious
          || leb cfg.score_caution_threshold (total_score cfg threat heuristic s.value))) [
            | inl e ↦ rw e (on_success norm unchain threat heuristic s f u h)
            | inr e ↦ rw e (on_unavailable norm unchain stage why s.now s.timings f u b h)
          ]

    conclude-ends :
        (norm : NormalizeResult) (unchain : UnchainResult) (threat : ThreatDbResult)
        (heuristic : DomainHeuristicResult) (s : Step ContentAnalysisResult)
        (why : Option (Text × Option ℕ))
        → stages.normalize_url req.original_url ≡ normalized norm
        → unchain ≡ (unchained cfg stages req norm).value
        → unchain_page_unavailable unchain ≡ none
        → content_page_unavailable s.value ≡ why
        → s.now ≤ by_stage 3
        → P (conclude cfg stages req norm unchain threat heuristic s why)
    unfolding conclude
    conclude-ends norm unchain threat heuristic s none f u n w h =
        on_success norm unchain threat heuristic s f u h
    conclude-ends norm unchain threat heuristic s (some why) f u n w h =
        conclude_unavailable-ends norm unchain threat heuristic s PipelineStage.content_analysis why
          f u (inr (refl, n, (s.value, w))) h

    after_unchain-ends :
        (norm : NormalizeResult) (s : Step UnchainResult) (why : Option (Text × Option ℕ))
        → stages.normalize_url req.original_url ≡ normalized norm
        → s.value ≡ (unchained cfg stages req norm).value
        → unchain_page_unavailable s.value ≡ why
        → req.started ≤ s.now
        → s.now ≤ by_stage 1
        → P (after_unchain cfg stages req norm s why)
    unfolding after_unchain run_available run_unavailable
    after_unchain-ends norm s none f u w lo hi =
        let (lo', hi') = reputation_stage-now norm.normalized_url s lo hi in
        conclude-ends norm s.value _ _ _ _ f u w refl (content_stage-now _ _ _ _ lo' hi')
    after_unchain-ends norm s (some why) f u w lo hi =
        let (lo', hi') = reputation_stage-now norm.normalized_url s lo hi in
        conclude_unavailable-ends norm s.value _ _ _ _ _ f u (inl (refl, w)) (omega arith)

    after_normalize-ends :
        (n : Normalized)
        → stages.normalize_url req.original_url ≡ n
        → P (after_normalize cfg stages req n)
    unfolding after_normalize
    after_normalize-ends (normalization_error message) f = on_error message f
    after_normalize-ends (normalized norm) f =
        let (lo, hi) = unchain_stage-now _ (omega arith) (omega arith) in
        after_unchain-ends norm (unchained cfg stages req norm) _ f refl refl lo hi

    pub run_pipeline-ends : P (run_pipeline cfg stages req)
    unfolding run_pipeline
    run_pipeline-ends = after_normalize-ends (stages.normalize_url req.original_url) refl
