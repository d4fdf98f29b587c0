-- ===== src/Pipeline/Clock.antt =====
-- How long a request may take.
use lin_clean_be_fastapi.Prelude.{ℕ, ◌+◌, ◌≤◌, max, none, some, arith}
use lin_clean_be_fastapi.Settings.{Settings}
use lin_clean_be_fastapi.Schemas.Signals.{PipelineStage}
use lin_clean_be_fastapi.Schemas.Results.{PipelineResult, succeeded, failed}
use lin_clean_be_fastapi.Pipeline.{
  Stages, Request, build_timings, pipeline_success, page_unavailable_failure, after_normalize,
  run_pipeline,
}
use lin_clean_be_fastapi.Pipeline.Ends.{run_pipeline-ends}

-- The response carries timings, and their total is at most the bound.
abbrev pub EndsWithin : ℕ → PipelineResult → Type 0
EndsWithin bound (succeeded r) = elim r.timings [ none ↦ ⊥ | some t ↦ t.total_seconds ≤ bound ]
EndsWithin bound (failed r) = elim r.timings [ none ↦ ⊥ | some t ↦ t.total_seconds ≤ bound ]

-- The time in which a request is answered: the total timeout, or the time of the normalisation if that
-- is longer; a millisecond for each stage; and the time that cancelled stages take to end.
abbrev pub answer_time : Settings → Stages → ℕ
answer_time cfg stages =
    max stages.normalize_duration cfg.pipeline_total_timeout
    + 3000
    + (stages.late PipelineStage.unchain
        + stages.late PipelineStage.threat_db
        + stages.late PipelineStage.content_analysis)

-- Every response carries its total time, and that is at most the total timeout, or the time of the
-- normalisation if that is longer, three milliseconds, and the times that the stages take to end once
-- they are cancelled: whatever the stages do, however long they would take without a limit, and whether
-- they return or raise.
pub run_pipeline-EndsWithin :
    (cfg : Settings) (stages : Stages) (req : Request)
    → EndsWithin (answer_time cfg stages) (run_pipeline cfg stages req)
unfolding pipeline_success page_unavailable_failure build_timings after_normalize
run_pipeline-EndsWithin cfg stages req =
    run_pipeline-ends cfg stages req (EndsWithin (answer_time cfg stages))
      (λ norm unchain threat heuristic s f u h. omega arith)
      (λ norm unchain stage why now timings f u b h. omega arith) (λ message e. omega arith)
