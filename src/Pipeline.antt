-- ===== src/Pipeline.antt =====
-- app/services/pipeline.py: `run_pipeline`, from the URL of a request to the response. The stages
-- that other parts implement are the fields of `Stages`; each takes time and may fail. A stage is a
-- step on the clock and on the timings, which a task writes when it ends or is cancelled. Logging is
-- left out, and so is a cancellation of the request itself.
pub mod Ends
pub mod Verdicts
pub mod Known
pub mod Lost
pub mod Clock
mod Tests
use lin_clean_be_fastapi.Prelude.{
  ℕ, ◌+◌, ◌-◌, min, Bool, true, false, ◌&&◌, ◌||◌, not, Option, none, some, List, Text, text,
  is_empty, text_eq, leb, if◌then◌else◌,
}
use lin_clean_be_fastapi.Settings.{Settings}
use lin_clean_be_fastapi.Schemas.Signals.{PipelineStage}
use lin_clean_be_fastapi.Schemas.Results.{
  NormalizeResult, UnchainResult, ThreatDbResult, DomainHeuristicResult, ContentAnalysisResult,
  PipelineStageTimings, no_timings, PipelineTimings, PipelineSuccess, PipelineFailure,
  PipelineResult, succeeded, failed,
}
use lin_clean_be_fastapi.Deadline.{
  Outcome, returned, timeout_error, exception, Task, PipelineDeadline, run,
  timed_out_unchain_result, pipeline_timeout, timed_out_threat_db_result, timed_out_domain_result,
  timed_out_content_result,
}
use lin_clean_be_fastapi.Scoring.{
  collect_upstream_signals, augment_heuristic_with_redirect_signals, total_score, decide_verdict,
  page_unavailable_content,
}
use lin_clean_be_fastapi.Content.{skipped_already_danger}
use lin_clean_be_fastapi.Summary.{build_analysis_summary}
use lin_clean_be_fastapi.Unavailability.{
  unchain_page_unavailable, content_page_unavailable, page_unavailable_code,
}
use lin_clean_be_fastapi.Reputation.{Reputation, run_stage_2_and_3}

-- `normalize_url` returns a result or raises NormalizationError with a message.
pub data Normalized : Type 0 where
  normalized : NormalizeResult → Normalized
  normalization_error : Text → Normalized

pub record Stages : Type 0 where
  pub normalize_url : Text → Normalized
  pub normalize_duration : ℕ
  pub unchain_url : Text → Bool → Task UnchainResult
  pub check_threat_db : Text → Option Text → Task ThreatDbResult
  pub check_domain_heuristic : Text → Task DomainHeuristicResult
  pub analyze_content : Text → List Text → Bool → Task ContentAnalysisResult
  -- how long after its cancellation a stage has ended; stages 2 and 3 are the stage `threat_db`
  pub late : PipelineStage → ℕ

-- What a stage leaves: the time, the timings and its result.
pub record Step (A : Type 0) : Type 0 where
  pub now : ℕ
  pub timings : PipelineStageTimings
  pub value : A

-- The arguments of `run_pipeline`, and the reading of the clock at its start.
pub record Request : Type 0 where
  pub analysis_id : Text
  pub original_url : Text
  pub use_ai : Bool
  pub started : ℕ

-- `_build_timings`
unfoldable pub build_timings : ℕ → ℕ → PipelineStageTimings → PipelineTimings
build_timings started now timings = record { total_seconds = now - started; stages = timings }

module _ (cfg : Settings) (stages : Stages) (req : Request) where
  unfoldable pub deadline : PipelineDeadline
  deadline = record { started = req.started; total = cfg.pipeline_total_timeout }

  unfoldable pub unchain_value : Text → Outcome UnchainResult → UnchainResult
  unchain_value target (returned unchain) = unchain
  unchain_value target timeout_error = timed_out_unchain_result target pipeline_timeout
  unchain_value target exception = timed_out_unchain_result target (text "stage_error")

  -- Stage 1: the unchaining, under its budget.
  unfoldable pub unchain_stage : Step NormalizeResult → Step UnchainResult
  unchain_stage s =
      let norm = s.value in
      let (ended, outcome) =
        run deadline s.now (stages.unchain_url norm.normalized_url norm.scheme_was_added)
          cfg.pipeline_unchain_timeout (stages.late PipelineStage.unchain) in
      record {
        now = ended;
        timings = record (s.timings) { unchain = some (ended - s.now) };
        value = unchain_value norm.normalized_url outcome;
      }

  -- `_stage_threat_db`: the URL before the redirects is looked up too, where it differs.
  unfoldable pub stage_threat_db : Text → Text → Task ThreatDbResult
  stage_threat_db final_url original_url =
      if not (is_empty original_url) && not (text_eq original_url final_url)
      then stages.check_threat_db final_url (some original_url)
      else stages.check_threat_db final_url none

  unfoldable pub reputation_value : Text → Outcome Reputation → Reputation
  reputation_value final_url (returned found) = found
  reputation_value final_url timeout_error =
      (timed_out_threat_db_result final_url, timed_out_domain_result final_url, false)
  reputation_value final_url exception =
      (timed_out_threat_db_result final_url, timed_out_domain_result final_url, false)

  -- Stages 2 and 3 under their common budget; a task that is cut off is timed up to there.
  unfoldable pub reputation_stage : Text → Step UnchainResult → Step Reputation
  reputation_stage normalized_url s =
      let final_url : Text = s.value.final_url in
      let threat = stage_threat_db final_url normalized_url in
      let heuristic = stages.check_domain_heuristic final_url in
      let (ended, outcome) =
        run deadline s.now (run_stage_2_and_3 final_url threat heuristic)
          cfg.pipeline_reputation_timeout (stages.late PipelineStage.threat_db) in
      record {
        now = ended;
        timings = record (s.timings) {
          threat_db = some (min threat.duration (ended - s.now));
          domain_heuristic = some (min heuristic.duration (ended - s.now));
        };
        value = reputation_value final_url outcome;
      }

  unfoldable pub content_value : Text → Outcome ContentAnalysisResult → ContentAnalysisResult
  content_value final_url (returned content) = content
  content_value final_url timeout_error = timed_out_content_result cfg final_url
  content_value final_url exception = timed_out_content_result cfg final_url

  -- Stage 4, unless a match makes the page not worth opening.
  unfoldable pub content_stage :
      Text → ThreatDbResult → DomainHeuristicResult → Step Bool → Step ContentAnalysisResult
  content_stage final_url threat heuristic s =
      if s.value || threat.is_malicious
      then record {
        now = s.now;
        timings = record (s.timings) { content_analysis = some 0 };
        value = skipped_already_danger final_url;
      }
      else (let (ended, outcome) =
            run deadline s.now
              (stages.analyze_content final_url (collect_upstream_signals threat heuristic)
                req.use_ai)
              cfg.pipeline_content_timeout (stages.late PipelineStage.content_analysis) in
          record {
            now = ended;
            timings = record (s.timings) { content_analysis = some (ended - s.now) };
            value = content_value final_url outcome;
          })

  -- `_pipeline_success`, with the score and the verdict that its callers compute.
  unfoldable pub pipeline_success :
      NormalizeResult
      → UnchainResult
      → ThreatDbResult
      → DomainHeuristicResult
      → Step ContentAnalysisResult
      → PipelineResult
  unfolding build_timings
  pipeline_success norm unchain threat heuristic s =
      let content = s.value in
      let score = total_score cfg threat heuristic content in
      let verdict = decide_verdict cfg score threat in
      succeeded (record {
        analysis_id = req.analysis_id;
        original_url = req.original_url;
        final_url = unchain.final_url;
        verdict = verdict;
        score = score;
        summary = some (build_analysis_summary verdict threat heuristic content);
        timings = some (build_timings req.started s.now s.timings);
        stages = record {
          normalize = norm;
          unchain = unchain;
          threat_db = threat;
          domain_heuristic = heuristic;
          content_analysis = content;
        };
      })

  -- `_page_unavailable_failure`
  unfoldable pub page_unavailable_failure :
      UnchainResult → PipelineStage → Text × Option ℕ → ℕ → PipelineStageTimings → PipelineResult
  unfolding build_timings
  page_unavailable_failure unchain stage (message, status) now timings = failed (record {
    analysis_id = req.analysis_id;
    original_url = req.original_url;
    final_url = some unchain.final_url;
    failed_at_stage = stage;
    error = message;
    error_code = some page_unavailable_code;
    status_code = status;
    timings = some (build_timings req.started now timings);
  })

  -- An unreachable page still gets a verdict where the other stages found a risk.
  unfoldable pub conclude_unavailable :
      NormalizeResult
      → UnchainResult
      → ThreatDbResult
      → DomainHeuristicResult
      → Step ContentAnalysisResult
      → PipelineStage
      → Text × Option ℕ
      → PipelineResult
  conclude_unavailable norm unchain threat heuristic s stage unavailable =
      if threat.is_malicious
        || leb cfg.score_caution_threshold (total_score cfg threat heuristic s.value)
      then pipeline_success norm unchain threat heuristic s
      else page_unavailable_failure unchain stage unavailable s.now s.timings

  -- The unchaining has shown that the page is unavailable.
  unfoldable pub run_unavailable :
      NormalizeResult → Step UnchainResult → Text × Option ℕ → PipelineResult
  run_unavailable norm s (message, status) =
      let unchain = s.value in
      let r = reputation_stage norm.normalized_url s in
      let (threat, heuristic, _) = r.value in
      let augmented = augment_heuristic_with_redirect_signals cfg heuristic unchain in
      conclude_unavailable norm unchain threat augmented
        (record {
          now = r.now;
          timings = r.timings;
          value = page_unavailable_content unchain.final_url message status;
        })
        PipelineStage.unchain (message, status)

  unfoldable pub conclude :
      NormalizeResult
      → UnchainResult
      → ThreatDbResult
      → DomainHeuristicResult
      → Step ContentAnalysisResult
      → Option (Text × Option ℕ)
      → PipelineResult
  conclude norm unchain threat heuristic s none = pipeline_success norm unchain threat heuristic s
  conclude norm unchain threat heuristic s (some unavailable) =
      conclude_unavailable norm unchain threat heuristic s PipelineStage.content_analysis
        unavailable

  -- The other stages, for a page that may be there.
  unfoldable pub run_available : NormalizeResult → Step UnchainResult → PipelineResult
  run_available norm s =
      let unchain = s.value in
      let r = reputation_stage norm.normalized_url s in
      let (threat, heuristic, short_circuited) = r.value in
      let augmented = augment_heuristic_with_redirect_signals cfg heuristic unchain in
      let c =
        content_stage unchain.final_url threat augmented
          (record { now = r.now; timings = r.timings; value = short_circuited }) in
      conclude norm unchain threat augmented c (content_page_unavailable c.value)

  unfoldable pub after_unchain :
      NormalizeResult → Step UnchainResult → Option (Text × Option ℕ) → PipelineResult
  after_unchain norm s none = run_available norm s
  after_unchain norm s (some unavailable) = run_unavailable norm s unavailable

  unfoldable pub after_normalize : Normalized → PipelineResult
  after_normalize (normalization_error message) = failed (record {
    analysis_id = req.analysis_id;
    original_url = req.original_url;
    final_url = none;
    failed_at_stage = PipelineStage.normalize;
    error = message;
    error_code = none;
    status_code = none;
    timings = some (
        build_timings req.started (req.started + stages.normalize_duration)
          (record no_timings { normalize = some stages.normalize_duration }));
  })
  after_normalize (normalized norm) =
      let s = unchain_stage (record {
        now = req.started + stages.normalize_duration;
        timings = record no_timings { normalize = some stages.normalize_duration };
        value = norm;
      }) in
      after_unchain norm s (unchain_page_unavailable s.value)

  unfoldable pub run_pipeline : PipelineResult
  run_pipeline = after_normalize (stages.normalize_url req.original_url)
