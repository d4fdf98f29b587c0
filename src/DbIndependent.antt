-- ===== src/DbIndependent.antt =====
-- app/services/db_independent_pipeline.py: the pipeline that judges a URL without the threat
-- databases. Its stages are those of the full pipeline, but for the lookup, and it asks the content
-- analysis with the default `use_ai`. It has its own score, verdict and list of signals.
pub mod Verdicts
pub mod Signals
pub mod Agreement
mod Tests
use lin_clean_be_fastapi.Prelude.{
  ℕ, ◌+◌, ◌-◌, min, Bool, true, false, ◌||◌, Option, none, some, List, [], ◌∷◌, ◌++◌, map, Text,
  text, text_eq, starts_with, mem_text, leb, if◌then◌else◌,
}
use lin_clean_be_fastapi.Settings.{Settings}
use lin_clean_be_fastapi.Schemas.Signals.{
  PipelineStage, Verdict, safe, caution, danger, domain_code, redirect_cross_origin,
}
use lin_clean_be_fastapi.Schemas.Results.{
  NormalizeResult, UnchainResult, DomainHeuristicResult, ContentAnalysisResult,
  PipelineStageTimings, no_timings, PipelineTimings, DbIndependentPipelineSuccess,
  DbIndependentPipelineFailure, DbIndependentPipelineResult, succeeded, failed,
}
use lin_clean_be_fastapi.Deadline.{
  Outcome, returned, timeout_error, exception, PipelineDeadline, run, timed_out_unchain_result,
  pipeline_timeout, timed_out_domain_result, timed_out_content_result,
}
use lin_clean_be_fastapi.Scoring.{augment_heuristic_with_redirect_signals, page_unavailable_content}
use lin_clean_be_fastapi.Unavailability.{
  unchain_page_unavailable, content_page_unavailable, page_unavailable_code,
}
use lin_clean_be_fastapi.Pipeline.{
  Normalized, normalized, normalization_error, Stages, Step, Request, build_timings,
}

-- `_redirect_signal_code`
unfoldable pub redirect_signal_code : Text → Option Text
unfolding text text_eq starts_with domain_code
redirect_signal_code raw =
    if starts_with (text "cross_origin:") raw
    then some (domain_code redirect_cross_origin)
    else if text_eq raw (text "scheme_downgrade")
    then some (text "REDIRECT_SCHEME_DOWNGRADE")
    else if text_eq raw (text "redirect_loop")
    then some (text "REDIRECT_LOOP")
    else if text_eq raw (text "max_hops_reached")
    then some (text "REDIRECT_MAX_HOPS_REACHED")
    else if starts_with (text "unsafe_scheme:") raw
    then some (text "REDIRECT_UNSAFE_SCHEME")
    else if text_eq raw (text "ssrf_blocked")
    then some (text "REDIRECT_SSRF_BLOCKED")
    else none

unfoldable pub add_code : List Text → Option Text → List Text
add_code codes none = codes
add_code codes (some code) = if mem_text code codes then codes else codes ++ code ∷ []

-- The loop over the signals of the chain.
unfoldable pub add_codes : List Text → List Text → List Text
add_codes codes [] = codes
add_codes codes (raw ∷ rest) = add_codes (add_code codes (redirect_signal_code raw)) rest

unfoldable pub collect_db_independent_signals : DomainHeuristicResult → UnchainResult → List Text
collect_db_independent_signals heuristic unchain =
    add_codes (map domain_code heuristic.signals) unchain.signals

module _ (cfg : Settings) where
  unfoldable pub decide_verdict : ℕ → Verdict
  decide_verdict score =
      if leb cfg.score_danger_threshold score
      then danger
      else if leb cfg.score_caution_threshold score
      then caution
      else safe

  unfoldable pub total_score : DomainHeuristicResult → ContentAnalysisResult → ℕ
  total_score heuristic content = min (heuristic.score + content.score) cfg.score_total_cap

module _ (cfg : Settings) (stages : Stages) (req : Request) where
  unfoldable pub deadline : PipelineDeadline
  deadline = record { started = req.started; total = cfg.pipeline_total_timeout }

  unfoldable pub unchain_value : Text → Outcome UnchainResult → UnchainResult
  unchain_value target (returned unchain) = unchain
  unchain_value target timeout_error = timed_out_unchain_result target pipeline_timeout
  unchain_value target exception = timed_out_unchain_result target (text "stage_error")

  unfoldable pub unchain_stage : Step NormalizeResult → Step UnchainResult
  unchain_stage s =
      let norm = s.value in
      let (ended, outcome) =
        run deadline s.now (stages.unchain_url norm.normalized_url norm.scheme_was_added)
          cfg.pipeline_unchain_timeout (stages.late PipelineStage.unchain) in
      record {
        now = ended;
        timings = record (s.timings) { unchain = some (ended - s.now) };
        value = unchain_value norm.normalized_url outcome;
      }

  unfoldable pub heuristic_value : Text → Outcome DomainHeuristicResult → DomainHeuristicResult
  heuristic_value final_url (returned heuristic) = heuristic
  heuristic_value final_url timeout_error = timed_out_domain_result final_url
  heuristic_value final_url exception = timed_out_domain_result final_url

  -- The heuristics of the unchained URL, with the signal of its redirects.
  unfoldable pub heuristic_stage : Step UnchainResult → Step DomainHeuristicResult
  heuristic_stage s =
      let (ended, outcome) =
        run deadline s.now (stages.check_domain_heuristic s.value.final_url)
          cfg.pipeline_domain_timeout (stages.late PipelineStage.domain_heuristic) in
      record {
        now = ended;
        timings = record (s.timings) { domain_heuristic = some (ended - s.now) };
        value =
            augment_heuristic_with_redirect_signals cfg (heuristic_value s.value.final_url outcome)
              s.value;
      }

  unfoldable pub content_value : Text → Outcome ContentAnalysisResult → ContentAnalysisResult
  content_value final_url (returned content) = content
  content_value final_url timeout_error = timed_out_content_result cfg final_url
  content_value final_url exception = timed_out_content_result cfg final_url

  unfoldable pub content_stage :
      UnchainResult → Step DomainHeuristicResult → Step ContentAnalysisResult
  content_stage unchain s =
      let (ended, outcome) =
        run deadline s.now
          (stages.analyze_content unchain.final_url (collect_db_independent_signals s.value unchain)
            true)
          cfg.pipeline_content_timeout (stages.late PipelineStage.content_analysis) in
      record {
        now = ended;
        timings = record (s.timings) { content_analysis = some (ended - s.now) };
        value = content_value unchain.final_url outcome;
      }

  unfoldable pub success :
      NormalizeResult
      → UnchainResult
      → DomainHeuristicResult
      → Step ContentAnalysisResult
      → DbIndependentPipelineResult
  unfolding build_timings
  success norm unchain heuristic s =
      let score = total_score cfg heuristic s.value in
      succeeded (record {
        analysis_id = req.analysis_id;
        original_url = req.original_url;
        final_url = unchain.final_url;
        verdict = decide_verdict cfg score;
        score = score;
        timings = some (build_timings req.started s.now s.timings);
        stages = record {
          normalize = norm;
          unchain = unchain;
          domain_heuristic = heuristic;
          content_analysis = s.value;
        };
      })

  unfoldable pub page_unavailable_failure :
      UnchainResult
      → PipelineStage
      → Text × Option ℕ
      → ℕ
      → PipelineStageTimings
      → DbIndependentPipelineResult
  unfolding build_timings
  page_unavailable_failure unchain stage (message, status) now timings = failed (record {
    analysis_id = req.analysis_id;
    original_url = req.original_url;
    final_url = some unchain.final_url;
    failed_at_stage = stage;
    error = message;
    error_code = some page_unavailable_code;
    status_code = status;
    timings = some (build_timings req.started now timings);
  })

  -- The two blocks for an unavailable page: a verdict from the caution threshold on.
  unfoldable pub conclude_unavailable :
      NormalizeResult
      → UnchainResult
      → DomainHeuristicResult
      → Step ContentAnalysisResult
      → PipelineStage
      → Text × Option ℕ
      → DbIndependentPipelineResult
  conclude_unavailable norm unchain heuristic s stage unavailable =
      if leb cfg.score_caution_threshold (total_score cfg heuristic s.value)
      then success norm unchain heuristic s
      else page_unavailable_failure unchain stage unavailable s.now s.timings

  unfoldable pub conclude :
      NormalizeResult
      → UnchainResult
      → DomainHeuristicResult
      → Step ContentAnalysisResult
      → Option (Text × Option ℕ)
      → DbIndependentPipelineResult
  conclude norm unchain heuristic s none = success norm unchain heuristic s
  conclude norm unchain heuristic s (some unavailable) =
      conclude_unavailable norm unchain heuristic s PipelineStage.content_analysis unavailable

  unfoldable pub after_unchain :
      NormalizeResult → Step UnchainResult → Option (Text × Option ℕ) → DbIndependentPipelineResult
  after_unchain norm s none =
      let h = heuristic_stage s in
      let c = content_stage s.value h in
      conclude norm s.value h.value c (content_page_unavailable c.value)
  after_unchain norm s (some (message, status)) =
      let h = heuristic_stage s in
      conclude_unavailable norm s.value h.value
        (record {
          now = h.now;
          timings = h.timings;
          value = page_unavailable_content s.value.final_url message status;
        })
        PipelineStage.unchain (message, status)

  unfoldable pub after_normalize : Normalized → DbIndependentPipelineResult
  after_normalize (normalization_error message) = failed (record {
    analysis_id = req.analysis_id;
    original_url = req.original_url;
    final_url = none;
    failed_at_stage = PipelineStage.normalize;
    error = message;
    error_code = none;
    status_code = none;
    timings = some (
        build_timings req.started (req.started + stages.normalize_duration)
          (record no_timings { normalize = some stages.normalize_duration }));
  })
  after_normalize (normalized norm) =
      let s = unchain_stage (record {
        now = req.started + stages.normalize_duration;
        timings = record no_timings { normalize = some stages.normalize_duration };
        value = norm;
      }) in
      after_unchain norm s (unchain_page_unavailable s.value)

  unfoldable pub run_db_independent_pipeline : DbIndependentPipelineResult
  run_db_independent_pipeline = after_normalize (stages.normalize_url req.original_url)
