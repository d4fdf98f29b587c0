-- ===== src/Deadline.antt =====
-- app/services/pipeline_deadline.py: the time budget of a request, and the results that stand in for
-- a stage that ran out of it. Times are microseconds; an awaited operation is the time that it takes
-- and what it ends in. `asyncio.wait_for` returns what the operation returns or raises when it ends
-- within the limit. Otherwise it cancels the operation at the limit, waits until that has ended, which
-- may take time, and raises TimeoutError.
pub mod Bounds
mod Tests
use lin_clean_be_fastapi.Prelude.{
  ℕ, ◌+◌, ◌-◌, min, max, true, false, none, some, [], ◌∷◌, Text, text, leb, if◌then◌else◌,
}
use lin_clean_be_fastapi.Settings.{Settings}
use lin_clean_be_fastapi.Schemas.Signals.{fetch_failed}
use lin_clean_be_fastapi.Schemas.Results.{
  UnchainResult, ThreatDbResult, DomainHeuristicResult, ContentAnalysisResult, content_defaults,
}
use lin_clean_be_fastapi.Tld.{registered_domain}

-- What an awaited operation ends in: a value, a TimeoutError, or another exception.
pub data Outcome (A : Type 0) : Type 0 where
  returned : A → Outcome A
  timeout_error : Outcome A
  exception : Outcome A

pub record Task (A : Type 0) : Type 0 where
  pub duration : ℕ
  pub outcome : Outcome A

-- The time that has passed, and the outcome, for an operation that ends `late` after its cancellation.
unfoldable pub wait_for : {A : Type 0} → ℕ → ℕ → Task A → ℕ × Outcome A
wait_for limit late task =
    if leb task.duration limit then (task.duration, task.outcome) else (limit + late, timeout_error)

pub record PipelineDeadline : Type 0 where
  pub started : ℕ
  pub total : ℕ

-- `max(0.0, total - (now - started))`
unfoldable pub remaining : PipelineDeadline → ℕ → ℕ
remaining d now = d.total - (now - d.started)

-- A small positive budget at least, so that an exhausted deadline takes the timeout path.
unfoldable pub budget : PipelineDeadline → ℕ → ℕ → ℕ
unfolding remaining
budget d now stage = max 1000 (min stage (remaining d now))

-- `PipelineDeadline.run` at the time `now`: the time at which it ends, and the outcome, in which
-- `timeout_error` is a PipelineStageTimeoutError. A TimeoutError that the operation raises itself
-- becomes one too.
unfoldable pub run : {A : Type 0} → PipelineDeadline → ℕ → Task A → ℕ → ℕ → ℕ × Outcome A
unfolding wait_for budget
run d now task stage late =
    let (passed, outcome) = wait_for (budget d now stage) late task in (now + passed, outcome)

unfoldable pub timed_out_unchain_result : Text → Text → UnchainResult
timed_out_unchain_result target error = record {
  input_url = target;
  final_url = target;
  hops = [];
  hop_count = 0;
  timed_out = true;
  error = some error;
  signals = error ∷ [];
}

unfoldable pub pipeline_timeout : Text
unfolding text
pipeline_timeout = text "pipeline_timeout"

unfoldable pub timed_out_threat_db_result : Text → ThreatDbResult
unfolding pipeline_timeout
timed_out_threat_db_result final_url = record {
  final_url = final_url;
  is_malicious = false;
  sources_checked = 0;
  gsb = record { checked = false; is_threat = false; matches = []; error = some pipeline_timeout };
  urlhaus = record {
    checked = false;
    is_threat = false;
    match_type = none;
    matched_key = none;
    threat = none;
    tags = [];
    urlhaus_link = none;
    error = some pipeline_timeout;
  };
  threat_types = [];
}

unfoldable pub timed_out_domain_result : Text → DomainHeuristicResult
unfolding pipeline_timeout
timed_out_domain_result final_url = record {
  domain = registered_domain final_url;
  score = 0;
  signals = [];
  rdap = none;
  rdap_error = some pipeline_timeout;
  skipped_reason = none;
}

unfoldable pub timed_out_content_result : Settings → Text → ContentAnalysisResult
unfolding pipeline_timeout text
timed_out_content_result cfg final_url = record (content_defaults final_url false) {
  score = cfg.score_weight_content_fetch_failed;
  signals = fetch_failed ∷ [];
  reason = some (text "콘텐츠 분석 시간이 초과되었습니다.");
  error = some pipeline_timeout;
}
