-- ===== src/Callback/Tests.antt =====
-- Instances of the theorems.
use lin_clean_be_fastapi.Prelude.{
  ℕ, true, ◌==◌, ◌≤◌, ◌≡◌, ◌||◌, Option, none, some, All, if◌then◌else◌,
}
use lin_clean_be_fastapi.Settings.{default_settings}
use lin_clean_be_fastapi.Schemas.Signals.{caution}
use lin_clean_be_fastapi.Schemas.Results.{PipelineSuccess}
use lin_clean_be_fastapi.DomainHeuristic.{raw_score}
use lin_clean_be_fastapi.Samples.{site, norm, unchain, threat_db, heuristic, content}
use lin_clean_be_fastapi.Callback.{callback_reasons, is_accepted, post_analysis_callback}
use lin_clean_be_fastapi.Callback.Weights.{weight_of, IsWeighty, weight_of-callback_reasons}
use lin_clean_be_fastapi.Callback.Retries.{post_analysis_callback-any}

abbrev answer : PipelineSuccess
answer = record {
  analysis_id = site;
  original_url = site;
  final_url = site;
  verdict = caution;
  score = 70;
  summary = none;
  timings = none;
  stages = record {
    normalize = norm;
    unchain = unchain;
    threat_db = threat_db true;
    domain_heuristic = heuristic;
    content_analysis = content;
  };
}

weight_of-callback_reasons_example :
    (weight_of 3 (callback_reasons default_settings answer)
      ≡ raw_score default_settings heuristic.signals)
    × All IsWeighty (callback_reasons default_settings answer)
weight_of-callback_reasons_example = weight_of-callback_reasons default_settings answer

-- The second attempt is answered with 204.
abbrev second : ℕ → Option ℕ
second attempt = if attempt == 2 then some 204 else none

post_analysis_callback-any_example :
    ((post_analysis_callback second).delivered
      ≡ (is_accepted (second 1) || (is_accepted (second 2) || is_accepted (second 3))))
    × ((post_analysis_callback second).requests
        ≡ (if is_accepted (second 1) then 1 else if is_accepted (second 2) then 2 else 3))
    × ((post_analysis_callback second).slept ≤ 1500)
post_analysis_callback-any_example = post_analysis_callback-any second
