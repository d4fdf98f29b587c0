-- ===== src/Pipeline/Tests.antt =====
-- Concrete requests, and instances of the theorems about them.
use lin_clean_be_fastapi.Prelude.{◌≡◌, ◌+◌, max, true, false, refl, inr, arith}
use lin_clean_be_fastapi.Settings.{default_settings}
use lin_clean_be_fastapi.Deadline.{
  exception, timed_out_threat_db_result, run, wait_for, budget, remaining,
}
use lin_clean_be_fastapi.Pipeline.Lost.{Carries, run_pipeline-Carries_placeholder}
use lin_clean_be_fastapi.Samples.{norm, threat_db, heuristic, stages, request}
use lin_clean_be_fastapi.Pipeline.{
  Stages, run_pipeline, unchain_stage, stage_threat_db, unchain_value, deadline,
}
use lin_clean_be_fastapi.Pipeline.Verdicts.{IsSound, run_pipeline-IsSound}
use lin_clean_be_fastapi.Pipeline.Known.{unchained, MarksDanger, run_pipeline-MarksDanger}
use lin_clean_be_fastapi.Pipeline.Clock.{EndsWithin, run_pipeline-EndsWithin}

run_pipeline-IsSound_example :
    IsSound default_settings
      (stages false 3000 4000)
      request
      (run_pipeline default_settings (stages false 3000 4000) request)
run_pipeline-IsSound_example =
    run_pipeline-IsSound default_settings (stages false 3000 4000) request

run_pipeline-EndsWithin_example :
    EndsWithin
      (max 10 20000000 + 3000 + (200 + 200 + 200))
      (run_pipeline default_settings (stages true 3000 4000) request)
run_pipeline-EndsWithin_example =
    run_pipeline-EndsWithin default_settings (stages true 3000 4000) request

run_pipeline-MarksDanger_example :
    MarksDanger default_settings
      (threat_db true)
      (run_pipeline default_settings (stages true 3000 2000) request)
unfolding unchain_stage stage_threat_db run wait_for budget remaining unchain_value deadline
run_pipeline-MarksDanger_example =
    run_pipeline-MarksDanger default_settings (stages true 3000 2000) request norm (threat_db true)
      3000 refl refl (ground arith) (ground arith) (inr (heuristic, refl))

-- Heuristics that raise after a millisecond, and a lookup that would report a match.
abbrev raising : Stages
raising = record (stages true 3000 4000) {
  check_domain_heuristic = λ url. record { duration = 1000; outcome = exception };
}

run_pipeline-Carries_placeholder_example :
    Carries
      (timed_out_threat_db_result (unchained default_settings raising request norm).value.final_url)
      (run_pipeline default_settings raising request)
    × ((timed_out_threat_db_result
          (unchained default_settings raising request norm).value.final_url).is_malicious
        ≡ false)
unfolding unchain_stage stage_threat_db run wait_for budget remaining unchain_value deadline
run_pipeline-Carries_placeholder_example =
    run_pipeline-Carries_placeholder default_settings raising request norm refl refl (ground arith)
