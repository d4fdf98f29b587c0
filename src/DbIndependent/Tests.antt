-- ===== src/DbIndependent/Tests.antt =====
-- Concrete requests, and instances of the theorems about them.
use lin_clean_be_fastapi.Prelude.{◌≡◌, ◌≤◌, refl, true, false, text, [], ◌∷◌, map, mem_text, ◌||◌}
use lin_clean_be_fastapi.Settings.{default_settings}
use lin_clean_be_fastapi.Schemas.Signals.{domain_code}
use lin_clean_be_fastapi.Schemas.Results.{UnchainResult}
use lin_clean_be_fastapi.Scoring
use lin_clean_be_fastapi.Samples.{threat_db, heuristic, unchain, content, stages, request}
use lin_clean_be_fastapi.DbIndependent
use lin_clean_be_fastapi.DbIndependent.{run_db_independent_pipeline, collect_db_independent_signals}
use lin_clean_be_fastapi.DbIndependent.Verdicts.{IsSound, run_db_independent_pipeline-IsSound}
use lin_clean_be_fastapi.DbIndependent.Signals.{
  has_code, is_distinct, collect_db_independent_signals-IsUnion,
}
use lin_clean_be_fastapi.DbIndependent.Agreement.{
  severity, full_verdict, independent_verdict, total_score-agree, total_score-raised,
}

run_db_independent_pipeline-IsSound_example :
    IsSound default_settings
      (stages false 3000 4000)
      request
      (run_db_independent_pipeline default_settings (stages false 3000 4000) request)
run_db_independent_pipeline-IsSound_example =
    run_db_independent_pipeline-IsSound default_settings (stages false 3000 4000) request

total_score-agree_example :
    (Scoring.total_score default_settings (threat_db false) heuristic content
      ≡ DbIndependent.total_score default_settings heuristic content)
    × (full_verdict default_settings (threat_db false) heuristic content
        ≡ independent_verdict default_settings heuristic content)
total_score-agree_example =
    total_score-agree default_settings (threat_db false) heuristic content refl refl refl

total_score-raised_example :
    (DbIndependent.total_score default_settings heuristic content
      ≤ Scoring.total_score default_settings (threat_db true) heuristic content)
    × (severity (independent_verdict default_settings heuristic content)
        ≤ severity (full_verdict default_settings (threat_db true) heuristic content))
total_score-raised_example = total_score-raised default_settings (threat_db true) heuristic content

abbrev looping : UnchainResult
looping = record unchain { signals = text "redirect_loop" ∷ text "redirect_loop" ∷ [] }

collect_db_independent_signals-IsUnion_example :
    (mem_text (text "REDIRECT_LOOP") (collect_db_independent_signals heuristic looping) ≡ (
      mem_text (text "REDIRECT_LOOP") (map domain_code heuristic.signals)
      || has_code (text "REDIRECT_LOOP") looping.signals))
    × (is_distinct (collect_db_independent_signals heuristic looping) ≡ true)
unfolding domain_code mem_text text
collect_db_independent_signals-IsUnion_example =
    collect_db_independent_signals-IsUnion heuristic looping (text "REDIRECT_LOOP") refl
