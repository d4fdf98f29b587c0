-- ===== src/Reputation/Tests.antt =====
-- Instances of the theorems.
use lin_clean_be_fastapi.Prelude.{◌≡◌, true}
use lin_clean_be_fastapi.Deadline.{returned}
use lin_clean_be_fastapi.Samples.{site, threat_db, heuristic}
use lin_clean_be_fastapi.Reputation.{run_stage_2_and_3}
use lin_clean_be_fastapi.Reputation.Order.{together, run_stage_2_and_3-eq-together}

run_stage_2_and_3-eq-together_example :
    (run_stage_2_and_3 site
      (record { duration = 30; outcome = returned (threat_db true) })
      (record { duration = 20; outcome = returned heuristic })).outcome
    ≡ returned (together site (threat_db true) heuristic)
run_stage_2_and_3-eq-together_example =
    run_stage_2_and_3-eq-together site (threat_db true) heuristic 30 20
