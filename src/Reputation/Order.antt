-- ===== src/Reputation/Order.antt =====
-- The order in which the two tasks end.
use lin_clean_be_fastapi.Prelude.{ℕ, true, false, Text, ◌≡◌, arith, if◌then◌else◌}
use lin_clean_be_fastapi.Schemas.Results.{ThreatDbResult, DomainHeuristicResult}
use lin_clean_be_fastapi.Deadline.{returned}
use lin_clean_be_fastapi.Scoring.{skipped_heuristic}
use lin_clean_be_fastapi.Reputation.{run_stage_2_and_3, Reputation}

-- What the two results give together, whichever came first: a match replaces the heuristics by the
-- placeholder and cuts the analysis short.
abbrev pub together : Text → ThreatDbResult → DomainHeuristicResult → Reputation
together final_url threat heuristic =
    if threat.is_malicious
    then (threat, skipped_heuristic final_url, true)
    else (threat, heuristic, false)

-- When both tasks return, the response does not depend on which of them ends first.
pub run_stage_2_and_3-eq-together :
    (final_url : Text) (threat : ThreatDbResult) (heuristic : DomainHeuristicResult) (m n : ℕ)
    → (run_stage_2_and_3 final_url
        (record { duration = m; outcome = returned threat })
        (record { duration = n; outcome = returned heuristic })).outcome
      ≡ returned (together final_url threat heuristic)
unfolding run_stage_2_and_3
run_stage_2_and_3-eq-together final_url threat heuristic m n = ground arith
