-- ===== src/Reputation.antt =====
-- app/services/pipeline.py, stages 2 and 3: the lookup in the threat databases and the domain
-- heuristics as two tasks on one event loop. A task is the time that it takes and what it ends in;
-- the first to end decides how `_run_stage_2_and_3` goes on. Tasks that end at the same time are both
-- in the set `done`. Heuristics that a match cancels are taken to end at once.
pub mod Order
mod Tests
use lin_clean_be_fastapi.Prelude.{ℕ, Bool, true, false, Text, leb, ◌==◌, if◌then◌else◌}
use lin_clean_be_fastapi.Schemas.Results.{ThreatDbResult, DomainHeuristicResult}
use lin_clean_be_fastapi.Deadline.{Outcome, returned, timeout_error, exception, Task}
use lin_clean_be_fastapi.Scoring.{skipped_heuristic}

-- Both results, and whether a match cut the heuristics short.
abbrev pub Reputation : Type 0
Reputation = ThreatDbResult × DomainHeuristicResult × Bool

-- `return threat, heuristic, False` once the heuristics have ended.
unfoldable pub with_threat : ThreatDbResult → Outcome DomainHeuristicResult → Outcome Reputation
with_threat threat (returned heuristic) = returned (threat, heuristic, false)
with_threat threat timeout_error = timeout_error
with_threat threat exception = exception

-- The cancelled heuristics are awaited: had they ended at the same time, an exception of theirs
-- would surface, since only CancelledError is suppressed.
unfoldable pub after_cancel :
    Text → ThreatDbResult → Bool → Outcome DomainHeuristicResult → Outcome Reputation
after_cancel final_url threat both_done (returned h) =
    returned (threat, skipped_heuristic final_url, true)
after_cancel final_url threat both_done timeout_error =
    if both_done then timeout_error else returned (threat, skipped_heuristic final_url, true)
after_cancel final_url threat both_done exception =
    if both_done then exception else returned (threat, skipped_heuristic final_url, true)

-- `threat_task in done`, with the time that the lookup took.
unfoldable pub threat_first :
    Text → ℕ → Outcome ThreatDbResult → Task DomainHeuristicResult → Task Reputation
unfolding with_threat after_cancel
threat_first final_url passed (returned threat) heuristic =
    if threat.is_malicious
    then record {
      duration = passed;
      outcome = after_cancel final_url threat (heuristic.duration == passed) heuristic.outcome;
    }
    else record { duration = heuristic.duration; outcome = with_threat threat heuristic.outcome }
threat_first final_url passed timeout_error heuristic = record {
  duration = passed;
  outcome = timeout_error;
}
threat_first final_url passed exception heuristic = record {
  duration = passed;
  outcome = exception;
}

-- The lookup ends after the heuristics: a match replaces them by the placeholder.
unfoldable pub with_heuristic :
    Text → DomainHeuristicResult → Outcome ThreatDbResult → Outcome Reputation
with_heuristic final_url heuristic (returned threat) =
    if threat.is_malicious
    then returned (threat, skipped_heuristic final_url, true)
    else returned (threat, heuristic, false)
with_heuristic final_url heuristic timeout_error = timeout_error
with_heuristic final_url heuristic exception = exception

unfoldable pub heuristic_first :
    Text → ℕ → Outcome DomainHeuristicResult → Task ThreatDbResult → Task Reputation
unfolding with_heuristic
heuristic_first final_url passed (returned heuristic) threat = record {
  duration = threat.duration;
  outcome = with_heuristic final_url heuristic threat.outcome;
}
heuristic_first final_url passed timeout_error threat = record {
  duration = passed;
  outcome = timeout_error;
}
heuristic_first final_url passed exception threat = record {
  duration = passed;
  outcome = exception;
}

-- `_run_stage_2_and_3`
unfoldable pub run_stage_2_and_3 :
    Text → Task ThreatDbResult → Task DomainHeuristicResult → Task Reputation
unfolding threat_first heuristic_first
run_stage_2_and_3 final_url threat heuristic =
    if leb threat.duration heuristic.duration
    then threat_first final_url threat.duration threat.outcome heuristic
    else heuristic_first final_url heuristic.duration heuristic.outcome threat
