-- ===== src/Deadline/Tests.antt =====
-- An instance of the theorem.
use lin_clean_be_fastapi.Prelude.{ℕ, ◌+◌, ◌≤◌, max, arith}
use lin_clean_be_fastapi.Deadline.{Task, returned, PipelineDeadline, run}
use lin_clean_be_fastapi.Deadline.Bounds.{run_bounds}

-- A request that began at 5 with a budget of 9000, and a task that takes longer.
abbrev limits : PipelineDeadline
limits = record { started = 5; total = 9000 }

abbrev slow : Task ℕ
slow = record { duration = 50000; outcome = returned 1 }

run_bounds_example :
    (7000 ≤ (run limits 7000 slow 4000 30).0)
    × ((run limits 7000 slow 4000 30).0 ≤ 7000 + max 1000 4000 + 30)
    × ((run limits 7000 slow 4000 30).0 ≤ max (7000 + 1000) (limits.started + limits.total) + 30)
run_bounds_example = run_bounds limits 7000 slow 4000 30 (omega arith)
