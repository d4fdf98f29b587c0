-- ===== src/Deadline/Bounds.antt =====
-- How long a stage may take under the deadline.
use lin_clean_be_fastapi.Prelude.{ℕ, ◌+◌, ◌≤◌, max, arith}
use lin_clean_be_fastapi.Deadline.{Task, PipelineDeadline, run}

-- A stage ends no earlier than it began. With the time that its operation takes to end once it is
-- cancelled, it ends within its own budget, and no later than a millisecond after both its start and
-- the deadline: whichever of the two is later.
pub run_bounds :
    {A : Type 0} (d : PipelineDeadline) (now : ℕ) (task : Task A) (stage late : ℕ)
    → d.started ≤ now
    → (now ≤ (run d now task stage late).0)
      × ((run d now task stage late).0 ≤ now + max 1000 stage + late)
      × ((run d now task stage late).0 ≤ max (now + 1000) (d.started + d.total) + late)
unfolding run
run_bounds d now task stage late h = ground arith

-- A stage that begins by a time past the deadline ends a millisecond after it, and the time that its
-- cancellation takes.
pub run_by :
    {A : Type 0} (d : PipelineDeadline) (now : ℕ) (task : Task A) (stage late by : ℕ)
    → d.started ≤ now
    → now ≤ by
    → d.started + d.total ≤ by
    → (d.started ≤ (run d now task stage late).0)
      × ((run d now task stage late).0 ≤ by + 1000 + late)
run_by d now task stage late by lo hi bound = omega (arith, run_bounds d now task stage late lo)
