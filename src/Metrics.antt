-- ===== src/Metrics.antt =====
-- app/services/evaluation/metrics.py: the confusion counts of a list of verdicts. The sets of
-- positive verdicts are Boolean tests. The ratios are floating-point numbers and are left out.
pub mod Counts
mod Tests
use lin_clean_be_fastapi.Prelude.{
  ℕ, ◌+◌, Bool, true, false, ◌&&◌, not, List, [], ◌∷◌, length, if◌then◌else◌,
}
use lin_clean_be_fastapi.Schemas.Signals.{Verdict, safe, caution, danger}

pub record VerdictCase : Type 0 where
  pub expected : Verdict
  pub predicted : Verdict

pub record Tally : Type 0 where
  pub true_positive : ℕ
  pub false_positive : ℕ
  pub true_negative : ℕ
  pub false_negative : ℕ

abbrev pub verdict_eq : Verdict → Verdict → Bool
verdict_eq safe safe = true
verdict_eq caution caution = true
verdict_eq danger danger = true
verdict_eq _ _ = false

-- The branches of the loop, in their order.
unfoldable pub count : Tally → Bool → Bool → Tally
count t expected_positive predicted_positive =
    if expected_positive && predicted_positive
    then record t { true_positive = t.true_positive + 1 }
    else if not expected_positive && predicted_positive
    then record t { false_positive = t.false_positive + 1 }
    else if expected_positive && not predicted_positive
    then record t { false_negative = t.false_negative + 1 }
    else record t { true_negative = t.true_negative + 1 }

abbrev pub no_tally : Tally
no_tally = record { true_positive = 0; false_positive = 0; true_negative = 0; false_negative = 0 }

-- The counts of the metrics.
pub record VerdictMetrics : Type 0 where
  pub total : ℕ
  pub correct : ℕ
  pub tally : Tally
  pub open tally use *

unfoldable pub count_correct : List VerdictCase → ℕ
count_correct [] = 0
count_correct (row ∷ rows) =
    (if verdict_eq row.expected row.predicted then 1 else 0) + count_correct rows

module _ (positive_expected positive_predicted : Verdict → Bool) where
  -- The loop over the rows.
  unfoldable pub tally_rows : Tally → List VerdictCase → Tally
  tally_rows t [] = t
  tally_rows t (row ∷ rows) =
      tally_rows (count t (positive_expected row.expected) (positive_predicted row.predicted)) rows

  unfoldable pub compute_verdict_metrics : List VerdictCase → VerdictMetrics
  compute_verdict_metrics rows = record {
    total = length rows;
    correct = count_correct rows;
    tally = tally_rows no_tally rows;
  }
