-- ===== src/Metrics/Tests.antt =====
-- An instance of the theorem.
use lin_clean_be_fastapi.Prelude.{◌+◌, ◌≡◌, Bool, List, [], ◌∷◌}
use lin_clean_be_fastapi.Schemas.Signals.{Verdict, safe, danger}
use lin_clean_be_fastapi.Metrics.{VerdictCase, verdict_eq, compute_verdict_metrics}
use lin_clean_be_fastapi.Metrics.Counts.{count_if, compute_verdict_metrics-partition}

abbrev rows : List VerdictCase
rows =
    record { expected = danger; predicted = danger }
    ∷ record { expected = safe; predicted = danger }
    ∷ record { expected = danger; predicted = safe }
    ∷ record { expected = safe; predicted = safe }
    ∷ []

abbrev positive : Verdict → Bool
positive = verdict_eq danger

compute_verdict_metrics-partition_example :
    ((compute_verdict_metrics positive positive rows).true_positive
        + (compute_verdict_metrics positive positive rows).false_positive
        + (compute_verdict_metrics positive positive rows).true_negative
        + (compute_verdict_metrics positive positive rows).false_negative
      ≡ (compute_verdict_metrics positive positive rows).total)
    × ((compute_verdict_metrics positive positive rows).true_positive
          + (compute_verdict_metrics positive positive rows).false_negative
        ≡ count_if (λ r. positive r.expected) rows)
    × ((compute_verdict_metrics positive positive rows).true_positive
          + (compute_verdict_metrics positive positive rows).false_positive
        ≡ count_if (λ r. positive r.predicted) rows)
compute_verdict_metrics-partition_example = compute_verdict_metrics-partition positive positive rows
