-- ===== src/Metrics/Counts.antt =====
-- How the counts of the metrics relate to one another.
use lin_clean_be_fastapi.Prelude.{
  ℕ, ◌+◌, ◌≡◌, Bool, List, [], ◌∷◌, length, arith, Bool-cases, inl, inr, if◌then◌else◌,
}
use lin_clean_be_fastapi.Schemas.Signals.{Verdict}
use lin_clean_be_fastapi.Metrics.{
  VerdictCase, Tally, no_tally, count, tally_rows, compute_verdict_metrics,
}

abbrev sum_of : Tally → ℕ
sum_of t = t.true_positive + t.false_positive + t.true_negative + t.false_negative

-- The rows that satisfy a test.
abbrev pub count_if : (VerdictCase → Bool) → List VerdictCase → ℕ
count_if p [] = 0
count_if p (row ∷ rows) = (if p row then 1 else 0) + count_if p rows

module _ (p q : Verdict → Bool) where
  tally_rows-sum :
      (t : Tally) (rows : List VerdictCase)
      → (sum_of (tally_rows p q t rows) ≡ sum_of t + length rows)
        × ((tally_rows p q t rows).true_positive + (tally_rows p q t rows).false_negative
            ≡ t.true_positive + t.false_negative + count_if (λ r. p r.expected) rows)
        × ((tally_rows p q t rows).true_positive + (tally_rows p q t rows).false_positive
            ≡ t.true_positive + t.false_positive + count_if (λ r. q r.predicted) rows)
  unfolding tally_rows count
  tally_rows-sum t [] = (omega arith, omega arith, omega arith)
  tally_rows-sum t (row ∷ rows) =
      let (a, b, c) = tally_rows-sum (count t (p row.expected) (q row.predicted)) rows in
      elim (Bool-cases (p row.expected)) [
        | inl e ↦ elim (Bool-cases (q row.predicted)) [
          | inl f ↦ (ground (arith, e, f, a), ground (arith, e, f, b), ground (arith, e, f, c))
          | inr f ↦ (ground (arith, e, f, a), ground (arith, e, f, b), ground (arith, e, f, c))
        ]
        | inr e ↦ elim (Bool-cases (q row.predicted)) [
          | inl f ↦ (ground (arith, e, f, a), ground (arith, e, f, b), ground (arith, e, f, c))
          | inr f ↦ (ground (arith, e, f, a), ground (arith, e, f, b), ground (arith, e, f, c))
        ]
      ]

  -- Each row is counted in exactly one of the four counts, which sum up to the total; the rows that
  -- are positive as expected are the true positives and false negatives, and those predicted
  -- positive are the true and false positives.
  pub compute_verdict_metrics-partition :
      (rows : List VerdictCase)
      → ((compute_verdict_metrics p q rows).true_positive
            + (compute_verdict_metrics p q rows).false_positive
            + (compute_verdict_metrics p q rows).true_negative
            + (compute_verdict_metrics p q rows).false_negative
          ≡ (compute_verdict_metrics p q rows).total)
        × ((compute_verdict_metrics p q rows).true_positive
              + (compute_verdict_metrics p q rows).false_negative
            ≡ count_if (λ r. p r.expected) rows)
        × ((compute_verdict_metrics p q rows).true_positive
              + (compute_verdict_metrics p q rows).false_positive
            ≡ count_if (λ r. q r.predicted) rows)
  unfolding compute_verdict_metrics
  compute_verdict_metrics-partition rows =
      let (a, b, c) = tally_rows-sum no_tally rows in
      (omega (arith, a), omega (arith, b), omega (arith, c))
