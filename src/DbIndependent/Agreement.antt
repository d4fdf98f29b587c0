-- ===== src/DbIndependent/Agreement.antt =====
-- The full pipeline against the one without the threat databases, on the same stage results.
use lin_clean_be_fastapi.Prelude.{ℕ, ◌≡◌, ◌≤◌, false, arith}
use lin_clean_be_fastapi.Settings.{Settings}
use lin_clean_be_fastapi.Schemas.Signals.{Verdict, safe, caution, danger}
use lin_clean_be_fastapi.Schemas.Results.{
  ThreatDbResult, DomainHeuristicResult, ContentAnalysisResult,
}
use lin_clean_be_fastapi.Scoring
use lin_clean_be_fastapi.DbIndependent

abbrev pub severity : Verdict → ℕ
severity safe = 0
severity caution = 1
severity danger = 2

-- The verdicts that the two pipelines give.
abbrev pub full_verdict :
    Settings → ThreatDbResult → DomainHeuristicResult → ContentAnalysisResult → Verdict
full_verdict cfg threat heuristic content =
    Scoring.decide_verdict cfg (Scoring.total_score cfg threat heuristic content) threat

abbrev pub independent_verdict : Settings → DomainHeuristicResult → ContentAnalysisResult → Verdict
independent_verdict cfg heuristic content =
    DbIndependent.decide_verdict cfg (DbIndependent.total_score cfg heuristic content)

-- On the same heuristic and content results, and for a lookup that is not malicious and without a
-- match in either database, the scoring functions of the two pipelines give the same score and the
-- same verdict. Nothing is said of runs of the pipelines, which feed the content analysis differently.
pub total_score-agree :
    (cfg : Settings) (threat : ThreatDbResult) (heuristic : DomainHeuristicResult)
    (content : ContentAnalysisResult)
    → threat.is_malicious ≡ false
    → threat.gsb.is_threat ≡ false
    → threat.urlhaus.is_threat ≡ false
    → (Scoring.total_score cfg threat heuristic content
        ≡ DbIndependent.total_score cfg heuristic content)
      × (full_verdict cfg threat heuristic content ≡ independent_verdict cfg heuristic content)
unfolding Scoring.total_score Scoring.preceding_score Scoring.decide_verdict
    DbIndependent.total_score DbIndependent.decide_verdict
total_score-agree cfg threat heuristic content m g u =
    (ground (arith, m, g, u), ground (arith, m, g, u))

-- On the same heuristic and content results, the scoring functions of the full pipeline give at least
-- the score, and at least the severity of the verdict, of those of the pipeline without databases,
-- whatever the lookup says. Nothing is said of runs of the pipelines.
pub total_score-raised :
    (cfg : Settings) (threat : ThreatDbResult) (heuristic : DomainHeuristicResult)
    (content : ContentAnalysisResult)
    → (DbIndependent.total_score cfg heuristic content
        ≤ Scoring.total_score cfg threat heuristic content)
      × (severity (independent_verdict cfg heuristic content)
          ≤ severity (full_verdict cfg threat heuristic content))
unfolding Scoring.total_score Scoring.preceding_score Scoring.decide_verdict
    DbIndependent.total_score DbIndependent.decide_verdict
total_score-raised cfg threat heuristic content = (ground arith, ground arith)
