-- ===== src/Summary/Order.antt =====
-- Which sentence the user reads.
use lin_clean_be_fastapi.Prelude.{
  Bool, true, false, ◌≡◌, refl, Text, text, truthy, or_text, is_empty, arith, Option, none, some,
  if◌then◌else◌, [], ◌∷◌, List, ◌⊎◌, inl, inr, ◌∙◌, ap, sym, Bool-cases, ◌&&◌,
}
use lin_clean_be_fastapi.ThreatDb.Merge.{is_nil}
use lin_clean_be_fastapi.Schemas.Signals.{Verdict, safe, mem_content, mem_domain}
use lin_clean_be_fastapi.Schemas.Results.{
  ThreatDbResult, DomainHeuristicResult, ContentAnalysisResult,
}
use lin_clean_be_fastapi.Summary.{
  build_analysis_summary, content_summary, domain_summary, verdict_summary, danger_summary,
  known_malicious_summary,
}

is_empty-or_text :
    (o : Option Text) (t : Text) → is_empty t ≡ false → is_empty (or_text o t) ≡ false
unfolding or_text
is_empty-or_text none t h = h
is_empty-or_text (some s) t h = ground arith

is_empty-truthy : (o : Option Text) → truthy o ≡ true → is_empty (or_text o []) ≡ false
unfolding or_text truthy
is_empty-truthy none h = cc
is_empty-truthy (some s) h = ground arith

is_empty-if :
    (b : Bool) (s t : Text)
    → is_empty s ≡ false
    → is_empty t ≡ false
    → is_empty (if b then s else t) ≡ false
is_empty-if true s t h k = h
is_empty-if false s t h k = k

is_empty-verdict_summary : (v : Verdict) → is_empty (verdict_summary v) ≡ false
unfolding verdict_summary is_empty
is_empty-verdict_summary safe = refl
is_empty-verdict_summary _ = refl

module _ (verdict : Verdict) (heuristic : DomainHeuristicResult)
    (content : ContentAnalysisResult) where
  is_empty-domain_summary : is_empty (domain_summary verdict heuristic content) ≡ false
  unfolding domain_summary is_empty
  is_empty-domain_summary = ground (
    arith,
    is_empty-or_text content.reason (verdict_summary verdict) (is_empty-verdict_summary verdict),
  )

  is_empty-content_summary : is_empty (content_summary verdict heuristic content) ≡ false
  unfolding content_summary is_empty
  is_empty-content_summary = ground (arith, is_empty-domain_summary)

-- The user always gets a sentence: the summary is not empty, whatever the verdict, the signals, the
-- model's reason and the reason of the content analysis are, empty texts among them.
pub is_empty-build_analysis_summary :
    (verdict : Verdict) (threat : ThreatDbResult) (heuristic : DomainHeuristicResult)
    (content : ContentAnalysisResult)
    → is_empty (build_analysis_summary verdict threat heuristic content) ≡ false
unfolding build_analysis_summary is_empty
is_empty-build_analysis_summary verdict threat heuristic content = ground (
  arith,
  is_empty-truthy content.ai_reason,
  is_empty-or_text content.reason (text "페이지를 확인할 수 없어 안전 여부를 판단하기 어렵습니다.") refl,
  is_empty-or_text content.reason danger_summary refl,
  is_empty-content_summary verdict heuristic content,
)

and-left : (a b : Bool) → (a && b) ≡ true → a ≡ true
and-left a b h = ground arith

and-right : (a b : Bool) → (a && b) ≡ true → b ≡ true
and-right a b h = ground arith

has_no : {A : Type 0} (xs : List A) → is_nil xs ≡ true → xs ≡ []
unfolding is_nil
has_no [] h = refl
has_no (x ∷ xs) h = absurd cc

-- What the summary says: the page is known as malicious; or the reason that the model gives; or else a
-- sentence that is not empty, and, where nothing raised a signal, the reason of the content analysis or
-- the sentence for the verdict.
abbrev pub IsExplained :
    Verdict → ThreatDbResult → DomainHeuristicResult → ContentAnalysisResult → Text → Type 0
IsExplained verdict threat heuristic content summary =
    ((threat.is_malicious ≡ true) × (summary ≡ known_malicious_summary))
    ⊎ ((threat.is_malicious ≡ false)
        × (truthy content.ai_reason ≡ true)
        × (content.ai_reason ≡ some summary))
    ⊎ ((threat.is_malicious ≡ false)
        × (truthy content.ai_reason ≡ false)
        × (is_empty summary ≡ false)
        × (((is_nil content.signals && is_nil heuristic.signals) ≡ false)
            ⊎ (summary ≡ or_text content.reason (verdict_summary verdict))))

or_text-some : (o : Option Text) → truthy o ≡ true → o ≡ some (or_text o [])
unfolding or_text truthy
or_text-some none h = absurd cc
or_text-some (some []) h = absurd cc
or_text-some (some (c ∷ s)) h = refl

without_signals :
    (verdict : Verdict) (threat : ThreatDbResult) (heuristic : DomainHeuristicResult)
    (content : ContentAnalysisResult)
    → threat.is_malicious ≡ false
    → truthy content.ai_reason ≡ false
    → content.signals ≡ []
    → heuristic.signals ≡ []
    → build_analysis_summary verdict threat heuristic content
      ≡ or_text content.reason (verdict_summary verdict)
unfolding build_analysis_summary content_summary domain_summary mem_content mem_domain
without_signals verdict threat heuristic content m a c h = rw (m, a, c, h) refl

pub build_analysis_summary-IsExplained :
    (verdict : Verdict) (threat : ThreatDbResult) (heuristic : DomainHeuristicResult)
    (content : ContentAnalysisResult)
    → IsExplained verdict threat heuristic content
        (build_analysis_summary verdict threat heuristic content)
unfolding build_analysis_summary
build_analysis_summary-IsExplained verdict threat heuristic content =
    elim (Bool-cases threat.is_malicious) [
      | inl m ↦ inl (m, rw (m, build_analysis_summary) refl)
      | inr m ↦ elim (Bool-cases (truthy content.ai_reason)) [
        | inl a ↦
            inr (inl (m, a, or_text-some content.ai_reason a ∙ ap some (sym (rw (m, a) refl))))
        | inr a ↦
            let filled = is_empty-build_analysis_summary verdict threat heuristic content in
            elim (Bool-cases (is_nil content.signals && is_nil heuristic.signals)) [
              | inr n ↦ inr (inr (m, a, filled, inl n))
              | inl n ↦
                  let c = has_no content.signals (and-left _ _ n) in
                  let h = has_no heuristic.signals (and-right _ _ n) in
                  inr (
                    inr (
                      m,
                      a,
                      filled,
                      inr (without_signals verdict threat heuristic content m a c h),
                    ))
            ]
      ]
    ]
