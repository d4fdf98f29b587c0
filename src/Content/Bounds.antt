-- ===== src/Content/Bounds.antt =====
-- The score of a page that `analyze_content` has analysed, between that of the rules and the cap.
use lin_clean_be_fastapi.Prelude.{
  ◌+◌, ◌≤◌, max, ◌≡◌, ◌≢◌, refl, Bool, true, false, Option, none, some, List, Text, Bool-cases, ◌⊎◌,
  if◌then◌else◌, arith, inl, inr,
}
use lin_clean_be_fastapi.Settings.{Settings}
use lin_clean_be_fastapi.Schemas.Signals.{AiVerdict, phishing, suspicious, benign}
use lin_clean_be_fastapi.Schemas.Results.{ContentAnalysisResult}
use lin_clean_be_fastapi.Content.{ai_score_weight, fetch_failed_result}
use lin_clean_be_fastapi.Content.Features.{ExtractedFeatures, merge_features}
use lin_clean_be_fastapi.Content.Ai
use lin_clean_be_fastapi.Content.Ai.{
  Inferred, answered, provider_error, exception, to_answer, AiPromptContext, Awaited-cases, Awaited,
  returned, cancelled, raised, ◌>>=◌, AiInference, AiProvider,
}
use lin_clean_be_fastapi.Content.Score.{ContentScoring, score_content}
use lin_clean_be_fastapi.Content.Analyze.{
  Services, FetchResult, Findings, should_apply_ai_suspicious_score, mark_rendered, with_rendered,
  run_precision_analysis, ask_model, ai_score, verdict_score, with_inference, to_result,
  choose_provider, analyze_page, analyze_content,
}
use lin_clean_be_fastapi.Content.Total.{score_content-IsAccounted}

-- With a model: cancelled, or ending as without one and with a related result.
abbrev pub Follows : {A : Type 0} → (A → A → Type 0) → Awaited A → Awaited A → Type 0
Follows R cancelled w = Unit
Follows R raised w = w ≡ raised
Follows R (returned a) (returned b) = R a b
Follows R (returned a) _ = ⊥

-- The same signals, and a score that the model raises by its larger weight at most and, for a page
-- that was fetched, not above the cap.
abbrev pub IsRaised : Settings → ContentAnalysisResult → ContentAnalysisResult → Type 0
IsRaised cfg r plain =
    (r.signals ≡ plain.signals)
    × (plain.score ≤ r.score)
    × (r.score ≤ plain.score + max cfg.score_weight_ai_phishing cfg.score_weight_ai_suspicious)
    × ((r.fetched ≡ false) ⊎ (r.score ≤ cfg.content_analysis_score_cap))

-- Both go on from the same step, whose values satisfy `P`.
Ends : {A : Type 0} → (A → Type 0) → Awaited A → Type 0
Ends P (returned a) = P a
Ends P cancelled = Unit
Ends P raised = Unit

bind-Follows :
    {A B : Type 0} (R : B → B → Type 0) (P : A → Type 0) (w : Awaited A) (f g : A → Awaited B)
    → Ends P w
    → ((a : A) → P a → Follows R (f a) (g a))
    → Follows R (w >>= f) (w >>= g)
unfolding ◌>>=◌ Ends
bind-Follows R P (returned a) f g p h = h a p
bind-Follows R P cancelled f g p h = tt
bind-Follows R P raised f g p h = refl

bind-Ends :
    {A B : Type 0} (P : B → Type 0) (w : Awaited A) (f : A → Awaited B)
    → ((a : A) → Ends P (f a))
    → Ends P (w >>= f)
unfolding ◌>>=◌ Ends
bind-Ends P (returned a) f h = h a
bind-Ends P cancelled f h = tt
bind-Ends P raised f h = tt

Ends-if :
    {A : Type 0} (P : A → Type 0) (test : Bool) (w w' : Awaited A)
    → Ends P w
    → Ends P w'
    → Ends P (if test then w else w')
unfolding Ends
Ends-if P true w w' h k = h
Ends-if P false w w' h k = k

Ends-returned : {A : Type 0} (P : A → Type 0) (a : A) → P a → Ends P (returned a)
unfolding Ends
Ends-returned P a h = h

-- Nothing is asked of a step.
Ends-any : {A : Type 0} (w : Awaited A) → Ends (λ a. Unit) w
unfolding Ends
Ends-any (returned a) = tt
Ends-any cancelled = tt
Ends-any raised = tt

score_content-capped :
    (cfg : Settings) (brands : Option Text → List Text) (features : ExtractedFeatures)
    (final_url : Text)
    → (score_content cfg brands features final_url).score ≤ cfg.content_analysis_score_cap
score_content-capped cfg brands features final_url =
    let (_, e, _, _) = score_content-IsAccounted cfg brands features final_url in rw e (omega arith)

-- The failures of a provider are absorbed.
to_answer-raised : (provider : AiProvider) (i : Inferred) → to_answer provider i ≢ raised
unfolding to_answer
to_answer-raised provider (answered (some inference)) h = cc
to_answer-raised provider (answered none) h = cc
to_answer-raised provider Ai.cancelled h = cc
to_answer-raised provider (provider_error code) h = cc
to_answer-raised provider exception h = cc

module _ (cfg : Settings) (services : Services) where
  abbrev IsCapped : Findings → Type 0
  IsCapped found = found.scoring.score ≤ cfg.content_analysis_score_cap

  run_precision_analysis-IsCapped :
      (final_url : Text) (features : ExtractedFeatures)
      → Ends IsCapped (run_precision_analysis cfg services final_url features)
  unfolding run_precision_analysis with_rendered mark_rendered
  run_precision_analysis-IsCapped final_url features =
      let capped = score_content-capped cfg services.brands_in_text in
      Ends-if IsCapped _ _ _
        (bind-Ends IsCapped (services.render_page final_url) _ λ rendered.
          Ends-if IsCapped rendered.ok _ _
            (bind-Ends IsCapped (services.extract_features_async rendered.html final_url) _
              λ more. Ends-returned IsCapped _ (capped (merge_features features more) final_url))
            (Ends-returned IsCapped _ (capped features final_url)))
        (Ends-returned IsCapped _ (capped features final_url))

  verdict_score-bounded :
      (applies : Bool) (verdict : AiVerdict)
      → verdict_score cfg applies verdict
        ≤ max cfg.score_weight_ai_phishing cfg.score_weight_ai_suspicious
  unfolding verdict_score ai_score_weight
  verdict_score-bounded applies phishing = omega arith
  verdict_score-bounded applies suspicious = ground arith
  verdict_score-bounded applies benign = omega arith

  ai_score-bounded :
      (final_url : Text) (scoring : ContentScoring) (upstream : List Text)
      (inference : Option AiInference)
      → ai_score cfg services final_url scoring upstream inference
        ≤ max cfg.score_weight_ai_phishing cfg.score_weight_ai_suspicious
  unfolding ai_score ai_score_weight
  ai_score-bounded final_url scoring upstream none = omega arith
  ai_score-bounded final_url scoring upstream (some inference) =
      verdict_score-bounded (should_apply_ai_suspicious_score services final_url scoring upstream)
        inference.verdict

  -- The results with and without an answer of the model.
  to_result-IsRaised :
      (final_url : Text) (fetched : FetchResult) (found : Findings) (upstream : List Text)
      (inference : Option AiInference) (error : Option Text)
      → IsCapped found
      → IsRaised cfg
          (to_result cfg services final_url fetched found upstream inference error)
          (to_result cfg services final_url fetched found upstream none none)
  unfolding to_result with_inference
  to_result-IsRaised final_url fetched found upstream none error c =
      (refl, omega arith, omega arith, inr (omega arith))
  to_result-IsRaised final_url fetched found upstream (some inference) error c =
      let b = ai_score-bounded final_url found.scoring upstream (some inference) in
      (refl, omega (arith, c), omega (arith, b, c), inr (omega arith))

  -- Asking the model, and the last step.
  answer-Follows :
      (provider : Option AiProvider) (final_url : Text) (fetched : FetchResult) (found : Findings)
      (upstream : List Text) (ctx : AiPromptContext)
      → IsCapped found
      → Follows
          (IsRaised cfg)
          (ask_model services provider true ctx >>= λ (inference, ai_error).
            returned (to_result cfg services final_url fetched found upstream inference ai_error))
          (ask_model services provider false ctx >>= λ (inference, ai_error).
            returned (to_result cfg services final_url fetched found upstream inference ai_error))
  unfolding ask_model ◌>>=◌
  answer-Follows provider final_url fetched found upstream ctx c =
      elim (Awaited-cases (
        to_answer (choose_provider services provider)
          ((choose_provider services provider).infer ctx))) [
            | inl ((inference, error), e) ↦
                rw e (to_result-IsRaised final_url fetched found upstream inference error c)
            | inr (inl e) ↦ rw e tt
            | inr (inr e) ↦ absurd (to_answer-raised (choose_provider services provider) _ e)
          ]

  analyze_page-Follows :
      (provider : Option AiProvider) (upstream : Awaited (List Text)) (final_url : Text)
      (fetched : FetchResult)
      → Follows
          (IsRaised cfg)
          (analyze_page cfg services provider upstream true final_url fetched)
          (analyze_page cfg services provider upstream false final_url fetched)
  unfolding analyze_page
  analyze_page-Follows provider upstream final_url fetched =
      bind-Follows (IsRaised cfg) (λ f. Unit)
        (services.extract_features_async fetched.html final_url) _ _ (Ends-any _)
        λ features x.
          bind-Follows (IsRaised cfg) IsCapped
            (run_precision_analysis cfg services final_url features) _ _
            (run_precision_analysis-IsCapped final_url features)
            λ found c.
              bind-Follows (IsRaised cfg) (λ f. Unit) upstream _ _ (Ends-any _)
                λ signals y. answer-Follows provider final_url fetched found signals _ c

  -- Whatever the model answers, `analyze_content` is cancelled, or it ends as it ends without a
  -- model, and a result then has the same signals and a score that is not lower, higher by the larger
  -- weight of a verdict at most, and, if the page was fetched, not above the cap.
  pub analyze_content-Follows :
      (provider : Option AiProvider) (upstream : Awaited (List Text)) (final_url : Text)
      → Follows
          (IsRaised cfg)
          (analyze_content cfg services provider upstream true final_url)
          (analyze_content cfg services provider upstream false final_url)
  unfolding analyze_content fetch_failed_result ◌>>=◌
  analyze_content-Follows provider upstream final_url =
      elim (Awaited-cases (services.fetch_page final_url)) [
        | inl (fetched, e) ↦ elim (Bool-cases fetched.ok) [
          | inl f ↦ rw (e, f, analyze_content) (analyze_page-Follows provider upstream final_url _)
          | inr f ↦ rw (e, f, analyze_content) (refl, omega arith, omega arith, inl refl)
        ]
        | inr (inl e) ↦ rw (e, analyze_content) tt
        | inr (inr e) ↦ rw (e, analyze_content) refl
      ]
