-- ===== src/Content/Verdicts.antt =====
-- What the model's answer does to the result of `analyze_content`.
use lin_clean_be_fastapi.Prelude.{
  ◌≡◌, refl, true, false, Option, none, some, List, Text, text, Bool-cases, inl, inr, if◌then◌else◌,
}
use lin_clean_be_fastapi.Settings.{Settings}
use lin_clean_be_fastapi.Schemas.Results.{ContentAnalysisResult}
use lin_clean_be_fastapi.Content.{fetch_failed_result}
use lin_clean_be_fastapi.Content.Ai.{
  Awaited, Awaited-cases, returned, cancelled, raised, ◌>>=◌, AiPromptContext, AiInference,
  Inferred, answered, provider_error, exception, AiProvider, build_prompt_context, to_answer,
}
use lin_clean_be_fastapi.Content.Ai
use lin_clean_be_fastapi.Content.Analyze.{
  Services, FetchResult, Findings, ask_model, to_result, choose_provider, with_inference,
  analyze_page, analyze_content,
}

-- The failures of a provider that are absorbed, with the error that they leave.
abbrev pub failure : Inferred → Option Text
failure (provider_error code) = some code
failure exception = some (text "ai_unavailable")
failure _ = none

-- The result with an error of the model.
abbrev pub with_ai_error :
    Option Text → Awaited ContentAnalysisResult → Awaited ContentAnalysisResult
with_ai_error error (returned r) =
    if r.fetched then returned (record r { ai_error = error }) else returned r
with_ai_error error cancelled = cancelled
with_ai_error error raised = raised

bind-with_ai_error :
    {A : Type 0} (error : Option Text) (w : Awaited A) (f g : A → Awaited ContentAnalysisResult)
    → ((a : A) → f a ≡ with_ai_error error (g a))
    → (w >>= f) ≡ with_ai_error error (w >>= g)
unfolding ◌>>=◌
bind-with_ai_error error (returned a) f g h = h a
bind-with_ai_error error cancelled f g h = refl
bind-with_ai_error error raised f g h = refl

to_answer-failure :
    (provider : AiProvider) (i : Inferred) (error : Text)
    → failure i ≡ some error
    → to_answer provider i ≡ returned (none, some error)
unfolding to_answer
to_answer-failure provider (answered a) error h = absurd cc
to_answer-failure provider Ai.cancelled error h = absurd cc
to_answer-failure provider (provider_error code) error h = cc
to_answer-failure provider exception error h = cc

module _ (cfg : Settings) (services : Services) (provider : AiProvider)
    (upstream : Awaited (List Text)) (final_url error : Text)
    (fails : (ctx : AiPromptContext) → failure (provider.infer ctx) ≡ some error) where
  ask_model-failure :
      (ctx : AiPromptContext)
      → ask_model services (some provider) true ctx ≡ returned (none, some error)
  unfolding ask_model choose_provider
  ask_model-failure ctx = to_answer-failure provider (provider.infer ctx) error (fails ctx)

  -- The last step: the answer of the model becomes a part of the result.
  answer-failure :
      (fetched : FetchResult) (found : Findings) (signals : List Text) (ctx : AiPromptContext)
      → (ask_model services (some provider) true ctx >>= λ (inference, ai_error).
          returned (to_result cfg services final_url fetched found signals inference ai_error))
        ≡ with_ai_error (some error) (
            ask_model services (some provider) false ctx >>= λ (inference, ai_error).
            returned (to_result cfg services final_url fetched found signals inference ai_error))
  unfolding ◌>>=◌ to_result with_inference ask_model
  answer-failure fetched found signals ctx = rw (ask_model-failure ctx) refl

  analyze_page-failing_model :
      (fetched : FetchResult)
      → analyze_page cfg services (some provider) upstream true final_url fetched
        ≡ with_ai_error
            (some error)
            (analyze_page cfg services (some provider) upstream false final_url fetched)
  unfolding analyze_page
  analyze_page-failing_model fetched = bind-with_ai_error (some error) _ _ _ λ features.
      bind-with_ai_error (some error) _ _ _ λ found.
        bind-with_ai_error (some error) _ _ _ λ signals. answer-failure fetched found signals _

  -- If the model fails with the error `error` on whatever it is asked, `analyze_content` ends as it
  -- ends without a model, but for the `ai_error` of a page that was fetched.
  pub analyze_content-failing_model :
      analyze_content cfg services (some provider) upstream true final_url
      ≡ with_ai_error
          (some error)
          (analyze_content cfg services (some provider) upstream false final_url)
  unfolding analyze_content fetch_failed_result ◌>>=◌
  analyze_content-failing_model = elim (Awaited-cases (services.fetch_page final_url)) [
    | inl (fetched, e) ↦ elim (Bool-cases fetched.ok) [
      | inl f ↦ rw (e, f, analyze_content) (analyze_page-failing_model _)
      | inr f ↦ rw (e, f, analyze_content) refl
    ]
    | inr (inl e) ↦ rw (e, analyze_content)
    | inr (inr e) ↦ rw (e, analyze_content)
  ]
