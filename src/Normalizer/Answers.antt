-- ===== src/Normalizer/Answers.antt =====
-- `run_pipeline` with the normaliser of this repository.
use lin_clean_be_fastapi.Prelude.{ℕ, ◌+◌, ◌≡◌, ◌⊎◌, inl, inr, refl, sym, [], Text, leb, Bool-cases}
use lin_clean_be_fastapi.Deadline.{
  Outcome, returned, timeout_error, exception, Task, PipelineDeadline, run, wait_for, budget,
  timed_out_unchain_result,
}
use lin_clean_be_fastapi.Schemas.Signals.{PipelineStage}
use lin_clean_be_fastapi.Pipeline.Known.{unchained}
use lin_clean_be_fastapi.Settings.{Settings}
use lin_clean_be_fastapi.Schemas.Results.{
  NormalizeResult, UnchainResult, PipelineResult, succeeded, failed,
}
use lin_clean_be_fastapi.Pipeline.{
  Stages, Request, deadline, unchain_value, unchain_stage, run_pipeline, pipeline_success,
  page_unavailable_failure, after_normalize,
}
use lin_clean_be_fastapi.Pipeline.Ends.{run_pipeline-ends}
use lin_clean_be_fastapi.Normalizer.{
  Stdlib, NormalParts, with_scheme, cleaned_url, unparse, normalize_url,
}
use lin_clean_be_fastapi.Normalizer.Normal.{IsNormal, normalize_url-IsNormal}

-- The pipeline with this normaliser.
abbrev pub normalizing : Settings → Stdlib → Stages → Stages
normalizing cfg lib stages = record stages { normalize_url = normalize_url cfg lib }

-- The result of the unchaining of this URL: what the stage returns for it, or that it was cut off
-- there or raised, without a hop.
abbrev pub UnchainsFrom : Stages → NormalizeResult → UnchainResult → Type 0
UnchainsFrom stages norm unchain =
    ((stages.unchain_url norm.normalized_url norm.scheme_was_added).outcome ≡ returned unchain)
    ⊎ ((unchain.input_url ≡ norm.normalized_url)
        × (unchain.final_url ≡ norm.normalized_url)
        × (unchain.hops ≡ []))

run-UnchainsFrom :
    (cfg : Settings) (stages : Stages) (req : Request) (norm : NormalizeResult)
    (outcome : Outcome UnchainResult)
    → (outcome ≡ (stages.unchain_url norm.normalized_url norm.scheme_was_added).outcome)
      ⊎ (outcome ≡ timeout_error)
    → UnchainsFrom stages norm (unchain_value cfg stages req norm.normalized_url outcome)
unfolding unchain_value timed_out_unchain_result
run-UnchainsFrom cfg stages req norm (returned u) (inl e) = inl (sym e)
run-UnchainsFrom cfg stages req norm (returned u) (inr e) = absurd cc
run-UnchainsFrom cfg stages req norm timeout_error h = inr (refl, refl, refl)
run-UnchainsFrom cfg stages req norm exception h = inr (refl, refl, refl)

run-cases :
    {A : Type 0} (d : PipelineDeadline) (now : ℕ) (task : Task A) (stage late : ℕ)
    → ((run d now task stage late).1 ≡ task.outcome)
      ⊎ ((run d now task stage late).1 ≡ timeout_error)
unfolding run wait_for
run-cases d now task stage late = elim (Bool-cases (leb task.duration (budget d now stage))) [
  | inl e ↦ inl (rw (e, run, wait_for) refl)
  | inr e ↦ inr (rw (e, run, wait_for) refl)
]

unchained-UnchainsFrom :
    (cfg : Settings) (stages : Stages) (req : Request) (norm : NormalizeResult)
    → UnchainsFrom stages norm (unchained cfg stages req norm).value
unfolding unchain_stage
unchained-UnchainsFrom cfg stages req norm = run-UnchainsFrom cfg stages req norm _ (
    run-cases (deadline cfg stages req) (req.started + stages.normalize_duration)
      (stages.unchain_url norm.normalized_url norm.scheme_was_added) cfg.pipeline_unchain_timeout
      (stages.late PipelineStage.unchain))

-- The URL that a response says it was normalised to is in normal form, and is the one that was
-- unchained.
abbrev pub StartsNormal : Settings → Stdlib → Stages → Text → PipelineResult → Type 0
StartsNormal cfg lib stages raw_url (failed r) = Unit
StartsNormal cfg lib stages raw_url (succeeded r) =
    ((parts : NormalParts) × (r.stages.normalize.normalized_url ≡ unparse parts)
      × IsNormal cfg lib (with_scheme (cleaned_url lib raw_url)) parts)
    × UnchainsFrom stages r.stages.normalize r.stages.unchain
    × (r.final_url ≡ r.stages.unchain.final_url)

-- With the repository's normaliser, whatever the other stages return, every successful response is
-- about a URL in normal form: the normalised URL is put together from parts with an allowed scheme,
-- the host behind the userinfo in IDNA form, no default port and no dot segment; and the final URL is
-- that of the unchaining of exactly this URL, or this URL itself where the unchaining was cut off.
pub run_pipeline-StartsNormal :
    (cfg : Settings) (lib : Stdlib) (stages : Stages) (req : Request)
    → StartsNormal cfg lib stages req.original_url
        (run_pipeline cfg (normalizing cfg lib stages) req)
unfolding pipeline_success page_unavailable_failure after_normalize
run_pipeline-StartsNormal cfg lib stages req =
    run_pipeline-ends cfg (normalizing cfg lib stages) req
      (StartsNormal cfg lib stages req.original_url)
      (λ norm unchain threat heuristic s f u h. (
        normalize_url-IsNormal cfg lib req.original_url norm f,
        rw (sym u) at (unchained-UnchainsFrom cfg (normalizing cfg lib stages) req norm),
        refl,
      ))
      (λ norm unchain stage why now timings f u b h. tt) (λ message e. tt)
