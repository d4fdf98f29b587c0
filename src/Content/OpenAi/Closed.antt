-- ===== src/Content/OpenAi/Closed.antt =====
-- The life of a provider: its client and the requests that it sends.
use lin_clean_be_fastapi.Prelude.{
  ℕ, ◌≡◌, refl, ◌⊎◌, inl, inr, true, false, Option, List, [], ◌∷◌, ◌++◌, Text, arith,
}
use lin_clean_be_fastapi.Content.Ai.{AiPromptContext}
use lin_clean_be_fastapi.Content.OpenAi.{
  Request, OpenAiSettings, OpenAiProvider, get_client, infer, aclose, new_provider,
}
use lin_clean_be_fastapi.Content.OpenAi.Verdict.{JsonLib, Posted}

-- The calls that a provider gets, in order.
pub data Call : Type 0 where
  asks : AiPromptContext → Call
  closes : Call

module _ (cfg : OpenAiSettings) (lib : JsonLib) (post : Request → Posted) where
  unfoldable pub provider_after : OpenAiProvider → List Call → OpenAiProvider
  unfolding infer aclose
  provider_after provider [] = provider
  provider_after provider (asks ctx ∷ calls) =
      provider_after ((infer cfg lib post provider ctx).provider) calls
  provider_after provider (closes ∷ calls) = provider_after (aclose provider) calls

  unfoldable pub requests_of : OpenAiProvider → List Call → List Request
  unfolding infer aclose
  requests_of provider [] = []
  requests_of provider (asks ctx ∷ calls) =
      let called = infer cfg lib post provider ctx in
      called.requests ++ requests_of called.provider calls
  requests_of provider (closes ∷ calls) = requests_of (aclose provider) calls

  abbrev IsQuiet : OpenAiProvider → Type 0
  IsQuiet provider = (provider.closed ≡ true) × (provider.has_client ≡ false)

  -- A provider that is closed has no client.
  abbrev IsTidy : OpenAiProvider → Type 0
  IsTidy provider = (provider.closed ≡ false) ⊎ IsQuiet provider

  infer-IsTidy :
      (provider : OpenAiProvider) (ctx : AiPromptContext)
      → IsTidy provider
      → IsTidy ((infer cfg lib post provider ctx).provider)
  unfolding infer get_client
  infer-IsTidy provider ctx h = ground arith

  aclose-IsQuiet : (provider : OpenAiProvider) → IsTidy provider → IsQuiet (aclose provider)
  unfolding aclose
  aclose-IsQuiet provider h = ground arith

  infer-IsQuiet :
      (provider : OpenAiProvider) (ctx : AiPromptContext)
      → IsQuiet provider
      → ((infer cfg lib post provider ctx).requests ≡ [])
        × IsQuiet ((infer cfg lib post provider ctx).provider)
  unfolding infer get_client
  infer-IsQuiet provider ctx (c, n) = rw (c, infer, get_client) (refl, (refl, n))

  quiet :
      (calls : List Call) (provider : OpenAiProvider)
      → IsQuiet provider
      → (requests_of provider calls ≡ []) × IsQuiet (provider_after provider calls)
  unfolding requests_of provider_after
  quiet [] provider h = (refl, h)
  quiet (asks ctx ∷ calls) provider h =
      let (e, k) = infer-IsQuiet provider ctx h in
      let (f, l) = quiet calls ((infer cfg lib post provider ctx).provider) k in (rw (e, f) refl, l)
  quiet (closes ∷ calls) provider h =
      quiet calls (aclose provider) (aclose-IsQuiet provider (inr h))

  closed :
      (before after : List Call) (provider : OpenAiProvider)
      → IsTidy provider
      → (requests_of provider (before ++ closes ∷ after) ≡ requests_of provider before)
        × IsQuiet (provider_after provider (before ++ closes ∷ after))
  unfolding requests_of provider_after
  closed [] after provider h = quiet after (aclose provider) (aclose-IsQuiet provider h)
  closed (asks ctx ∷ before) after provider h =
      let (e, q) =
        closed before after ((infer cfg lib post provider ctx).provider)
          (infer-IsTidy provider ctx h) in
      (rw e refl, q)
  closed (closes ∷ before) after provider h =
      closed before after (aclose provider) (inr (aclose-IsQuiet provider h))

-- Whatever calls come before and after a new provider is closed, in any order and number, the calls
-- after it send no request, and in the end the provider is closed and has no client.
pub requests_of-closes :
    (cfg : OpenAiSettings) (lib : JsonLib) (post : Request → Posted) (model : Option Text)
    (timeout max_output_tokens : Option ℕ) (before after : List Call)
    → (requests_of cfg lib post
          (new_provider cfg model timeout max_output_tokens)
          (before ++ closes ∷ after)
        ≡ requests_of cfg lib post (new_provider cfg model timeout max_output_tokens) before)
      × ((provider_after cfg lib post
            (new_provider cfg model timeout max_output_tokens)
            (before ++ closes ∷ after)).closed
          ≡ true)
      × ((provider_after cfg lib post
            (new_provider cfg model timeout max_output_tokens)
            (before ++ closes ∷ after)).has_client
          ≡ false)
unfolding new_provider
requests_of-closes cfg lib post model timeout max_output_tokens before after =
    let provider = new_provider cfg model timeout max_output_tokens in
    let (e, (c, n)) = closed cfg lib post before after provider (inl refl) in (e, c, n)
