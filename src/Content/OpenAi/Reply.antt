-- ===== src/Content/OpenAi/Reply.antt =====
-- What a call of the provider ends in.
use lin_clean_be_fastapi.Prelude.{
  ℕ, zero, suc, ◌≤◌, ◌≡◌, refl, ◌⊎◌, inl, inr, Bool, true, false, Option, none, some, List, [], ◌∷◌,
  Text, text, text_eq, text_eq_iff, is_empty, take, length, arith, Bool-cases, Option-cases,
}
use lin_clean_be_fastapi.Urllib.{strip}
use lin_clean_be_fastapi.Schemas.Signals.{AiVerdict, phishing, suspicious, benign}
use lin_clean_be_fastapi.Schemas.Results.{TokenUsage}
use lin_clean_be_fastapi.Content.Ai.{
  AiPromptContext, AiInference, Inferred, answered, cancelled, provider_error, exception,
}
use lin_clean_be_fastapi.Content.OpenAi.{
  Request, OpenAiSettings, OpenAiProvider, to_request, get_client, infer, has_key,
}
use lin_clean_be_fastapi.Content.OpenAi.Json.{
  Json, null, boolean, number, string, array, object, element, member, end_of_array, end_of_object,
  Members, get,
}
use lin_clean_be_fastapi.Content.OpenAi.Verdict.{
  JsonLib, Posted, completed, post_cancelled, post_failed, content_of, extract_token_usage,
  verdict_code, read_verdict, to_inference, from_data, from_text, parse_verdict, from_posted,
}

length-take : {A : Type 0} (n : ℕ) (xs : List A) → length (take n xs) ≤ n
length-take zero xs = omega arith
length-take (suc n) [] = omega arith
length-take (suc n) (x ∷ xs) = omega (arith, length-take n xs)

abbrev IsNamed : Text → Option AiVerdict → Type 0
IsNamed s none = Unit
IsNamed s (some verdict) = s ≡ verdict_code verdict

read_verdict-IsNamed : (s : Text) → IsNamed s (read_verdict s)
unfolding read_verdict
read_verdict-IsNamed s = elim (Bool-cases (text_eq s (verdict_code phishing))) [
  | inl e ↦ rw (e, read_verdict) (eq phishing e)
  | inr e ↦ elim (Bool-cases (text_eq s (verdict_code suspicious))) [
    | inl f ↦ rw (e, f, read_verdict) (eq suspicious f)
    | inr f ↦ elim (Bool-cases (text_eq s (verdict_code benign))) [
      | inl g ↦ rw (e, f, g, read_verdict) (eq benign g)
      | inr g ↦ rw (e, f, g, read_verdict) tt
    ]
  ]
]
  where
    eq : (verdict : AiVerdict) → text_eq s (verdict_code verdict) ≡ true → s ≡ verdict_code verdict
    eq verdict h = (text_eq_iff s (verdict_code verdict)).0 h

named :
    (s : Text) (read : Option AiVerdict) (verdict : AiVerdict)
    → IsNamed s read
    → read ≡ some verdict
    → s ≡ verdict_code verdict
named s none verdict h e = absurd cc
named s (some v) verdict h e = cc

-- A value of JSON that is an object, and one that is a text.
unfoldable pub is_object : Json → Bool
is_object (object members) = true
is_object _ = false

unfoldable pub is_text : Json → Bool
is_text (string s) = true
is_text _ = false

-- An answer of the model with this name, out of what the request ended in.
abbrev IsAnswer : JsonLib → Text → Posted → AiInference → Type 0
IsAnswer lib model posted i =
    (length i.reason ≤ 100)
    × (i.model ≡ some model)
    × ((completion : Json) × (raw : Text) × (members : Members) × (posted ≡ completed completion)
        × (content_of completion ≡ some (string raw))
        × (lib.loads raw ≡ some (object members))
        × (get (text "verdict") members ≡ some (string (verdict_code i.verdict))))

-- A reply of a shape that is not expected.
abbrev IsOdd : JsonLib → Posted → Type 0
IsOdd lib posted =
    (completion : Json) × (content : Json) × (posted ≡ completed completion)
    × (content_of completion ≡ some content)
    × ((extract_token_usage lib completion ≡ none)
        ⊎ (is_text content ≡ false)
        ⊎ ((raw : Text) × (value : Json) × (content ≡ string raw)
            × (lib.loads raw ≡ some value)
            × (is_object value ≡ false)))

abbrev pub EndsAs : JsonLib → Text → Posted → Inferred → Type 0
EndsAs lib model posted (answered none) = Unit
EndsAs lib model posted (answered (some i)) = IsAnswer lib model posted i
EndsAs lib model posted cancelled = posted ≡ post_cancelled
EndsAs lib model posted (provider_error code) = ⊥
EndsAs lib model posted exception = IsOdd lib posted

abbrev Tells : Text → Option Json → Option AiInference → Type 0
Tells model verdict none = Unit
Tells model verdict (some i) =
    (length i.reason ≤ 100)
    × (i.model ≡ some model)
    × (verdict ≡ some (string (verdict_code i.verdict)))

to_inference-Tells :
    (model : Text) (usage : Option TokenUsage) (verdict reason : Option Json)
    → Tells model verdict (to_inference model usage verdict reason)
unfolding to_inference
to_inference-Tells model usage (some (string v)) (some (string r)) =
    elim (Option-cases (read_verdict v)) [
      | inl e ↦ rw (e, to_inference) tt
      | inr (verdict, e) ↦
          let same = named v (read_verdict v) verdict (read_verdict-IsNamed v) e in
          rw (e, to_inference) (length-take 100 (strip r), refl, cc)
    ]
to_inference-Tells model usage verdict reason = tt

module _ (lib : JsonLib) (model : Text) (usage : Option TokenUsage) (completion : Json) where
  from_text-EndsAs :
      (raw : Text)
      → content_of completion ≡ some (string raw)
      → EndsAs lib model (completed completion) (from_text lib model usage raw)
  unfolding from_text from_data is_text is_object
  from_text-EndsAs raw c = elim (Bool-cases (is_empty raw)) [
    | inl e ↦ rw (e, from_text) tt
    | inr e ↦ elim (Option-cases (lib.loads raw)) [
      | inl f ↦ rw (e, f, from_text) tt
      | inr (value, f) ↦ rw (e, f, from_text) (decoded value f)
    ]
  ]
    where
      found :
          (members : Members) (i : Option AiInference)
          → lib.loads raw ≡ some (object members)
          → Tells model (get (text "verdict") members) i
          → EndsAs lib model (completed completion) (answered i)
      found members none f h = tt
      found members (some i) f (n, m, v) = (n, m, (completion, raw, members, refl, c, f, v))

      decoded :
          (value : Json)
          → lib.loads raw ≡ some value
          → EndsAs lib model (completed completion) (from_data model usage value)
      decoded (object members) f = found members _ f (
          to_inference-Tells model usage (get (text "verdict") members)
            (get (text "reason") members))
      decoded value f = (completion, string raw, refl, c, inr (inr (raw, value, refl, f, refl)))

  odd :
      (content : Json)
      → content_of completion ≡ some content
      → is_text content ≡ false
      → EndsAs lib model (completed completion) exception
  odd content c t = (completion, content, refl, c, inr (inl t))

  parse_verdict-EndsAs :
      (content : Json)
      → content_of completion ≡ some content
      → EndsAs lib model (completed completion) (parse_verdict lib model usage content)
  unfolding parse_verdict is_text
  parse_verdict-EndsAs null c = tt
  parse_verdict-EndsAs (boolean true) c = odd (boolean true) c refl
  parse_verdict-EndsAs (boolean false) c = tt
  parse_verdict-EndsAs (number n) c = elim (Bool-cases (lib.is_zero n)) [
    | inl e ↦ rw (e, parse_verdict) tt
    | inr e ↦ rw (e, parse_verdict) (odd (number n) c refl)
  ]
  parse_verdict-EndsAs (string raw) c = from_text-EndsAs raw c
  parse_verdict-EndsAs (array end_of_array) c = tt
  parse_verdict-EndsAs (array (element v vs)) c = odd (array (element v vs)) c refl
  parse_verdict-EndsAs (object end_of_object) c = tt
  parse_verdict-EndsAs (object (member k v vs)) c = odd (object (member k v vs)) c refl

from_posted-EndsAs :
    (lib : JsonLib) (model : Text) (posted : Posted)
    → EndsAs lib model posted (from_posted lib model posted)
unfolding from_posted
from_posted-EndsAs lib model post_cancelled = refl
from_posted-EndsAs lib model post_failed = tt
from_posted-EndsAs lib model (completed completion) = elim (Option-cases (content_of completion)) [
  | inl e ↦ rw (e, from_posted) tt
  | inr (content, e) ↦ elim (Option-cases (extract_token_usage lib completion)) [
    | inl f ↦ rw (e, f, from_posted) (completion, content, refl, e, inl f)
    | inr (usage, f) ↦
        rw (e, f, from_posted) (parse_verdict-EndsAs lib model usage completion content e)
  ]
]

-- An answer of the provider has a reason of at most 100 characters, bears the provider's model, and
-- its verdict stands in an object that the content of the reply decodes to. The call is cancelled only
-- when the request is, and it has no error code. It raises only after a reply whose token counts are
-- refused, whose content is not a text, or whose content decodes to something other than an object.
pub infer-EndsAs :
    (cfg : OpenAiSettings) (lib : JsonLib) (post : Request → Posted) (provider : OpenAiProvider)
    (ctx : AiPromptContext)
    → EndsAs lib provider.model
        (post (to_request lib provider ctx))
        ((infer cfg lib post provider ctx).result)
unfolding infer get_client to_request
infer-EndsAs cfg lib post provider ctx = elim (Bool-cases provider.closed) [
  | inl e ↦ rw (e, infer, get_client) tt
  | inr e ↦ elim (Bool-cases (has_key cfg.openai_api_key)) [
    | inl f ↦
        rw (e, f, infer, get_client)
          (from_posted-EndsAs lib provider.model (post (to_request lib provider ctx)))
    | inr f ↦ rw (e, f, infer, get_client) tt
  ]
]
