-- ===== src/Unchainer/Walk.antt =====
-- What one hop leaves behind, and how hops join to a chain.
use lin_clean_be_fastapi.Prelude.{
  ℕ, Bool, true, false, ◌&&◌, ◌||◌, ◌≡◌, ◌≢◌, refl, ◌⊎◌, inl, inr, Option, none, some, List, [],
  ◌∷◌, ◌++◌, Text, mem_text, truthy, or_text, leb, ◌==◌, Bool-cases, All, All-append, sym, ◌∙◌,
}
use lin_clean_be_fastapi.Schemas.Results.{HopRecord}
use lin_clean_be_fastapi.Urllib.{SplitResult, urlsplit}
use lin_clean_be_fastapi.Unchainer.Hop.{
  Reply, response, other_error, Web, Hop, hop, raised, Attempt, retry, ends, allowed_schemes,
  redirect_code, follow_location, follow_parsed, follow_joined, redirected, answered, attempt,
  otherwise, follow_one_hop,
}

-- A URL that parses, with the scheme http or https.
abbrev pub IsAllowed : Text → Type 0
IsAllowed target = elim (urlsplit target) [
  | none ↦ ⊥
  | some parts ↦ mem_text parts.scheme allowed_schemes ≡ true
]

-- A record of a hop is one of the URL that was requested; where a hop leads on, its record has the
-- target as its location, the target is allowed, and there is no error.
abbrev pub HopOk : Text → Hop → Type 0
HopOk target raised = Unit
HopOk target (hop none next error signals) = next ≡ none
HopOk target (hop (some h) none error signals) = h.url ≡ target
HopOk target (hop (some h) (some next) error signals) =
    (h.url ≡ target) × (h.location ≡ some next) × (error ≡ none) × IsAllowed next

abbrev AttemptOk : Text → Attempt → Type 0
AttemptOk target retry = Unit
AttemptOk target (ends h) = HopOk target h

module _ (web : Web) (target : Text) where
  follow_parsed-ok :
      (status : ℕ) (raw : Text) (is_head : Bool) (signals : List Text) (next : Text)
      (there here : Option SplitResult)
      → urlsplit next ≡ there
      → HopOk target (follow_parsed target status raw is_head signals next there here)
  unfolding follow_parsed follow_location
  follow_parsed-ok status raw is_head signals next none here e = tt
  follow_parsed-ok status raw is_head signals next (some there) none e =
      elim (Bool-cases (mem_text there.scheme allowed_schemes)) [
        | inl ok ↦ rw ok tt
        | inr no_ok ↦ rw no_ok refl
      ]
  follow_parsed-ok status raw is_head signals next (some there) (some here) e =
      elim (Bool-cases (mem_text there.scheme allowed_schemes)) [
        | inl ok ↦ rw ok (refl, refl, refl, rw (e, IsAllowed) ok)
        | inr no_ok ↦ rw no_ok refl
      ]

  follow_joined-ok :
      (status : ℕ) (raw : Text) (is_head : Bool) (signals : List Text) (next : Option Text)
      → HopOk target (follow_joined target status raw is_head signals next)
  unfolding follow_joined
  follow_joined-ok status raw is_head signals none = tt
  follow_joined-ok status raw is_head signals (some next) =
      follow_parsed-ok status raw is_head signals next (urlsplit next) (urlsplit target) refl

  redirected-ok :
      (status : ℕ) (location : Option Text) (is_head : Bool) (signals : List Text)
      → AttemptOk target (redirected web target status location is_head signals)
  unfolding redirected
  redirected-ok status location is_head signals = elim (Bool-cases (truthy location)) [
    | inl e ↦ rw e (follow_joined-ok status (or_text location []) is_head signals _)
    | inr e ↦ elim (Bool-cases is_head) [ inl f ↦ rw (e, f) tt | inr f ↦ rw (e, f) refl ]
  ]

  answered-ok :
      (status : ℕ) (location : Option Text) (is_head : Bool) (signals : List Text)
      → AttemptOk target (answered web target status location is_head signals)
  unfolding answered
  answered-ok status location is_head signals =
      elim (Bool-cases (is_head && (status == 405 || status == 403 || status == 400))) [
        | inl e ↦ rw e tt
        | inr e ↦ elim (Bool-cases (leb 500 status)) [
          | inl f ↦ rw (e, f) refl
          | inr f ↦ elim (Bool-cases (redirect_code status)) [
            | inl g ↦ rw (e, f, g) (redirected-ok status location is_head signals)
            | inr g ↦ rw (e, f, g) refl
          ]
        ]
      ]

  attempt-ok :
      (is_head : Bool) (signals : List Text) (reply : Reply)
      → AttemptOk target (attempt web target is_head signals reply)
  unfolding attempt
  attempt-ok true signals (response status location kind) = answered-ok status location true signals
  attempt-ok false signals other_error = tt
  attempt-ok true signals _ = tt
  attempt-ok false signals (response status location kind) =
      answered-ok status location false signals
  attempt-ok false signals _ = refl

  otherwise-ok :
      (a : Attempt) (h : Hop) → AttemptOk target a → HopOk target h → HopOk target (otherwise a h)
  unfolding otherwise
  otherwise-ok retry h p q = q
  otherwise-ok (ends k) h p q = p

  pub follow_one_hop-ok : (signals : List Text) → HopOk target (follow_one_hop web target signals)
  unfolding follow_one_hop
  follow_one_hop-ok signals =
      otherwise-ok _ _ (attempt-ok true signals _)
        (otherwise-ok _ _ (attempt-ok false signals _) refl)

-- The hops lead from the first URL to the second, each by its location.
abbrev pub Linked : Text → List HopRecord → Text → Type 0
Linked from [] to = from ≡ to
Linked from (h ∷ hs) to =
    (h.url ≡ from) × ((next : Text) × (h.location ≡ some next) × IsAllowed next × Linked next hs to)

-- The same, but the last hop may have ended the chain at its own URL.
abbrev pub Stops : Text → List HopRecord → Text → Type 0
Stops from [] to = from ≡ to
Stops from (h ∷ hs) to =
    (h.url ≡ from)
    × (((hs ≡ []) × (to ≡ from))
        ⊎ ((next : Text) × (h.location ≡ some next) × IsAllowed next × Stops next hs to))

pub Linked-snoc :
    (from : Text) (hs : List HopRecord) (h : HopRecord) {to next : Text}
    → Linked from hs to
    → h.url ≡ to
    → h.location ≡ some next
    → IsAllowed next
    → Linked from (hs ++ h ∷ []) next
Linked-snoc from [] h l u e a = (u ∙ sym l, (_, e, a, refl))
Linked-snoc from (k ∷ hs) h (v, (n, f, b, l)) u e a = (v, (n, f, b, Linked-snoc n hs h l u e a))

pub Linked-Stops :
    (from : Text) (hs : List HopRecord) (to : Text) → Linked from hs to → Stops from hs to
Linked-Stops from [] to l = l
Linked-Stops from (k ∷ hs) to (v, (n, f, b, l)) = (v, inr (n, f, b, Linked-Stops n hs to l))

pub Stops-snoc :
    (from : Text) (hs : List HopRecord) (h : HopRecord) {to : Text}
    → Linked from hs to
    → h.url ≡ to
    → Stops from (hs ++ h ∷ []) to
Stops-snoc from [] h l u = (u ∙ sym l, inl (refl, sym l))
Stops-snoc from (k ∷ hs) h (v, (n, f, b, l)) u = (v, inr (n, f, b, Stops-snoc n hs h l u))

-- No two hops have the same URL.
abbrev pub IsDistinct : List HopRecord → Type 0
IsDistinct [] = Unit
IsDistinct (h ∷ hs) = All (λ (k : HopRecord). k.url ≢ h.url) hs × IsDistinct hs

pub IsDistinct-snoc :
    (hs : List HopRecord) (h : HopRecord)
    → IsDistinct hs
    → All (λ (k : HopRecord). k.url ≢ h.url) hs
    → IsDistinct (hs ++ h ∷ [])
IsDistinct-snoc [] h d n = (tt, tt)
IsDistinct-snoc (k ∷ hs) h (new, d) (ne, n) = (
  All-append (λ (j : HopRecord). j.url ≢ k.url) hs (h ∷ []) new ((λ e. ne (sym e)), tt),
  IsDistinct-snoc hs h d n,
)
