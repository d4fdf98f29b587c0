-- ===== src/Unchainer/Raises.antt =====
-- When one hop raises nothing.
use lin_clean_be_fastapi.Prelude.{
  ℕ, Bool, true, false, ◌&&◌, ◌||◌, ◌≡◌, Option, none, some, List, Text, mem_text, truthy, or_text,
  is_empty, ◌∷◌, leb, ◌==◌, Bool-cases, inl, inr, [], text,
}
use lin_clean_be_fastapi.Urllib.{SplitResult, urlsplit, hostname}
use lin_clean_be_fastapi.Unchainer.Chain.{https_variant, probe_succeeds}
use lin_clean_be_fastapi.Unchainer.Hop.{
  Reply, response, other_error, Web, Hop, hop, raised, Attempt, retry, ends, allowed_schemes,
  redirect_code, follow_location, follow_parsed, follow_joined, redirected, answered, attempt,
  otherwise, follow_one_hop,
}

abbrev pub IsReturned {ℓ} : {A : Type ℓ} → Option A → Type 0
IsReturned none = ⊥
IsReturned (some a) = Unit

-- `urlparse` raises no ValueError.
abbrev pub IsParsed : Text → Type 0
IsParsed target = IsReturned (urlsplit target)

abbrev pub LandsIn : (Text → Type 0) → Option Text → Type 0
LandsIn P none = ⊥
LandsIn P (some next) = P next

-- A reply that is no exception that the code does not catch, and whose location, once it is joined,
-- is one of the URLs.
abbrev pub Lands : (Text → Type 0) → Web → Text → Reply → Type 0
Lands P web target other_error = ⊥
Lands P web target (response status (some raw) kind) = LandsIn P (web.urljoin target raw)
Lands P web target _ = Unit

abbrev pub Resolves : Web → Option SplitResult → Type 0
Resolves web none = ⊥
Resolves web (some parts) = IsReturned (web.resolve (hostname parts))

-- A set of URLs that parse and whose hosts can be looked up, with the https variants of its URLs and
-- the locations that they send.
pub record IsClosed (web : Web) (probe : Text → Reply) (P : Text → Type 0) : Type 0 where
  pub resolves : (target : Text) → P target → Resolves web (urlsplit target)
  pub lands : (method target : Text) → P target → Lands P web target (web.send method target)
  pub upgrades :
      (target variant : Text) → P target → https_variant target ≡ some variant → P variant
  pub probes : (target : Text) → P target → IsReturned (probe_succeeds (probe target))

-- A hop that raised nothing, and leads to a URL of the set if to any.
abbrev pub NotRaised : (Text → Type 0) → Hop → Type 0
NotRaised P raised = ⊥
NotRaised P (hop _ none _ _) = Unit
NotRaised P (hop _ (some next) _ _) = P next

abbrev Fine : (Text → Type 0) → Attempt → Type 0
Fine P retry = Unit
Fine P (ends h) = NotRaised P h

pub Resolves-IsReturned :
    (web : Web) (parts : Option SplitResult) → Resolves web parts → IsReturned parts
Resolves-IsReturned web none h = h
Resolves-IsReturned web (some parts) h = tt

module _ (web : Web) (probe : Text → Reply) (P : Text → Type 0) (closed : IsClosed web probe P)
    (target : Text) (here_in : P target) where
  parses : (url : Text) → P url → IsReturned (urlsplit url)
  parses url p = Resolves-IsReturned web (urlsplit url) (closed.resolves url p)

  follow_parsed-NotRaised :
      (status : ℕ) (raw : Text) (is_head : Bool) (signals : List Text) (next : Text)
      (there here : Option SplitResult)
      → P next
      → IsReturned there
      → IsReturned here
      → NotRaised P (follow_parsed target status raw is_head signals next there here)
  unfolding follow_parsed follow_location
  follow_parsed-NotRaised status raw is_head signals next none here n p q = p
  follow_parsed-NotRaised status raw is_head signals next (some there) none n p q = absurd q
  follow_parsed-NotRaised status raw is_head signals next (some there) (some here) n p q =
      elim (Bool-cases (mem_text there.scheme allowed_schemes)) [ inl e ↦ rw e n | inr e ↦ rw e tt ]

  follow_joined-NotRaised :
      (status : ℕ) (raw : Text) (is_head : Bool) (signals : List Text) (next : Option Text)
      → LandsIn P next
      → NotRaised P (follow_joined target status raw is_head signals next)
  unfolding follow_joined
  follow_joined-NotRaised status raw is_head signals none p = p
  follow_joined-NotRaised status raw is_head signals (some next) p =
      follow_parsed-NotRaised status raw is_head signals next (urlsplit next) (urlsplit target) p
        (parses next p) (parses target here_in)

  redirected-Fine :
      (status : ℕ) (location : Option Text) (kind : Text) (is_head : Bool) (signals : List Text)
      → Lands P web target (response status location kind)
      → Fine P (redirected web target status location is_head signals)
  unfolding redirected truthy or_text is_empty
  redirected-Fine status none kind true signals h = tt
  redirected-Fine status none kind false signals h = tt
  redirected-Fine status (some []) kind true signals h = tt
  redirected-Fine status (some []) kind false signals h = tt
  redirected-Fine status (some (c ∷ s)) kind is_head signals h =
      follow_joined-NotRaised status (c ∷ s) is_head signals (web.urljoin target (c ∷ s)) h

  answered-Fine :
      (status : ℕ) (location : Option Text) (kind : Text) (is_head : Bool) (signals : List Text)
      → Lands P web target (response status location kind)
      → Fine P (answered web target status location is_head signals)
  unfolding answered
  answered-Fine status location kind is_head signals h =
      elim (Bool-cases (is_head && (status == 405 || status == 403 || status == 400))) [
        | inl e ↦ rw e tt
        | inr e ↦ elim (Bool-cases (leb 500 status)) [
          | inl f ↦ rw (e, f) tt
          | inr f ↦ elim (Bool-cases (redirect_code status)) [
            | inl g ↦ rw (e, f, g) (redirected-Fine status location kind is_head signals h)
            | inr g ↦ rw (e, f, g) tt
          ]
        ]
      ]

  attempt-Fine :
      (is_head : Bool) (signals : List Text) (reply : Reply)
      → Lands P web target reply
      → Fine P (attempt web target is_head signals reply)
  unfolding attempt
  attempt-Fine is_head signals (response status location kind) h =
      answered-Fine status location kind is_head signals h
  attempt-Fine is_head signals other_error h = h
  attempt-Fine true signals _ h = tt
  attempt-Fine false signals _ h = tt

  otherwise-NotRaised :
      (a : Attempt) (h : Hop) → Fine P a → NotRaised P h → NotRaised P (otherwise a h)
  unfolding otherwise
  otherwise-NotRaised retry h p q = q
  otherwise-NotRaised (ends k) h p q = p

  pub follow_one_hop-NotRaised :
      (signals : List Text) → NotRaised P (follow_one_hop web target signals)
  unfolding follow_one_hop
  follow_one_hop-NotRaised signals =
      let fine = λ (is_head : Bool) (method : Text).
        attempt-Fine is_head signals (web.send method target)
          (closed.lands method target here_in) in
      otherwise-NotRaised _ _ (fine true (text "HEAD"))
        (otherwise-NotRaised _ _ (fine false (text "GET")) tt)
