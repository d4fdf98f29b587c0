-- ===== src/Unchainer/Total.antt =====
-- When `unchain_url` raises nothing.
use lin_clean_be_fastapi.Prelude.{
  ℕ, zero, suc, Bool, true, false, ◌≡◌, refl, Option, none, some, ◌∷◌, Text, mem_text, Bool-cases,
  List, is_empty, inl, inr, if◌then◌else◌,
}
use lin_clean_be_fastapi.Schemas.Results.{UnchainResult}
use lin_clean_be_fastapi.Urllib.{SplitResult, urlsplit, hostname}
use lin_clean_be_fastapi.Unchainer.Hop.{
  Reply, Web, Hop, hop, raised, check_addresses, check_host_safety, check_parsed,
}
use lin_clean_be_fastapi.Unchainer.Chain.{
  State, after_hop, after_check, round, loop, first_state, upgrade, https_variant,
  unchain_url_inner, unchain_url, to_result, probe_succeeds, chosen, after_safety, follow,
}
use lin_clean_be_fastapi.Unchainer.Raises.{
  IsReturned, IsClosed, Resolves, NotRaised, follow_one_hop-NotRaised,
}

-- A round ends, and where the loop goes on, the next URL is one of the set.
abbrev Goes : (Text → Type 0) → Option (State × Bool) → Type 0
Goes P none = ⊥
Goes P (some (st, true)) = P st.current_url
Goes P (some (st, false)) = Unit

after_hop-Goes :
    (P : Text → Type 0) (st : State) (h : Hop) → NotRaised P h → Goes P (after_hop st h)
unfolding after_hop
after_hop-Goes P st raised p = p
after_hop-Goes P st (hop k next (some error) signals) p = tt
after_hop-Goes P st (hop k none none signals) p = tt
after_hop-Goes P st (hop k (some next) none signals) p = p

module _ (web : Web) (probe : Text → Reply) (P : Text → Type 0)
    (closed : IsClosed web probe P) where
  addresses-IsReturned :
      (found : Option (Option (List Text)))
      → IsReturned found
      → IsReturned (check_addresses web found)
  unfolding check_addresses
  addresses-IsReturned none h = h
  addresses-IsReturned (some none) h = tt
  addresses-IsReturned (some (some ips)) h = tt

  parsed-IsReturned :
      (parts : Option SplitResult)
      → Resolves web parts
      → IsReturned (elim parts as (λ (o : Option SplitResult). Option (Option Text)) [
        | none ↦ none
        | some p ↦ check_parsed web p
      ])
  unfolding check_parsed
  parsed-IsReturned none h = h
  parsed-IsReturned (some parts) h = elim (Bool-cases (is_empty (hostname parts))) [
    | inl e ↦ rw (e, check_parsed) tt
    | inr e ↦ rw (e, check_parsed) (addresses-IsReturned (web.resolve (hostname parts)) h)
  ]

  check_host_safety-IsReturned :
      (target : Text) → P target → IsReturned (check_host_safety web target)
  unfolding check_host_safety
  check_host_safety-IsReturned target p =
      parsed-IsReturned (urlsplit target) (closed.resolves target p)

  after_check-Goes :
      (st : State) (c : Option (Option Text))
      → P st.current_url
      → IsReturned c
      → Goes P (after_check web st c)
  unfolding after_check
  after_check-Goes st none p r = r
  after_check-Goes st (some (some error)) p r = tt
  after_check-Goes st (some none) p r =
      after_hop-Goes P st _
        (follow_one_hop-NotRaised web probe P closed st.current_url p st.signals)

  round-Goes : (st : State) → P st.current_url → Goes P (round web st)
  unfolding round
  round-Goes st p = elim (Bool-cases (mem_text st.current_url st.visited)) [
    | inl e ↦ rw e tt
    | inr e ↦ rw e (
        after_check-Goes (record st { visited = st.current_url ∷ st.visited }) _ p
          (check_host_safety-IsReturned st.current_url p))
  ]

  continue-IsReturned :
      (n : ℕ) (r : Option (State × Bool))
      → Goes P r
      → ((st : State) → P st.current_url → IsReturned (loop web n st))
      → IsReturned (elim r [
        | none ↦ none
        | some (st', goes_on) ↦ let rest = loop web n st' in if goes_on then rest else some st'
      ])
  continue-IsReturned n none g ih = g
  continue-IsReturned n (some (st, true)) g ih = ih st g
  continue-IsReturned n (some (st, false)) g ih = tt

  loop-IsReturned : (n : ℕ) (st : State) → P st.current_url → IsReturned (loop web n st)
  unfolding loop
  loop-IsReturned zero st p = tt
  loop-IsReturned (suc n) st p =
      continue-IsReturned n (round web st) (round-Goes st p) (λ st' p'. loop-IsReturned n st' p')

  -- The choice of the first URL raises nothing and stays in the set.
  abbrev Chooses : Option (Option Text) → Type 0
  Chooses none = ⊥
  Chooses (some none) = Unit
  Chooses (some (some u)) = P u

  chosen-Chooses : (v : Text) (o : Option Bool) → P v → IsReturned o → Chooses (chosen v o)
  unfolding chosen
  chosen-Chooses v none p h = h
  chosen-Chooses v (some true) p h = p
  chosen-Chooses v (some false) p h = tt

  after_safety-Chooses :
      (v : Text) (c : Option (Option Text)) → P v → IsReturned c → Chooses (after_safety probe v c)
  unfolding after_safety
  after_safety-Chooses v none p h = h
  after_safety-Chooses v (some (some error)) p h = tt
  after_safety-Chooses v (some none) p h =
      chosen-Chooses v (probe_succeeds (probe v)) p (closed.probes v p)

  upgrade-Chooses :
      (variant : Option Text)
      → ((v : Text) → variant ≡ some v → P v)
      → Chooses (upgrade web probe variant)
  unfolding upgrade
  upgrade-Chooses none h = tt
  upgrade-Chooses (some v) h =
      after_safety-Chooses v (check_host_safety web v) (h v refl)
        (check_host_safety-IsReturned v (h v refl))

  finish-IsReturned :
      (target : Text) (r : Option State)
      → IsReturned r
      → IsReturned (elim r as (λ (o : Option State). Option UnchainResult) [
        | none ↦ none
        | some st ↦ some (to_result target st)
      ])
  finish-IsReturned target none h = h
  finish-IsReturned target (some st) h = tt

  follow-IsReturned :
      (max_hops : ℕ) (target : Text) (upgraded : Option (Option Text))
      → P target
      → Chooses upgraded
      → IsReturned (follow web max_hops target upgraded)
  unfolding follow first_state
  follow-IsReturned max_hops target none p c = c
  follow-IsReturned max_hops target (some none) p c =
      finish-IsReturned target _ (loop-IsReturned max_hops _ p)
  follow-IsReturned max_hops target (some (some u)) p c =
      finish-IsReturned target _ (loop-IsReturned max_hops _ c)

  inner-IsReturned :
      (max_hops : ℕ) (target : Text) (prefer_https : Bool)
      → P target
      → IsReturned (unchain_url_inner web probe max_hops target prefer_https)
  unfolding unchain_url_inner
  inner-IsReturned max_hops target true p =
      follow-IsReturned max_hops target _ p
        (upgrade-Chooses (https_variant target) (λ v e. closed.upgrades target v p e))
  inner-IsReturned max_hops target false p = follow-IsReturned max_hops target (some none) p tt

-- Take a set of URLs with the given one that is closed: its URLs parse and their hosts are looked up
-- without an exception but OSError; requests for them end in an answer or in an HTTPError; and it has
-- their https variants and the locations that they send. Then `unchain_url` returns a result, whatever
-- is answered, redirect loops included, and whether or not the chain ends in time.
pub unchain_url-IsReturned :
    (web : Web) (probe : Text → Reply) (P : Text → Type 0) (max_hops : ℕ)
    (in_time prefer_https : Bool) (target : Text)
    → IsClosed web probe P
    → P target
    → IsReturned (unchain_url web probe max_hops in_time target prefer_https)
unfolding unchain_url
unchain_url-IsReturned web probe P max_hops true prefer_https target closed p =
    inner-IsReturned web probe P closed max_hops target prefer_https p
unchain_url-IsReturned web probe P max_hops false prefer_https target closed p = tt
