-- ===== src/Unchainer/Safety.antt =====
-- What `unchain_url` promises of the hops that it reports.
use lin_clean_be_fastapi.Prelude.{
  ℕ, ◌≤◌, Bool, true, false, ◌≡◌, refl, ◌⊎◌, inl, inr, Option, none, some, [], ◌∷◌, Text, text,
  length, arith, All,
}
use lin_clean_be_fastapi.Schemas.Results.{UnchainResult}
use lin_clean_be_fastapi.Unchainer.Hop.{Reply, Web, check_host_safety}
use lin_clean_be_fastapi.Unchainer.Chain.{
  State, first_state, to_result, upgrade, https_variant, chosen, after_safety, follow,
  probe_succeeds, unchain_url_inner, unchain_url,
}
use lin_clean_be_fastapi.Unchainer.Walk.{Stops, IsDistinct}
use lin_clean_be_fastapi.Unchainer.Blind.{unchain_url-same}
use lin_clean_be_fastapi.Unchainer.Laws.{IsSafe, Ended, start-Ended}

-- The chain begins at the URL that was given, or at its variant with https.
abbrev pub Begins : Text → Text → Type 0
Begins target from = (from ≡ target) ⊎ (https_variant target ≡ some from)

-- What holds of a result with the bound on the hops; `none` is a ValueError.
abbrev pub IsChain : Web → ℕ → Text → Option UnchainResult → Type 0
IsChain web max_hops target none = Unit
IsChain web max_hops target (some r) =
    ((from : Text) × Begins target from × Stops from r.hops r.final_url)
    × All (IsSafe web) r.hops
    × IsDistinct r.hops
    × (r.hop_count ≡ length r.hops)
    × (r.hop_count ≤ max_hops)
    × (r.input_url ≡ target)

upgrade-variant :
    (web : Web) (probe : Text → Reply) (variant : Option Text) (u : Text)
    → upgrade web probe variant ≡ some (some u)
    → variant ≡ some u
unfolding upgrade after_safety chosen
upgrade-variant web probe none u e = absurd cc
upgrade-variant web probe (some v) u e = checked (check_host_safety web v) e
  where
    answered : (o : Option Bool) → chosen v o ≡ some (some u) → some v ≡ some u
    answered none e = absurd cc
    answered (some true) e = cc
    answered (some false) e = absurd cc

    checked : (c : Option (Option Text)) → after_safety probe v c ≡ some (some u) → some v ≡ some u
    checked none e = absurd cc
    checked (some (some error)) e = absurd cc
    checked (some none) e = answered (probe_succeeds (probe v)) e

module _ (web : Web) (max_hops : ℕ) (target : Text) where
  Ended-IsChain :
      (from : Text) (r : Option State)
      → Begins target from
      → Ended web from max_hops r
      → IsChain web max_hops target (elim r [ none ↦ none | some st ↦ some (to_result target st) ])
  unfolding to_result
  Ended-IsChain from none b e = tt
  Ended-IsChain from (some st) b (d, l) = ((from, b, d.stops), d.safe, d.distinct, refl, l, refl)

  follow-IsChain :
      (upgraded : Option (Option Text))
      → ((u : Text) → upgraded ≡ some (some u) → Begins target u)
      → IsChain web max_hops target (follow web max_hops target upgraded)
  unfolding follow first_state
  follow-IsChain none b = tt
  follow-IsChain (some none) b =
      Ended-IsChain target _ (inl refl) (start-Ended web target max_hops [])
  follow-IsChain (some (some u)) b =
      Ended-IsChain u _ (b u refl)
        (start-Ended web u max_hops (text "schemeless_https_upgrade" ∷ []))

  inner-IsChain :
      (probe : Text → Reply) (prefer_https : Bool)
      → IsChain web max_hops target (unchain_url_inner web probe max_hops target prefer_https)
  unfolding unchain_url_inner
  inner-IsChain probe true =
      follow-IsChain (upgrade web probe (https_variant target))
        (λ u e. inr (upgrade-variant web probe (https_variant target) u e))
  inner-IsChain probe false = follow-IsChain (some none) (λ u e. absurd cc)

  -- Of any result, whether or not the time ran out.
  result-IsChain :
      (probe : Text → Reply) (in_time prefer_https : Bool)
      → IsChain web max_hops target (unchain_url web probe max_hops in_time target prefer_https)
  unfolding unchain_url
  result-IsChain probe true prefer_https = inner-IsChain probe prefer_https
  result-IsChain probe false prefer_https =
      ((target, inl refl, refl), tt, tt, refl, omega arith, refl)

  -- Whatever the servers answer, where `unchain_url` returns a result (and raises no exception):
  -- its hops lead, each by its location, from the given URL (or its https variant) to `final_url`,
  -- and every location that was followed parses with the scheme http or https; each hop's URL passes
  -- the check of its host; no two hops have the same URL; and `hop_count` is the number of hops and
  -- at most `max_hops`. And what a URL that does not pass the check of its host would answer, to a
  -- request or to the probe, makes no difference: with any other answers and any other probe that
  -- agree on the URLs that pass the check, the outcome, a result or an exception, is the same.
  pub unchain_url-IsChain :
      (probe : Text → Reply) (send : Text → Text → Reply) (other_probe : Text → Reply)
      → ((method url : Text)
          → check_host_safety web url ≡ some none
          → send method url ≡ web.send method url)
      → ((url : Text) → check_host_safety web url ≡ some none → other_probe url ≡ probe url)
      → (in_time prefer_https : Bool)
      → IsChain web max_hops target (unchain_url web probe max_hops in_time target prefer_https)
        × (unchain_url (record web { send = send }) other_probe max_hops in_time target prefer_https
            ≡ unchain_url web probe max_hops in_time target prefer_https)
  unchain_url-IsChain probe send other_probe same as_probe in_time prefer_https = (
    result-IsChain probe in_time prefer_https,
    unchain_url-same web send same probe other_probe as_probe max_hops in_time target prefer_https,
  )
