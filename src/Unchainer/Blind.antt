-- ===== src/Unchainer/Blind.antt =====
-- What hosts that do not pass the check would answer has no effect on the chain.
use lin_clean_be_fastapi.Prelude.{
  ℕ, zero, suc, Bool, true, false, ◌≡◌, refl, Option, none, some, List, [], ◌∷◌, Text, text,
  mem_text, Bool-cases, Option-cases, inl, inr, if◌then◌else◌,
}
use lin_clean_be_fastapi.Urllib.{urlsplit, hostname}
use lin_clean_be_fastapi.Unchainer.Hop.{
  Reply, Web, is_private_ip, any_private, check_addresses, check_parsed, check_host_safety, attempt,
  answered, redirected, follow_one_hop,
}
use lin_clean_be_fastapi.Unchainer.Chain.{
  State, after_check, round, loop, first_state, after_safety, upgrade, https_variant, follow,
  unchain_url_inner, unchain_url,
}

module _ (web : Web) (send : Text → Text → Reply)
    (same : (method target : Text)
      → check_host_safety web target ≡ some none
      → send method target ≡ web.send method target) where
  -- The web with other answers.
  abbrev other : Web
  other = record web { send = send }

  private_same : (ips : List Text) → any_private other ips ≡ any_private web ips
  unfolding any_private is_private_ip
  private_same [] = refl
  private_same (ip ∷ ips) = rw (private_same ips) refl

  addresses_same :
      (found : Option (Option (List Text)))
      → check_addresses other found ≡ check_addresses web found
  unfolding check_addresses
  addresses_same none = refl
  addresses_same (some none) = refl
  addresses_same (some (some ips)) = rw (private_same ips) refl

  safety_same : (target : Text) → check_host_safety other target ≡ check_host_safety web target
  unfolding check_host_safety check_parsed
  safety_same target = elim (Option-cases (urlsplit target)) [
    | inl e ↦ rw (e, check_host_safety) refl
    | inr (parts, e) ↦
        rw (e, check_host_safety, check_parsed, addresses_same (web.resolve (hostname parts))) refl
  ]

  hop_same :
      (target : Text) (signals : List Text)
      → check_host_safety web target ≡ some none
      → follow_one_hop other target signals ≡ follow_one_hop web target signals
  unfolding follow_one_hop attempt answered redirected
  hop_same target signals safe =
      rw (same (text "HEAD") target safe, same (text "GET") target safe) refl

  after_check_same :
      (st : State) (c : Option (Option Text))
      → check_host_safety web st.current_url ≡ c
      → after_check other st c ≡ after_check web st c
  unfolding after_check
  after_check_same st none e = refl
  after_check_same st (some (some error)) e = refl
  after_check_same st (some none) e = rw (hop_same st.current_url st.signals e) refl

  round_same : (st : State) → round other st ≡ round web st
  unfolding round
  round_same st = elim (Bool-cases (mem_text st.current_url st.visited)) [
    | inl e ↦ rw (e, round) refl
    | inr e ↦
        rw (e, round, safety_same st.current_url)
          (after_check_same (record st { visited = st.current_url ∷ st.visited }) _ refl)
  ]

  -- Going on after one round.
  go_on_same :
      (n : ℕ)
      → ((st : State) → loop other n st ≡ loop web n st)
      → (r : Option (State × Bool))
      → (elim r as (λ x. Option State) [
        | none ↦ none
        | some x ↦ if x.1 then loop other n x.0 else some x.0
      ])
        ≡ (elim r as (λ x. Option State) [
          | none ↦ none
          | some x ↦ if x.1 then loop web n x.0 else some x.0
        ])
  go_on_same n ih none = refl
  go_on_same n ih (some (st, true)) = ih st
  go_on_same n ih (some (st, false)) = refl

  loop_same : (n : ℕ) (st : State) → loop other n st ≡ loop web n st
  unfolding loop
  loop_same zero st = refl
  loop_same (suc n) st = rw (round_same st, loop) (go_on_same n (loop_same n) (round web st))

  module _ (probe probe' : Text → Reply)
      (as_probe : (target : Text)
        → check_host_safety web target ≡ some none
        → probe' target ≡ probe target) where
    checked_same :
        (variant : Text) (c : Option (Option Text))
        → check_host_safety web variant ≡ c
        → after_safety probe' variant c ≡ after_safety probe variant c
    unfolding after_safety
    checked_same variant none e = refl
    checked_same variant (some (some error)) e = refl
    checked_same variant (some none) e = rw (as_probe variant e) refl

    upgrade_same :
        (variant : Option Text) → upgrade other probe' variant ≡ upgrade web probe variant
    unfolding upgrade
    upgrade_same none = refl
    upgrade_same (some variant) =
        rw (safety_same variant) (checked_same variant (check_host_safety web variant) refl)

    follow_same :
        (max_hops : ℕ) (target : Text) (upgraded : Option (Option Text))
        → follow other max_hops target upgraded ≡ follow web max_hops target upgraded
    unfolding follow
    follow_same max_hops target none = refl
    follow_same max_hops target (some upgraded) =
        rw (loop_same max_hops (first_state target upgraded), follow) refl

    inner_same :
        (max_hops : ℕ) (target : Text) (prefer_https : Bool)
        → unchain_url_inner other probe' max_hops target prefer_https
          ≡ unchain_url_inner web probe max_hops target prefer_https
    unfolding unchain_url_inner
    inner_same max_hops target true =
        rw (upgrade_same (https_variant target))
          (follow_same max_hops target (upgrade web probe (https_variant target)))
    inner_same max_hops target false = follow_same max_hops target (some none)

    -- The whole of `unchain_url` gives the same.
    pub unchain_url-same :
        (max_hops : ℕ) (in_time : Bool) (target : Text) (prefer_https : Bool)
        → unchain_url other probe' max_hops in_time target prefer_https
          ≡ unchain_url web probe max_hops in_time target prefer_https
    unfolding unchain_url
    unchain_url-same max_hops true target prefer_https = inner_same max_hops target prefer_https
    unchain_url-same max_hops false target prefer_https = refl
