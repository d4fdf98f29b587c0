-- ===== src/Unchainer/Laws.antt =====
-- The invariant of the loop over the hops, and what the whole of `unchain_url` promises.
use lin_clean_be_fastapi.Prelude.{
  mem_text-cons, mem_text-here, ℕ, zero, suc, ◌+◌, ◌≤◌, Bool, true, false, ◌≡◌, ◌≢◌, refl, inl, inr,
  Option, none, some, List, [], ◌∷◌, ◌++◌, Text, mem_text, length, length-append, if◌then◌else◌,
  arith, Bool-cases, All, All-append, All-map,
}
use lin_clean_be_fastapi.Schemas.Results.{HopRecord}
use lin_clean_be_fastapi.Unchainer.Hop.{Web, Hop, hop, raised, check_host_safety}
use lin_clean_be_fastapi.Unchainer.Chain.{State, after_hop, after_check, round, loop, start}
use lin_clean_be_fastapi.Unchainer.Walk.{
  HopOk, follow_one_hop-ok, Linked, Stops, Linked-snoc, Linked-Stops, Stops-snoc, IsDistinct,
  IsDistinct-snoc,
}

-- The URL of a hop passes the check of its host: all addresses of the host are public.
abbrev pub IsSafe : Web → HopRecord → Type 0
IsSafe web h = check_host_safety web h.url ≡ some none

module _ (web : Web) (from : Text) where
  abbrev IsSeen : List Text → HopRecord → Type 0
  IsSeen visited h = mem_text h.url visited ≡ true

  -- While the loop runs.
  pub record Live (st : State) : Type 0 where
    pub linked : Linked from st.hops st.current_url
    pub safe : All (IsSafe web) st.hops
    pub seen : All (IsSeen st.visited) st.hops
    pub distinct : IsDistinct st.hops

  -- When it has ended.
  pub record Done (st : State) : Type 0 where
    pub stops : Stops from st.hops st.current_url
    pub safe : All (IsSafe web) st.hops
    pub distinct : IsDistinct st.hops

  -- What a round may leave: the hops grew by at most one.
  abbrev Next : ℕ → Option (State × Bool) → Type 0
  Next n none = Unit
  Next n (some (st, true)) = Live st × (length st.hops ≤ suc n)
  Next n (some (st, false)) = Done st × (length st.hops ≤ suc n)

  Live-Done : (st : State) → Live st → Done st
  Live-Done st l = record {
    stops = Linked-Stops from st.hops st.current_url l.linked;
    safe = l.safe;
    distinct = l.distinct;
  }

  -- The URL of the state is new and safe, and is among the visited ones.
  record Ready (st : State) : Type 0 where
    live : Live st
    here : mem_text st.current_url st.visited ≡ true
    fresh : All (λ (k : HopRecord). k.url ≢ st.current_url) st.hops
    ok : check_host_safety web st.current_url ≡ some none

  snoc-IsSafe :
      (st : State) (h : HopRecord)
      → Ready st
      → h.url ≡ st.current_url
      → All (IsSafe web) (st.hops ++ h ∷ [])
  snoc-IsSafe st h r u = All-append (IsSafe web) st.hops (h ∷ []) r.live.safe ((rw u r.ok), tt)

  snoc-IsDistinct :
      (st : State) (h : HopRecord)
      → Ready st
      → h.url ≡ st.current_url
      → IsDistinct (st.hops ++ h ∷ [])
  snoc-IsDistinct st h r u = IsDistinct-snoc st.hops h r.live.distinct (rw u r.fresh)

  snoc-IsSeen :
      (st : State) (h : HopRecord)
      → Ready st
      → h.url ≡ st.current_url
      → All (IsSeen st.visited) (st.hops ++ h ∷ [])
  snoc-IsSeen st h r u =
      All-append (IsSeen st.visited) st.hops (h ∷ []) r.live.seen ((rw u r.here), tt)

  length-snoc : (hs : List HopRecord) (h : HopRecord) → length (hs ++ h ∷ []) ≤ suc (length hs)
  length-snoc hs h = omega (arith, length-append hs (h ∷ []))

  after_hop-Next :
      (st : State) (h : Hop)
      → Ready st
      → HopOk st.current_url h
      → Next (length st.hops) (after_hop st h)
  unfolding after_hop
  after_hop-Next st raised r o = tt
  after_hop-Next st (hop none next (some error) signals) r o = (
    record { stops = (Live-Done st r.live).stops; safe = r.live.safe; distinct = r.live.distinct },
    omega arith,
  )
  after_hop-Next st (hop none none none signals) r o = (
    record { stops = (Live-Done st r.live).stops; safe = r.live.safe; distinct = r.live.distinct },
    omega arith,
  )
  after_hop-Next st (hop none (some next) none signals) r o = cc
  after_hop-Next st (hop (some h) none (some error) signals) r o = (
    record {
      stops = Stops-snoc from st.hops h r.live.linked o;
      safe = snoc-IsSafe st h r o;
      distinct = snoc-IsDistinct st h r o;
    },
    length-snoc st.hops h,
  )
  after_hop-Next st (hop (some h) none none signals) r o = (
    record {
      stops = Stops-snoc from st.hops h r.live.linked o;
      safe = snoc-IsSafe st h r o;
      distinct = snoc-IsDistinct st h r o;
    },
    length-snoc st.hops h,
  )
  after_hop-Next st (hop (some h) (some next) (some error) signals) r (u, e, n, a) = cc
  after_hop-Next st (hop (some h) (some next) none signals) r (u, e, n, a) = (
    record {
      linked = Linked-snoc from st.hops h r.live.linked u e a;
      safe = snoc-IsSafe st h r u;
      seen = snoc-IsSeen st h r u;
      distinct = snoc-IsDistinct st h r u;
    },
    length-snoc st.hops h,
  )

  after_check-Next :
      (st : State) (c : Option (Option Text))
      → check_host_safety web st.current_url ≡ c
      → Live st
      → mem_text st.current_url st.visited ≡ true
      → All (λ (k : HopRecord). k.url ≢ st.current_url) st.hops
      → Next (length st.hops) (after_check web st c)
  unfolding after_check
  after_check-Next st none e l here fresh = tt
  after_check-Next st (some none) e l here fresh =
      after_hop-Next st _ (record { live = l; here = here; fresh = fresh; ok = e })
        (follow_one_hop-ok web st.current_url st.signals)
  after_check-Next st (some (some error)) e l here fresh =
      (record { stops = (Live-Done st l).stops; safe = l.safe; distinct = l.distinct }, omega arith)

  unseen-≢ :
      (s t : Text) (visited : List Text)
      → mem_text s visited ≡ true
      → mem_text t visited ≡ false
      → s ≢ t
  unseen-≢ s t visited p q e = cc

  round-Next : (st : State) → Live st → Next (length st.hops) (round web st)
  unfolding round
  round-Next st l = elim (Bool-cases (mem_text st.current_url st.visited)) [
    | inl e ↦ rw e (
      record { stops = (Live-Done st l).stops; safe = l.safe; distinct = l.distinct },
      omega arith,
    )
    | inr e ↦ rw e (
        after_check-Next (record st { visited = st.current_url ∷ st.visited }) _ refl
          (record {
            linked = l.linked;
            safe = l.safe;
            seen =
                All-map (λ (h : HopRecord). mem_text-cons h.url st.current_url st.visited) st.hops
                  l.seen;
            distinct = l.distinct;
          })
          (mem_text-here st.current_url st.visited)
          (All-map
            (λ (h : HopRecord) (p : IsSeen st.visited h).
              unseen-≢ h.url st.current_url st.visited p e)
            st.hops l.seen))
  ]

  -- What the loop leaves: within `n` more hops.
  abbrev pub Ended : ℕ → Option State → Type 0
  Ended n none = Unit
  Ended n (some st) = Done st × (length st.hops ≤ n)

  Ended-mono : (n k : ℕ) (r : Option State) → n ≤ k → Ended n r → Ended k r
  Ended-mono n k none h e = tt
  Ended-mono n k (some st) h (d, l) = (d, omega arith)

  continue-Ended :
      (n k : ℕ) (r : Option (State × Bool))
      → Next k r
      → ((st : State) → Live st → Ended (length st.hops + n) (loop web n st))
      → Ended (k + suc n) (elim r [
        | none ↦ none
        | some (st', goes_on) ↦ let rest = loop web n st' in if goes_on then rest else some st'
      ])
  continue-Ended n k none h ih = tt
  continue-Ended n k (some (st, true)) (l, m) ih =
      Ended-mono (length st.hops + n) (k + suc n) (loop web n st) (omega arith) (ih st l)
  continue-Ended n k (some (st, false)) (d, m) ih = (d, omega arith)

  pub loop-Ended : (n : ℕ) (st : State) → Live st → Ended (length st.hops + n) (loop web n st)
  unfolding loop
  loop-Ended zero st l =
      (record { stops = (Live-Done st l).stops; safe = l.safe; distinct = l.distinct }, omega arith)
  loop-Ended (suc n) st l =
      continue-Ended n (length st.hops) (round web st) (round-Next st l)
        (λ st' l'. loop-Ended n st' l')

  -- From the first state.
  pub start-Ended : (n : ℕ) (signals : List Text) → Ended n (loop web n (start from signals))
  start-Ended n signals = Ended-mono (0 + n) n (loop web n (start from signals)) (omega arith) (
      loop-Ended n (start from signals)
        (record { linked = refl; safe = tt; seen = tt; distinct = tt }))
