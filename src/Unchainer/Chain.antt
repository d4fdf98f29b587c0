-- ===== src/Unchainer/Chain.antt =====
-- The loop over the hops, and the upgrade of a URL that was given without a scheme.
use lin_clean_be_fastapi.Prelude.{
  ℕ, zero, suc, Bool, true, false, ◌&&◌, ◌||◌, not, Option, none, some, List, [], ◌∷◌, ◌++◌, Text,
  text, is_empty, text_eq, mem_text, contains, length, leb, ltb, if◌then◌else◌,
}
use lin_clean_be_fastapi.Schemas.Results.{HopRecord, UnchainResult}
use lin_clean_be_fastapi.Urllib.{urlsplit, urlunparse, hostname, lower}
use lin_clean_be_fastapi.Unchainer.Hop.{
  Reply, response, other_error, Web, Hop, hop, raised, check_host_safety, follow_one_hop,
}

-- The local variables of `_unchain_url_inner`.
pub record State : Type 0 where
  pub hops : List HopRecord
  pub signals : List Text
  pub visited : List Text
  pub current_url : Text
  pub error : Option Text
  pub timed_out : Bool

abbrev pub add_hop : List HopRecord → Option HopRecord → List HopRecord
add_hop hops none = hops
add_hop hops (some h) = hops ++ h ∷ []

-- The state after a hop, and whether the loop goes on. `none` is an exception.
unfoldable pub after_hop : State → Hop → Option (State × Bool)
after_hop st raised = none
after_hop st (hop record_ next (some error) signals) = some (
  record st {
    hops = add_hop st.hops record_;
    signals = signals;
    error = some error;
    timed_out = st.timed_out || text_eq error (text "timeout");
  },
  false,
)
after_hop st (hop record_ none none signals) =
    some (record st { hops = add_hop st.hops record_; signals = signals }, false)
after_hop st (hop record_ (some next) none signals) =
    some (record st { hops = add_hop st.hops record_; signals = signals; current_url = next }, true)

-- After the check of the host.
unfoldable pub after_check : Web → State → Option (Option Text) → Option (State × Bool)
after_check web st none = none
after_check web st (some (some error)) = some (
  record st {
    error = some error;
    signals =
        if text_eq error (text "ssrf_blocked")
        then st.signals ++ text "ssrf_blocked" ∷ []
        else st.signals;
  },
  false,
)
after_check web st (some none) = after_hop st (follow_one_hop web st.current_url st.signals)

-- One round of the loop.
unfoldable pub round : Web → State → Option (State × Bool)
round web st =
    if mem_text st.current_url st.visited
    then some (record st { signals = st.signals ++ text "redirect_loop" ∷ [] }, false)
    else after_check web (record st { visited = st.current_url ∷ st.visited })
        (check_host_safety web st.current_url)

-- The loop with the number of rounds that are left. Its `else` branch adds the last signal.
unfoldable pub loop : Web → ℕ → State → Option State
loop web zero st = some (record st { signals = st.signals ++ text "max_hops_reached" ∷ [] })
loop web (suc n) st = elim (round web st) [
  | none ↦ none
  | some (st', goes_on) ↦ let rest = loop web n st' in if goes_on then rest else some st'
]

-- `_https_variant`, of a URL that parses: the URL with the scheme https. Where it does not parse, the
-- ValueError comes with the first round of the loop instead.
unfoldable pub https_variant : Text → Option Text
https_variant target = elim (urlsplit target) [
  | none ↦ none
  | some parts ↦
      if text_eq parts.scheme (text "http") && not (is_empty (hostname parts))
      then some (urlunparse (record parts { scheme = text "https" }))
      else none
]

-- `_is_analyzable_html_response` and the exceptions of the probe, of which only an HTTPError and a
-- timeout are caught.
unfoldable pub probe_succeeds : Reply → Option Bool
probe_succeeds (response status _ content_type) =
    some (leb 200 status && (ltb status 400 && contains (text "text/html") (lower content_type)))
probe_succeeds other_error = none
probe_succeeds _ = some false

-- The URL to use after the probe.
unfoldable pub chosen : Text → Option Bool → Option (Option Text)
chosen https_url none = none
chosen https_url (some answers) = some (if answers then some https_url else none)

-- After the check of the host, of which the outer `none` is an exception.
unfoldable pub after_safety : (Text → Reply) → Text → Option (Option Text) → Option (Option Text)
after_safety probe https_url none = none
after_safety probe https_url (some (some error)) = some none
after_safety probe https_url (some none) = chosen https_url (probe_succeeds (probe https_url))

-- `_https_responds` and the upgrade: the URL to use for a probe that answers. The outer `none` is an
-- exception.
unfoldable pub upgrade : Web → (Text → Reply) → Option Text → Option (Option Text)
upgrade web probe none = some none
upgrade web probe (some https_url) = after_safety probe https_url (check_host_safety web https_url)

abbrev pub start : Text → List Text → State
start target signals = record {
  hops = [];
  signals = signals;
  visited = [];
  current_url = target;
  error = none;
  timed_out = false;
}

-- The state in which the loop begins.
unfoldable pub first_state : Text → Option Text → State
first_state target none = start target []
first_state target (some https_url) = start https_url (text "schemeless_https_upgrade" ∷ [])

unfoldable pub to_result : Text → State → UnchainResult
to_result target st = record {
  input_url = target;
  final_url = st.current_url;
  hops = st.hops;
  hop_count = length st.hops;
  timed_out = st.timed_out;
  error = st.error;
  signals = st.signals;
}

-- From the choice of the first URL on.
unfoldable pub follow : Web → ℕ → Text → Option (Option Text) → Option UnchainResult
follow web max_hops target none = none
follow web max_hops target (some upgraded) =
    elim (loop web max_hops (first_state target upgraded)) [
      | none ↦ none
      | some st ↦ some (to_result target st)
    ]

unfoldable pub unchain_url_inner : Web → (Text → Reply) → ℕ → Text → Bool → Option UnchainResult
unchain_url_inner web probe max_hops target prefer_https =
    if prefer_https
    then follow web max_hops target (upgrade web probe (https_variant target))
    else follow web max_hops target (some none)

-- `unchain_url`, told whether the chain ends within its time limit.
unfoldable pub unchain_url : Web → (Text → Reply) → ℕ → Bool → Text → Bool → Option UnchainResult
unchain_url web probe max_hops in_time target prefer_https =
    if in_time
    then unchain_url_inner web probe max_hops target prefer_https
    else some (record {
      input_url = target;
      final_url = target;
      hops = [];
      hop_count = 0;
      timed_out = true;
      error = some (text "chain_timeout");
      signals = [];
    })
