-- ===== src/Unchainer/Tests.antt =====
-- A concrete web, and an instance of the theorem.
use lin_clean_be_fastapi.Prelude.{
  ◌≡◌, refl, ◌⊎◌, inl, inr, true, false, none, some, [], ◌∷◌, Text, text, text_eq, is_empty, not,
  Option, if◌then◌else◌,
}
use lin_clean_be_fastapi.Unchainer.Hop.{Reply, response, timeout, Web, check_host_safety}
use lin_clean_be_fastapi.Unchainer.Chain.{unchain_url, https_variant, probe_succeeds}
use lin_clean_be_fastapi.Urllib.{urlsplit, hostname, urlunparse, urlunsplit}
use lin_clean_be_fastapi.Unchainer.Raises.{IsReturned, IsClosed, Resolves, Lands}
use lin_clean_be_fastapi.Unchainer.Total.{unchain_url-IsReturned}
use lin_clean_be_fastapi.Unchainer.Safety.{IsChain, unchain_url-IsChain}

-- One site that redirects to another, with absolute locations.
abbrev sample_web : Web
sample_web = record {
  send = λ method url.
      if text_eq url (text "http://a.kr/")
      then response 302 (some (text "https://b.kr/")) (text "text/html")
      else response 200 none (text "text/html");
  resolve = λ host. some (some (text "93.184.216.34" ∷ []));
  is_global = λ ip. some true;
  urljoin = λ base raw. if text_eq raw (text "http://[") then none else some raw;
}

abbrev probe : Text → Reply
probe url = response 200 none (text "text/html")

-- The same site where the other one has an address of the local network.
abbrev internal_web : Web
internal_web = record sample_web {
  resolve = λ host.
      some (
        some ((if text_eq host (text "b.kr") then text "10.0.0.1" else text "93.184.216.34") ∷ []));
  is_global = λ ip. some (not (text_eq ip (text "10.0.0.1")));
}

-- The answer where the check of the host lets the request pass, and a timeout elsewhere.
unfoldable guarded : Option (Option Text) → Reply → Reply
guarded (some none) reply = reply
guarded _ reply = timeout

abbrev other_send : Text → Text → Reply
other_send method url = guarded (check_host_safety internal_web url) (internal_web.send method url)

other_send-same :
    (method url : Text)
    → check_host_safety internal_web url ≡ some none
    → other_send method url ≡ internal_web.send method url
unfolding guarded
other_send-same method url safe = rw safe refl

abbrev other_probe : Text → Reply
other_probe url = guarded (check_host_safety internal_web url) (probe url)

other_probe-same :
    (url : Text) → check_host_safety internal_web url ≡ some none → other_probe url ≡ probe url
unfolding guarded
other_probe-same url safe = rw safe refl

unchain_url-IsChain_example :
    IsChain internal_web 5
      (text "http://a.kr/")
      (unchain_url internal_web probe 5 true (text "http://a.kr/") false)
    × (unchain_url
          (record internal_web { send = other_send })
          other_probe
          5
          true
          (text "http://a.kr/")
          false
        ≡ unchain_url internal_web probe 5 true (text "http://a.kr/") false)
unchain_url-IsChain_example =
    unchain_url-IsChain internal_web 5 (text "http://a.kr/") probe other_send other_probe
      other_send-same other_probe-same true false

-- The URLs that the chain may reach in the sample web.
abbrev IsReached : Text → Type 0
IsReached url =
    (url ≡ text "http://a.kr/") ⊎ (url ≡ text "https://a.kr/") ⊎ (url ≡ text "https://b.kr/")

sample_web-Resolves : (url : Text) → IsReached url → Resolves sample_web (urlsplit url)
unfolding urlsplit text hostname
sample_web-Resolves url (inl e) = rw e tt
sample_web-Resolves url (inr (inl e)) = rw e tt
sample_web-Resolves url (inr (inr e)) = rw e tt

sample_web-Lands :
    (method url : Text)
    → IsReached url
    → Lands IsReached sample_web url (sample_web.send method url)
unfolding text text_eq
sample_web-Lands method url (inl e) = rw e (inr (inr refl))
sample_web-Lands method url (inr (inl e)) = rw e tt
sample_web-Lands method url (inr (inr e)) = rw e tt

sample_web-upgrades :
    (url variant : Text) → IsReached url → https_variant url ≡ some variant → IsReached variant
unfolding text https_variant urlsplit text_eq is_empty hostname urlunparse urlunsplit
sample_web-upgrades url variant (inl e) h =
    let h' : some (text "https://a.kr/") ≡ some variant = rw e at h in inr (inl cc)
sample_web-upgrades url variant (inr (inl e)) h =
    let h' : none ≡ some variant = rw e at h in absurd cc
sample_web-upgrades url variant (inr (inr e)) h =
    let h' : none ≡ some variant = rw e at h in absurd cc

sample_web-IsClosed : IsClosed sample_web probe IsReached
unfolding probe_succeeds
sample_web-IsClosed = record {
  resolves = sample_web-Resolves;
  lands = sample_web-Lands;
  upgrades = sample_web-upgrades;
  probes = λ url h. tt;
}

unchain_url-IsReturned_example :
    IsReturned (unchain_url sample_web probe 5 true (text "http://a.kr/") true)
unchain_url-IsReturned_example =
    unchain_url-IsReturned sample_web probe IsReached 5 true true (text "http://a.kr/")
      sample_web-IsClosed (inl refl)
