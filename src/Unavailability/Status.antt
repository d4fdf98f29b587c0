-- ===== src/Unavailability/Status.antt =====
-- Which status the error codes of the fetcher and of the unchainer carry, and which hop decides.
use lin_clean_be_fastapi.Prelude.{
  ℕ, some, ◌≡◌, refl, ◌∙◌, ◌≤◌, ◌++◌, List, [], ◌∷◌, reverse, text, decimal, value-decimal,
  is_digits-decimal, arith, All, ◌<◌, All-reverse_aux,
}
use mathlib.Core.List.{reverse-append, reverse-cons, append_assoc}
use lin_clean_be_fastapi.Schemas.Results.{HopRecord, UnchainResult}
use lin_clean_be_fastapi.Unavailability.{
  status_from_error, bad_hop, message_for_status, unchain_page_unavailable,
}

status_from_error-server_error :
    (n : ℕ) → status_from_error (text "server_error_" ++ decimal n) ≡ some n
unfolding status_from_error
status_from_error-server_error n = rw (is_digits-decimal n, value-decimal n)

status_from_error-http_error :
    (n : ℕ) → status_from_error (text "http_error_" ++ decimal n) ≡ some n
unfolding status_from_error
status_from_error-http_error n = rw (is_digits-decimal n, value-decimal n)

-- The status that the unchainer or the fetcher prints into an error code, as `server_error_<n>` or
-- `http_error_<n>`, is the status that is read back from it, for every n.
pub status_from_error-decimal :
    (n : ℕ)
    → (status_from_error (text "server_error_" ++ decimal n) ≡ some n)
      × (status_from_error (text "http_error_" ++ decimal n) ≡ some n)
status_from_error-decimal n = (status_from_error-server_error n, status_from_error-http_error n)

abbrev pub Below400 : HopRecord → Type 0
Below400 h = h.status_code < 400

bad_hop-append : (xs ys : List HopRecord) → All Below400 xs → bad_hop (xs ++ ys) ≡ bad_hop ys
unfolding bad_hop
bad_hop-append [] ys h = refl
bad_hop-append (x ∷ xs) ys (p, h) = ground (arith, bad_hop-append xs ys h)

module _ (before after : List HopRecord) (hop : HopRecord) (bad : 400 ≤ hop.status_code)
    (fine : All Below400 after) where
  bad_hop-reverse :
      bad_hop (reverse (before ++ hop ∷ after))
      ≡ some (message_for_status hop.status_code, some hop.status_code)
  bad_hop-reverse =
      rw (reverse-append before (hop ∷ after), reverse-cons hop after, append_assoc)
        (bad_hop-append (reverse after) (hop ∷ reverse before)
            (All-reverse_aux Below400 after [] fine tt)
          ∙ (unfold bad_hop in ground arith))

-- The last hop of a chain that answered with a status of 400 or more decides: its status is reported,
-- with the message for it, whatever the hops before it and the error code say.
pub unchain_page_unavailable-last_bad_hop :
    (before after : List HopRecord) (hop : HopRecord) (unchain : UnchainResult)
    → unchain.hops ≡ before ++ hop ∷ after
    → 400 ≤ hop.status_code
    → All Below400 after
    → unchain_page_unavailable unchain
      ≡ some (message_for_status hop.status_code, some hop.status_code)
unfolding unchain_page_unavailable
unchain_page_unavailable-last_bad_hop before after hop unchain shape bad fine =
    rw (shape, bad_hop-reverse before after hop bad fine)
