-- ===== src/Unavailability/Tests.antt =====
-- Instances of the theorems.
use lin_clean_be_fastapi.Prelude.{ℕ, ◌≡◌, refl, none, some, [], ◌∷◌, ◌++◌, text, decimal, arith}
use lin_clean_be_fastapi.Schemas.Results.{HopRecord}
use lin_clean_be_fastapi.Samples.{site, unchain}
use lin_clean_be_fastapi.Unavailability.{
  status_from_error, message_for_status, unchain_page_unavailable,
}
use lin_clean_be_fastapi.Unavailability.Status.{
  status_from_error-decimal, unchain_page_unavailable-last_bad_hop,
}

abbrev answered : ℕ → HopRecord
answered status = record {
  url = site;
  status_code = status;
  raw_location = none;
  location = none;
  method = site;
}

status_from_error-decimal_example :
    (status_from_error (text "server_error_" ++ decimal 503) ≡ some 503)
    × (status_from_error (text "http_error_" ++ decimal 503) ≡ some 503)
status_from_error-decimal_example = status_from_error-decimal 503

unchain_page_unavailable-last_bad_hop_example :
    unchain_page_unavailable
      (record unchain { hops = answered 500 ∷ answered 404 ∷ answered 200 ∷ [] })
    ≡ some (message_for_status 404, some 404)
unchain_page_unavailable-last_bad_hop_example =
    unchain_page_unavailable-last_bad_hop (answered 500 ∷ []) (answered 200 ∷ []) (answered 404)
      (record unchain { hops = answered 500 ∷ answered 404 ∷ answered 200 ∷ [] }) refl (omega arith)
      (omega arith, tt)
