-- ===== src/Normalizer/Tests.antt =====
-- Runs of the normaliser and instances of its theorems.
use lin_clean_be_fastapi.Prelude.{◌≡◌, refl, true, false, some, text}
use lin_clean_be_fastapi.Settings.{default_settings}
use lin_clean_be_fastapi.Samples.{stages, request}
use lin_clean_be_fastapi.Pipeline.{normalized, run_pipeline}
use lin_clean_be_fastapi.Normalizer.Paths.{normalize_path, normalize_pct_encoding}
use lin_clean_be_fastapi.Normalizer.{
  Stdlib, NormalParts, with_scheme, cleaned_url, unparse, normalize_url,
}
use lin_clean_be_fastapi.Normalizer.Normal.{IsNormal, normalize_url-IsNormal}
use lin_clean_be_fastapi.Normalizer.Answers.{normalizing, StartsNormal, run_pipeline-StartsNormal}

-- The standard library, for URLs in ASCII.
abbrev lib : Stdlib
lib = record { nfc = λ s. s; idna = λ s. some s; parse_error = λ s. s; port_error = λ s. s }

normalize_path_tests :
    (normalize_path (text "/a//b/./../%63/..;") ≡ text "/a/c/..;")
    × (normalize_path (text "/a/%2e%2E/b") ≡ text "/b")
    × (normalize_path (text "/../..") ≡ text "/")
    × (normalize_path (text "") ≡ text "/")
    × (normalize_pct_encoding (text "%41%2f%zz%") ≡ text "A%2F%zz%")
unfolding normalize_path normalize_pct_encoding text
normalize_path_tests = (refl, refl, refl, refl, refl)

-- The normal form of a URL need not be normal: a second run decodes what the first one has left.
normalize_pct_encoding_twice :
    (normalize_pct_encoding (text "%%32e") ≡ text "%2e")
    × (normalize_pct_encoding (text "%2e") ≡ text ".")
    × (normalize_path (text "/a/%%32e%%32e/b") ≡ text "/a/%2e%2e/b")
unfolding normalize_pct_encoding normalize_path text
normalize_pct_encoding_twice = (refl, refl, refl)

normalize_url_test :
    normalize_url default_settings lib (text " HTTP://me@Example.com:80/%7ea/../x;p?q=%2f#frag ")
    ≡ normalized (record {
      original_url = text "HTTP://me@Example.com:80/%7ea/../x;p?q=%2f#frag";
      normalized_url = text "http://example.com/x;p?q=%2F";
      scheme_was_added = false;
    })
unfolding normalize_url text
normalize_url_test = refl

-- A link with a trusted name in front of its host.
normalize_url-IsNormal_example :
    (parts : NormalParts) × (text "http://evil.com/b" ≡ unparse parts)
    × IsNormal default_settings lib (text "http://google.com@EVIL.com:80/a/../b") parts
unfolding normalize_url with_scheme cleaned_url text
normalize_url-IsNormal_example =
    normalize_url-IsNormal default_settings lib (text " http://google.com@EVIL.com:80/a/../b")
      (record {
        original_url = text "http://google.com@EVIL.com:80/a/../b";
        normalized_url = text "http://evil.com/b";
        scheme_was_added = false;
      })
      refl

run_pipeline-StartsNormal_example :
    StartsNormal default_settings lib
      (stages true 10 20)
      request.original_url
      (run_pipeline default_settings (normalizing default_settings lib (stages true 10 20)) request)
run_pipeline-StartsNormal_example =
    run_pipeline-StartsNormal default_settings lib (stages true 10 20) request
