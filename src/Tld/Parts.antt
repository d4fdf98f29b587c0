-- ===== src/Tld/Parts.antt =====
-- What the parts of a host are made of.
use lin_clean_be_fastapi.Prelude.{◌≡◌, refl, text}
use lin_clean_be_fastapi.Tld.{registered_domain}

registered_domain_tests :
    (registered_domain (text "http://a.b.example.co.kr/x") ≡ text "example.co.kr")
    × (registered_domain (text "https://user.github.io") ≡ text "user.github.io")
    × (registered_domain (text "https://github.io") ≡ text "github.io")
    × (registered_domain (text "http://127.0.0.1") ≡ text "0.1")
unfolding registered_domain text
registered_domain_tests = (refl, refl, refl, refl)
