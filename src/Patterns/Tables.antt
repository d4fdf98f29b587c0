-- ===== src/Patterns/Tables.antt =====
-- app/services/domain_heuristic/patterns.py: the tables.
use lin_clean_be_fastapi.Prelude.{List, [], ◌∷◌, map, Text, text}

unfoldable pub suspicious_tlds : List Text
unfolding text
suspicious_tlds = map text (
    "zip" ∷ "mov" ∷ "xyz" ∷ "top" ∷ "pw" ∷ "tk" ∷ "ml" ∷ "ga" ∷ "cf" ∷ "cfd" ∷ "gq" ∷ "help" ∷ "fit"
    ∷ "work" ∷ "surf" ∷ "click" ∷ "link" ∷ "loan" ∷ "download" ∷ "stream" ∷ "racing" ∷ "review"
    ∷ "trade" ∷ "win" ∷ "bid" ∷ "party" ∷ "date" ∷ "faith" ∷ "science" ∷ "cricket" ∷ "accountant"
    ∷ "men" ∷ [])

unfoldable pub hosting_platforms : List Text
unfolding text
hosting_platforms = map text (
    "netlify.app" ∷ "vercel.app" ∷ "pages.dev" ∷ "github.io" ∷ "gitlab.io" ∷ "web.app"
    ∷ "firebaseapp.com" ∷ "amazonaws.com" ∷ "azurewebsites.net" ∷ "herokuapp.com" ∷ "glitch.me"
    ∷ "replit.app" ∷ "surge.sh" ∷ "render.com" ∷ "fly.dev" ∷ "railway.app" ∷ "cyclic.app"
    ∷ "workers.dev" ∷ "wasmer.app" ∷ "godaddysites.com" ∷ "duckdns.org" ∷ "free.nf" ∷ "my.id"
    ∷ "backblazeb2.com" ∷ [])

unfoldable pub url_shorteners : List Text
unfolding text
url_shorteners = map text (
    "bit.ly" ∷ "cutt.ly" ∷ "goo.gl" ∷ "is.gd" ∷ "ow.ly" ∷ "qrco.de" ∷ "rebrand.ly" ∷ "shorturl.at"
    ∷ "t.co" ∷ "tinyurl.com" ∷ [])

unfoldable pub trusted_benign_domains : List Text
unfolding text
trusted_benign_domains = map text ("example.com" ∷ "httpbin.org" ∷ [])

unfoldable pub sensitive_path_tokens : List Text
unfolding text
sensitive_path_tokens = map text (
    "account" ∷ "admin" ∷ "auth" ∷ "billing" ∷ "claim" ∷ "confirm" ∷ "credential" ∷ "invoice"
    ∷ "login" ∷ "password" ∷ "pay" ∷ "portal" ∷ "recover" ∷ "secure" ∷ "session" ∷ "signin"
    ∷ "support" ∷ "suporte" ∷ "validate" ∷ "verification" ∷ "verify" ∷ "wallet" ∷ [])

unfoldable pub seeded_brand_labels : List Text
unfolding text
seeded_brand_labels = map text (
    "adobe" ∷ "amazon" ∷ "apple" ∷ "binance" ∷ "coinbase" ∷ "discord" ∷ "dpd" ∷ "facebook"
    ∷ "google" ∷ "instagram" ∷ "iphone" ∷ "metamask" ∷ "microsoft" ∷ "netflix" ∷ "office"
    ∷ "outlook" ∷ "paypal" ∷ "roblox" ∷ "societegenerale" ∷ "telegram" ∷ "tmobile" ∷ "t-mobile"
    ∷ "trezor" ∷ "whatsapp" ∷ "wps" ∷ "yahoo" ∷ [])

unfoldable pub generic_brand_labels : List Text
unfolding text
generic_brand_labels = map text (
    "bank" ∷ "blog" ∷ "cafe" ∷ "card" ∷ "cloud" ∷ "finance" ∷ "gov" ∷ "home" ∷ "map" ∷ "mvno"
    ∷ "news" ∷ "pay" ∷ "place" ∷ "shop" ∷ "shopping" ∷ "support" ∷ [])

unfoldable pub open_redirect_params : List Text
unfolding text
open_redirect_params = map text (
    "url" ∷ "redirect" ∷ "redirect_url" ∷ "redirect_uri" ∷ "next" ∷ "return" ∷ "return_url"
    ∷ "returnurl" ∷ "goto" ∷ "destination" ∷ "target" ∷ "link" ∷ "forward" ∷ "continue" ∷ "redir"
    ∷ "out" ∷ [])
