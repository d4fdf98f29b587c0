-- ===== src/Normalizer/Normal.antt =====
-- What the normal form of a URL is.
use lin_clean_be_fastapi.Prelude.{
  ℕ, ◌≤◌, ◌<◌, ◌≡◌, ◌≢◌, refl, Bool, true, false, ◌&&◌, not, Option, none, some, [], ◌∷◌, ◌++◌,
  Text, text, mem_text, is_empty, length, All, any, drop, leb, leb→le, ◌==◌, if◌then◌else◌, arith,
  ◌⊎◌, inl, inr, Bool-cases, Option-cases,
}
use lin_clean_be_fastapi.Prelude.Split.{split_on, IsFree}
use lin_clean_be_fastapi.Settings.{Settings}
use lin_clean_be_fastapi.Schemas.Results.{NormalizeResult}
use lin_clean_be_fastapi.Urllib.{
  SplitResult, urlsplit, hostname, parsed_path, raw_hostname, after_last, after_last_from, before,
  from, bracketed, lower, lower_char, is_upper, strip,
}
use lin_clean_be_fastapi.Pipeline.{normalized, normalization_error}
use lin_clean_be_fastapi.Normalizer.{
  parsed_port, names_scheme, Stdlib, NormalParts, Parts, accepted, refused, allowed_schemes,
  default_port, kept_port, normalize_idn, to_parts, normalize_host, normalize_parsed,
  normalize_cleaned, with_scheme, cleaned_url, unparse, normalize_url,
}
use lin_clean_be_fastapi.Normalizer.Segments.{IsPlain, normalize_path-IsPlain}

-- A host name never holds the mark behind userinfo.
IsFree-before : (c : ℕ) (p : ℕ → Bool) (s : Text) → IsFree c s → IsFree c (before p s)
unfolding before
IsFree-before c p [] h = refl
IsFree-before c p (d ∷ s) h = ground (arith, IsFree-before c p s)

IsFree-from : (c : ℕ) (p : ℕ → Bool) (s : Text) → IsFree c s → IsFree c (from p s)
unfolding from
IsFree-from c p [] h = refl
IsFree-from c p (d ∷ s) h = ground (arith, IsFree-from c p s)

IsFree-tail : (c : ℕ) (s : Text) → IsFree c s → IsFree c (drop 1 s)
IsFree-tail c [] h = refl
IsFree-tail c (d ∷ s) h = ground arith

IsFree-append : (c : ℕ) (s t : Text) → IsFree c s → IsFree c t → IsFree c (s ++ t)
IsFree-append c [] t h k = k
IsFree-append c (d ∷ s) t h k = ground (arith, IsFree-append c s t)

IsFree-lower : (s : Text) → IsFree b'@' s → IsFree b'@' (lower s)
unfolding lower lower_char is_upper
IsFree-lower [] h = refl
IsFree-lower (d ∷ s) h = ground (arith, IsFree-lower s)

-- Behind the last occurrence of a character there is none, if the kept text has one only when more
-- are to come.
IsFree-after_last_from :
    (c : ℕ) (kept s : Text) → (IsFree c s → IsFree c kept) → IsFree c (after_last_from c kept s)
unfolding after_last_from
IsFree-after_last_from c kept [] h = h refl
IsFree-after_last_from c kept (d ∷ s) h = elim (Bool-cases (d == c)) [
  | inl e ↦ rw e (IsFree-after_last_from c s s (λ f. f))
  | inr e ↦ rw e (IsFree-after_last_from c kept s (λ f. h (ground arith)))
]

IsFree-raw_hostname : (netloc : Text) → IsFree b'@' (raw_hostname netloc)
unfolding raw_hostname after_last
IsFree-raw_hostname netloc =
    let hostinfo = after_last b'@' netloc in
    let f : IsFree b'@' hostinfo = IsFree-after_last_from b'@' netloc netloc (λ f. f) in
    elim (Bool-cases (bracketed hostinfo)) [
      | inl e ↦
          rw (e, raw_hostname)
            (IsFree-before b'@' (λ c. c == b']') (drop 1 (from (λ c. c == b'[') hostinfo))
              (IsFree-tail b'@' (from (λ c. c == b'[') hostinfo)
                (IsFree-from b'@' (λ c. c == b'[') hostinfo f)))
      | inr e ↦ rw (e, raw_hostname) (IsFree-before b'@' (λ c. c == b':') hostinfo f)
    ]

IsFree-hostname : (parts : SplitResult) → IsFree b'@' (hostname parts)
unfolding hostname
IsFree-hostname parts =
    let raw = raw_hostname parts.netloc in
    let f = IsFree-raw_hostname parts.netloc in
    let name = before (λ c. c == b'%') raw in
    let zone = from (λ c. c == b'%') raw in
    IsFree-append b'@' (lower name) zone
      (IsFree-lower name (IsFree-before b'@' (λ c. c == b'%') raw f))
      (IsFree-from b'@' (λ c. c == b'%') raw f)

-- What the scheme, the host, the port and the path of a normal form are, for the URL it is of.
abbrev pub IsNormal : Settings → Stdlib → Text → NormalParts → Type 0
IsNormal cfg lib url parts =
    (length url ≤ cfg.normalizer_max_url_length)
    × ((parsed : SplitResult) × (urlsplit url ≡ some parsed)
        × (parts.scheme ≡ lower parsed.scheme)
        × (parts.host ≡ normalize_idn lib (lower (hostname parsed)))
        × IsFree b'@' (hostname parsed)
        × IsFree b':' (hostname parsed))
    × (mem_text parts.scheme allowed_schemes ≡ true)
    × (is_empty parts.host ≡ false)
    × ((parts.port ≡ none) ⊎ (parts.port ≢ default_port parts.scheme))
    × All IsPlain (split_on b'/' parts.path)

default_port-positive : (scheme : Text) (d : ℕ) → default_port scheme ≡ some d → 0 < d
unfolding default_port
default_port-positive scheme d h = grind arith

kept_port-default :
    (scheme : Text) (port : Option ℕ)
    → (kept_port scheme port ≡ none) ⊎ (kept_port scheme port ≢ default_port scheme)
unfolding kept_port
kept_port-default scheme none = inl refl
kept_port-default scheme (some port) = elim (Option-cases (default_port scheme)) [
  | inl e ↦ rw (e, kept_port) (inr cc)
  | inr (default, e) ↦
      let p = default_port-positive scheme default e in
      elim (Bool-cases (not (port == 0) && port == default)) [
        | inl g ↦ rw (e, g, kept_port) (inl refl)
        | inr g ↦ rw (e, g, kept_port) (inr (λ same. ground arith))
      ]
]

-- A property of the parts of a normal form.
abbrev Accepts : (NormalParts → Type 0) → Parts → Type 0
Accepts P (refused message) = Unit
Accepts P (accepted parts) = P parts

module _ (cfg : Settings) (lib : Stdlib) where
  normalize_host-IsNormal :
      (url : Text) (parsed : SplitResult)
      → length url ≤ cfg.normalizer_max_url_length
      → urlsplit url ≡ some parsed
      → mem_text (lower parsed.scheme) allowed_schemes ≡ true
      → Accepts (IsNormal cfg lib url) (normalize_host lib url parsed)
  unfolding normalize_host to_parts
  normalize_host-IsNormal url parsed n e m =
      elim (Bool-cases (any (λ c. c == b':') (hostname parsed))) [
        | inl f ↦ rw (f, normalize_host) tt
        | inr f ↦ elim (Bool-cases (is_empty (normalize_idn lib (lower (hostname parsed))))) [
          | inl g ↦ rw (f, g, normalize_host) tt
          | inr g ↦ elim (Option-cases (parsed_port parsed.netloc)) [
            | inl h ↦ rw (f, g, h, normalize_host) tt
            | inr (port, h) ↦
                rw (f, g, h, normalize_host)
                  (
                    n,
                    (parsed, e, refl, refl, IsFree-hostname parsed, f),
                    m,
                    g,
                    kept_port-default (lower parsed.scheme) port,
                    normalize_path-IsPlain (parsed_path parsed),
                  )
          ]
        ]
      ]

  normalize_cleaned-IsNormal :
      (url : Text) → Accepts (IsNormal cfg lib url) (normalize_cleaned cfg lib url)
  unfolding normalize_cleaned normalize_parsed
  normalize_cleaned-IsNormal url =
      elim (Bool-cases (leb (length url) cfg.normalizer_max_url_length)) [
        | inr f ↦ rw (f, normalize_cleaned) tt
        | inl f ↦ elim (Option-cases (urlsplit url)) [
          | inl e ↦ rw (f, e, normalize_cleaned) tt
          | inr (parsed, e) ↦ elim (Bool-cases (mem_text (lower parsed.scheme) allowed_schemes)) [
            | inr m ↦ rw (f, e, m, normalize_cleaned, normalize_parsed) tt
            | inl m ↦
                rw (f, e, m, normalize_cleaned, normalize_parsed)
                  (normalize_host-IsNormal url parsed (leb→le _ _ f) e m)
          ]
        ]
      ]

  normalized-IsNormal :
      (empty : Bool) (message url original : Text) (added : Bool) (parts : Parts)
      (r : NormalizeResult)
      → Accepts (IsNormal cfg lib url) parts
      → (if empty then normalization_error message else elim parts [
        | refused message ↦ normalization_error message
        | accepted parts ↦ normalized (record {
          original_url = original;
          normalized_url = unparse parts;
          scheme_was_added = added;
        })
      ])
        ≡ normalized r
      → (parts : NormalParts) × (r.normalized_url ≡ unparse parts) × IsNormal cfg lib url parts
  normalized-IsNormal true message url original added parts r n h = absurd cc
  normalized-IsNormal false message url original added (refused m) r n h = absurd cc
  normalized-IsNormal false message url original added (accepted parts) r n h = (parts, cc, n)

-- A URL in normal form is put together from parts with a scheme among http, https and ftp that the
-- text states, a host that is not empty, and a port that is not the default one of that scheme. The
-- host is the one behind the userinfo, in lower case and in IDNA form, so no userinfo is left; it has
-- no colon before the IDNA form. No segment of the path is `.` or `..`, and the text that was parsed,
-- its scheme included, is no longer than the limit.
pub normalize_url-IsNormal :
    (cfg : Settings) (lib : Stdlib) (raw_url : Text) (r : NormalizeResult)
    → normalize_url cfg lib raw_url ≡ normalized r
    → (parts : NormalParts) × (r.normalized_url ≡ unparse parts)
      × IsNormal cfg lib (with_scheme (cleaned_url lib raw_url)) parts
unfolding normalize_url
normalize_url-IsNormal cfg lib raw_url r h =
    let cleaned = cleaned_url lib raw_url in
    let url = with_scheme cleaned in
    normalized-IsNormal cfg lib (is_empty (strip raw_url)) (text "빈 URL입니다.") url (strip raw_url)
      (not (names_scheme cleaned)) (normalize_cleaned cfg lib url) r
      (normalize_cleaned-IsNormal cfg lib url) h
