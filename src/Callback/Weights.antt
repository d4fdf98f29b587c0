-- ===== src/Callback/Weights.antt =====
-- The weights of the reasons against the score of the domain heuristics.
use lin_clean_be_fastapi.Prelude.{
  ℕ, ◌+◌, ◌<◌, Bool, true, false, ◌≡◌, ◌⊎◌, refl, ◌∙◌, inl, inr, Option, none, some, List, [], ◌∷◌,
  ◌++◌, Text, text, mem_text, text_eq, All, All-append, ◌==◌, arith, Bool-cases, if◌then◌else◌,
}
use lin_clean_be_fastapi.Settings.{Settings}
use lin_clean_be_fastapi.Schemas.Signals.{
  DomainHeuristicSignal, ContentSignal, AiVerdict, phishing, suspicious, benign, domain_code,
  content_code, ip_direct, typo_domain, punycode_idn, new_domain, subdomain_overuse, no_https,
  open_redirect_param, hyphen_overuse, suspicious_tld, dga_like, hosting_platform, url_userinfo,
  brand_in_url, free_hosting_lure, sensitive_path, url_shortener, redirect_cross_origin,
}
use lin_clean_be_fastapi.Schemas.Results.{ThreatDbResult, PipelineSuccess}
use lin_clean_be_fastapi.DomainHeuristic.{signal_score, raw_score}
use lin_clean_be_fastapi.Callback.Messages.{
  get_message, domain_reason_messages, content_reason_messages,
}
use lin_clean_be_fastapi.Callback.{
  Reason, get_weight, or_weight, domain_weights, content_weights, signal_weight, match_codes,
  add_reason, match_reasons, domain_reasons, content_reasons, ai_reasons, callback_reasons,
}

-- The messages of the signals.
abbrev domain_text : DomainHeuristicSignal → Text
domain_text s = get_message (domain_code s) domain_reason_messages (text "도메인 휴리스틱 위험 신호가 있습니다.")

abbrev content_text : ContentSignal → Text
content_text s = get_message (content_code s) content_reason_messages (text "콘텐츠 분석 위험 신호가 있습니다.")

or_weight-zero : (w : ℕ) → or_weight (some w) 0 ≡ w
unfolding or_weight
or_weight-zero w = ground arith

-- The two tables of weights agree.
signal_weight-signal_score :
    (cfg : Settings) (s : DomainHeuristicSignal)
    → signal_weight cfg (domain_code s) ≡ signal_score cfg s
unfolding signal_weight get_weight domain_weights content_weights domain_code text_eq text
    signal_score or_weight
signal_weight-signal_score cfg ip_direct = or_weight-zero _
signal_weight-signal_score cfg typo_domain = or_weight-zero _
signal_weight-signal_score cfg punycode_idn = or_weight-zero _
signal_weight-signal_score cfg new_domain = or_weight-zero _
signal_weight-signal_score cfg subdomain_overuse = or_weight-zero _
signal_weight-signal_score cfg no_https = or_weight-zero _
signal_weight-signal_score cfg open_redirect_param = or_weight-zero _
signal_weight-signal_score cfg hyphen_overuse = or_weight-zero _
signal_weight-signal_score cfg suspicious_tld = or_weight-zero _
signal_weight-signal_score cfg dga_like = or_weight-zero _
signal_weight-signal_score cfg hosting_platform = or_weight-zero _
signal_weight-signal_score cfg url_userinfo = or_weight-zero _
signal_weight-signal_score cfg brand_in_url = or_weight-zero _
signal_weight-signal_score cfg free_hosting_lure = or_weight-zero _
signal_weight-signal_score cfg sensitive_path = or_weight-zero _
signal_weight-signal_score cfg url_shortener = or_weight-zero _
signal_weight-signal_score cfg redirect_cross_origin = or_weight-zero _

-- The weights of the reasons of a stage.
abbrev pub weight_of : ℕ → List Reason → ℕ
weight_of stage [] = 0
weight_of stage (r ∷ reasons) = (if r.stage == stage then r.weight else 0) + weight_of stage reasons

weight_of-append :
    (stage : ℕ) (xs ys : List Reason)
    → weight_of stage (xs ++ ys) ≡ weight_of stage xs + weight_of stage ys
weight_of-append stage [] ys = omega arith
weight_of-append stage (x ∷ xs) ys = ground (arith, weight_of-append stage xs ys)

weight_of-add_reason :
    (stage : ℕ) (reasons : List Reason) (code : Text) (at_stage weight : ℕ) (message : Text)
    → weight_of stage (add_reason reasons code at_stage weight message)
      ≡ weight_of stage reasons + (if at_stage == stage then weight else 0)
unfolding add_reason
weight_of-add_reason stage reasons code at_stage weight message = ground (
  arith,
  weight_of-append stage reasons
      (record { code = code; stage = at_stage; weight = weight; message = message } ∷ []),
)

-- A reason has a weight, or is a match.
abbrev pub IsWeighty : Reason → Type 0
IsWeighty r = (0 < r.weight) ⊎ (mem_text r.code match_codes ≡ true)

All-add_reason :
    (reasons : List Reason) (code : Text) (at_stage weight : ℕ) (message : Text)
    → All IsWeighty reasons
    → All IsWeighty (add_reason reasons code at_stage weight message)
unfolding add_reason
All-add_reason reasons code at_stage weight message h =
    elim (Bool-cases (mem_text code match_codes)) [
      | inl m ↦ elim (Bool-cases (weight == 0)) [
        | inl e ↦ rw (m, e) (All-append IsWeighty reasons _ h (inr m, tt))
        | inr e ↦ rw (m, e) (All-append IsWeighty reasons _ h (inr m, tt))
      ]
      | inr m ↦ elim (Bool-cases (weight == 0)) [
        | inl e ↦ rw (m, e) h
        | inr e ↦ rw (m, e) (All-append IsWeighty reasons _ h (inl (ground (arith, e)), tt))
      ]
    ]

weight_of-if :
    (b : Bool) (reasons : List Reason) (code : Text) (weight : ℕ) (message : Text)
    → weight_of 3 (if b then add_reason reasons code 2 weight message else reasons)
      ≡ weight_of 3 reasons
weight_of-if true reasons code weight message =
    omega (arith, weight_of-add_reason 3 reasons code 2 weight message)
weight_of-if false reasons code weight message = refl

All-if :
    (b : Bool) (reasons : List Reason) (code : Text) (weight : ℕ) (message : Text)
    → All IsWeighty reasons
    → All IsWeighty (if b then add_reason reasons code 2 weight message else reasons)
All-if true reasons code weight message h = All-add_reason reasons code 2 weight message h
All-if false reasons code weight message h = h

module _ (cfg : Settings) where
  weight_of-match_reasons : (threat : ThreatDbResult) → weight_of 3 (match_reasons cfg threat) ≡ 0
  unfolding match_reasons
  weight_of-match_reasons threat =
      weight_of-if threat.urlhaus.is_threat _ (text "URLHAUS_MATCH") cfg.score_weight_urlhaus _
      ∙ weight_of-if threat.gsb.is_threat [] (text "GSB_MATCH") cfg.score_weight_gsb _

  All-match_reasons : (threat : ThreatDbResult) → All IsWeighty (match_reasons cfg threat)
  unfolding match_reasons
  All-match_reasons threat =
      All-if threat.urlhaus.is_threat _ (text "URLHAUS_MATCH") cfg.score_weight_urlhaus _
        (All-if threat.gsb.is_threat [] (text "GSB_MATCH") cfg.score_weight_gsb _ tt)

  All-domain_reasons :
      (signals : List DomainHeuristicSignal) (reasons : List Reason)
      → All IsWeighty reasons
      → All IsWeighty (domain_reasons cfg reasons signals)
  unfolding domain_reasons
  All-domain_reasons [] reasons h = h
  All-domain_reasons (s ∷ signals) reasons h =
      All-domain_reasons signals _ (All-add_reason reasons _ 3 _ _ h)

  All-content_reasons :
      (signals : List ContentSignal) (reasons : List Reason)
      → All IsWeighty reasons
      → All IsWeighty (content_reasons cfg reasons signals)
  unfolding content_reasons
  All-content_reasons [] reasons h = h
  All-content_reasons (s ∷ signals) reasons h =
      All-content_reasons signals _ (All-add_reason reasons _ 4 _ _ h)

  All-ai_reasons :
      (reasons : List Reason) (reason : Option Text) (verdict : Option AiVerdict)
      → All IsWeighty reasons
      → All IsWeighty (ai_reasons cfg reasons reason verdict)
  unfolding ai_reasons
  All-ai_reasons reasons reason none h = h
  All-ai_reasons reasons reason (some phishing) h = All-add_reason reasons _ 4 _ _ h
  All-ai_reasons reasons reason (some suspicious) h = All-add_reason reasons _ 4 _ _ h
  All-ai_reasons reasons reason (some benign) h = h

  weight_of-domain_reasons :
      (reasons : List Reason) (signals : List DomainHeuristicSignal)
      → weight_of 3 (domain_reasons cfg reasons signals)
        ≡ weight_of 3 reasons + raw_score cfg signals
  unfolding domain_reasons raw_score
  weight_of-domain_reasons reasons [] = omega arith
  weight_of-domain_reasons reasons (s ∷ signals) = omega (
    arith,
    weight_of-domain_reasons
        (add_reason reasons (domain_code s) 3 (signal_weight cfg (domain_code s)) (domain_text s))
        signals,
    weight_of-add_reason 3 reasons (domain_code s) 3 (signal_weight cfg (domain_code s))
        (domain_text s),
    signal_weight-signal_score cfg s,
  )

  weight_of-content_reasons :
      (reasons : List Reason) (signals : List ContentSignal)
      → weight_of 3 (content_reasons cfg reasons signals) ≡ weight_of 3 reasons
  unfolding content_reasons
  weight_of-content_reasons reasons [] = refl
  weight_of-content_reasons reasons (s ∷ signals) = omega (
    arith,
    weight_of-content_reasons
        (add_reason reasons (content_code s) 4 (signal_weight cfg (content_code s))
          (content_text s))
        signals,
    weight_of-add_reason 3 reasons (content_code s) 4 (signal_weight cfg (content_code s))
        (content_text s),
  )

  weight_of-ai_reasons :
      (reasons : List Reason) (reason : Option Text) (verdict : Option AiVerdict)
      → weight_of 3 (ai_reasons cfg reasons reason verdict) ≡ weight_of 3 reasons
  unfolding ai_reasons
  weight_of-ai_reasons reasons reason none = refl
  weight_of-ai_reasons reasons reason (some phishing) =
      omega
        (arith, weight_of-add_reason 3 reasons (text "AI_PHISHING") 4 cfg.score_weight_ai_phishing)
  weight_of-ai_reasons reasons reason (some suspicious) = omega (
    arith,
    weight_of-add_reason 3 reasons (text "AI_SUSPICIOUS") 4 cfg.score_weight_ai_suspicious,
  )
  weight_of-ai_reasons reasons reason (some benign) = refl

-- The reasons of stage 3 that the callback sends have weights that add up to the uncapped score of
-- the signals of the domain heuristics; and every reason sent has a positive weight, or is a match in
-- a threat database.
pub weight_of-callback_reasons :
    (cfg : Settings) (r : PipelineSuccess)
    → (weight_of 3 (callback_reasons cfg r) ≡ raw_score cfg r.stages.domain_heuristic.signals)
      × All IsWeighty (callback_reasons cfg r)
unfolding callback_reasons
weight_of-callback_reasons cfg r = (
  weight_of-ai_reasons cfg _ _ _
      ∙ (weight_of-content_reasons cfg _ _
          ∙ omega (
            arith,
            weight_of-domain_reasons cfg (match_reasons cfg r.stages.threat_db)
                r.stages.domain_heuristic.signals,
            weight_of-match_reasons cfg r.stages.threat_db,
          )),
  All-ai_reasons cfg _ _ _ (
      All-content_reasons cfg _ _
        (All-domain_reasons cfg _ _ (All-match_reasons cfg r.stages.threat_db))),
)
