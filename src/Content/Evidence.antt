-- ===== src/Content/Evidence.antt =====
-- Which features of a page raise which signal of `score_content`.
use lin_clean_be_fastapi.Prelude.{
  ℕ, ◌≡◌, refl, sym, Bool, true, false, ◌&&◌, ◌||◌, Option, List, [], ◌∷◌, Text, ◌==◌, ==_iff,
  Bool-cases, inl, inr, arith, and_false, and_true, or_false,
}
use lin_clean_be_fastapi.Settings.{Settings}
use lin_clean_be_fastapi.Schemas.Signals.{
  ContentSignal, content_index, mem_content, brand_impersonation_form, logo_alt_impersonation,
  credential_form_external, pii_collection_form, sensitive_id_field, financial_field,
  risky_download_link, public_agency_lure, korean_lure_text, meta_refresh, external_meta_refresh,
  external_link_overuse, spa_shell, rendered_dom_analyzed, fetch_failed, skipped_already_danger,
}
use lin_clean_be_fastapi.Content.Features.{ExtractedFeatures}
use lin_clean_be_fastapi.Content.Score.{
  ContentScoring, no_scoring, append_signal, add_signal, add_score, when, url_brand_label,
  score_shell_and_forms, score_fields, score_lures, score_page, score_content, has_pii_fields,
  has_sensitive_id_fields, has_financial_fields, has_lure_text, has_public_agency_lure,
  has_downloads, impersonates_brand, impersonates_logo, overuses_external_links,
}
use lin_clean_be_fastapi.Content.Accounts.{mem_content-append}

-- The feature that raises a signal.
abbrev pub evidence :
    Settings → (Option Text → List Text) → ExtractedFeatures → Text → ContentSignal → Bool
evidence cfg brands features own spa_shell = features.is_spa_shell
evidence cfg brands features own brand_impersonation_form =
    impersonates_brand cfg brands features own
evidence cfg brands features own credential_form_external =
    features.has_password_form_external_action
evidence cfg brands features own korean_lure_text = has_lure_text cfg brands features own
evidence cfg brands features own public_agency_lure = has_public_agency_lure cfg brands features own
evidence cfg brands features own pii_collection_form = has_pii_fields cfg brands features own
evidence cfg brands features own sensitive_id_field =
    has_sensitive_id_fields cfg brands features own
evidence cfg brands features own financial_field = has_financial_fields cfg brands features own
evidence cfg brands features own risky_download_link = has_downloads cfg brands features own
evidence cfg brands features own logo_alt_impersonation = impersonates_logo cfg brands features own
evidence cfg brands features own meta_refresh = features.has_meta_refresh
evidence cfg brands features own external_meta_refresh =
    features.has_meta_refresh && features.has_external_meta_refresh
evidence cfg brands features own external_link_overuse =
    overuses_external_links cfg brands features own
evidence cfg brands features own rendered_dom_analyzed = false
evidence cfg brands features own fetch_failed = false
evidence cfg brands features own skipped_already_danger = false

mem_content-one :
    (t s : ContentSignal) → mem_content t (s ∷ []) ≡ (content_index s == content_index t)
unfolding mem_content
mem_content-one t s = ground arith

append_signal-mem :
    (t s : ContentSignal) (weight : ℕ) (r : ContentScoring)
    → mem_content t (append_signal s weight r).signals
      ≡ (mem_content t r.signals || content_index s == content_index t)
unfolding append_signal
append_signal-mem t s weight r =
    rw (mem_content-append t r.signals (s ∷ []), mem_content-one t s) refl

-- Signals with the same index are in the same lists.
mem_content-same :
    (t s : ContentSignal) (xs : List ContentSignal)
    → (content_index s == content_index t) ≡ true
    → mem_content t xs ≡ mem_content s xs
unfolding mem_content
mem_content-same t s xs e = rw ((==_iff _ _).0 e) refl

add_signal-mem :
    (t s : ContentSignal) (weight : ℕ) (r : ContentScoring)
    → mem_content t (add_signal s weight r).signals
      ≡ (mem_content t r.signals || content_index s == content_index t)
unfolding add_signal
add_signal-mem t s weight r = elim (Bool-cases (mem_content s r.signals)) [
  | inl e ↦ elim (Bool-cases (content_index s == content_index t)) [
    | inl f ↦ rw (e, f, mem_content-same t s r.signals f) (rw e refl)
    | inr f ↦ rw (e, f, or_false) refl
  ]
  | inr e ↦ rw (e, mem_content-append t r.signals (s ∷ []), mem_content-one t s) refl
]

-- A rule that adds a signal when its test succeeds.
when-mem :
    (t s : ContentSignal) (test : Bool) (step : ContentScoring → ContentScoring)
    (r : ContentScoring)
    → mem_content t (step r).signals
      ≡ (mem_content t r.signals || content_index s == content_index t)
    → mem_content t (when test step r).signals
      ≡ (mem_content t r.signals || test && content_index s == content_index t)
unfolding when
when-mem t s true step r h = h
when-mem t s false step r h = sym (or_false _)

when-append_signal-mem :
    (t s : ContentSignal) (test : Bool) (weight : ℕ) (r : ContentScoring)
    → mem_content t (when test (append_signal s weight) r).signals
      ≡ (mem_content t r.signals || test && content_index s == content_index t)
when-append_signal-mem t s test weight r = when-mem t s test _ r (append_signal-mem t s weight r)

when-add_signal-mem :
    (t s : ContentSignal) (test : Bool) (weight : ℕ) (r : ContentScoring)
    → mem_content t (when test (add_signal s weight) r).signals
      ≡ (mem_content t r.signals || test && content_index s == content_index t)
when-add_signal-mem t s test weight r = when-mem t s test _ r (add_signal-mem t s weight r)

when-add_score-mem :
    (t : ContentSignal) (test : Bool) (weight : ℕ) (r : ContentScoring)
    → mem_content t (when test (add_score weight) r).signals ≡ mem_content t r.signals
unfolding when add_score
when-add_score-mem t true weight r = refl
when-add_score-mem t false weight r = refl

brand-mem :
    (t : ContentSignal) (test : Bool) (weight : ℕ) (r : ContentScoring)
    → mem_content t
        (when test
          (λ r.
            append_signal brand_impersonation_form weight (record r { brand_impersonation = true }))
          r).signals
      ≡ (mem_content t r.signals
          || test && content_index brand_impersonation_form == content_index t)
brand-mem t test weight r =
    when-mem t brand_impersonation_form test _ r
      (append_signal-mem t brand_impersonation_form weight _)

logo-mem :
    (t : ContentSignal) (test : Bool) (weight : ℕ) (r : ContentScoring)
    → mem_content t
        (when test
          (λ r.
            append_signal logo_alt_impersonation weight
              (record r { logo_alt_impersonation = true }))
          r).signals
      ≡ (mem_content t r.signals || test && content_index logo_alt_impersonation == content_index t)
logo-mem t test weight r =
    when-mem t logo_alt_impersonation test _ r (append_signal-mem t logo_alt_impersonation weight _)

refresh-mem :
    (t : ContentSignal) (test external : Bool) (weight more : ℕ) (r : ContentScoring)
    → mem_content t
        (when test
          (λ r.
            when external
              (append_signal external_meta_refresh more)
              (append_signal meta_refresh weight r))
          r).signals
      ≡ (mem_content t r.signals
          || test && content_index meta_refresh == content_index t
          || (test && external) && content_index external_meta_refresh == content_index t)
unfolding when
refresh-mem t true external weight more r =
    rw
      (
        when-append_signal-mem t external_meta_refresh external more
            (append_signal meta_refresh weight r),
        append_signal-mem t meta_refresh weight r,
      )
      refl
refresh-mem t false external weight more r = ground arith

no_scoring-mem : (t : ContentSignal) → mem_content t no_scoring.signals ≡ false
unfolding mem_content
no_scoring-mem t = refl

ruleset membership = (
  no_scoring-mem, when-append_signal-mem, when-add_signal-mem, when-add_score-mem, brand-mem,
  logo-mem, refresh-mem, and_false, and_true, or_false,
)

-- A signal is in the result of `score_content` exactly if the page has its feature.
pub score_content-evidence :
    (cfg : Settings) (brands : Option Text → List Text) (features : ExtractedFeatures)
    (final_url : Text) (s : ContentSignal)
    → mem_content s (score_content cfg brands features final_url).signals
      ≡ evidence cfg brands features (url_brand_label final_url) s
unfolding score_content score_shell_and_forms score_fields score_lures score_page
score_content-evidence cfg brands features url spa_shell = simp membership
score_content-evidence cfg brands features url s = simp membership
