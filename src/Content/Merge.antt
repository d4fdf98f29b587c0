-- ===== src/Content/Merge.antt =====
-- What the rendered document adds to what the fetched page shows.
use lin_clean_be_fastapi.Prelude.{
  ◌≡◌, refl, sym, ◌∙◌, Bool, true, false, ◌||◌, Option, List, [], ◌∷◌, ◌++◌, append_assoc,
  append-nil, Text, mem_text, any-append, Bool-cases, inl, inr, arith,
}
use lin_clean_be_fastapi.Settings.{Settings}
use lin_clean_be_fastapi.Schemas.Signals.{
  ContentSignal, mem_content, brand_impersonation_form, logo_alt_impersonation,
  credential_form_external, pii_collection_form, sensitive_id_field, financial_field,
  risky_download_link, public_agency_lure, korean_lure_text, meta_refresh, external_meta_refresh,
  external_link_overuse, spa_shell, rendered_dom_analyzed, fetch_failed, skipped_already_danger,
}
use lin_clean_be_fastapi.Content.Features.{
  ExtractedFeatures, nonempty_list, unique_merge, merge_features,
}
use lin_clean_be_fastapi.Content.Score.{
  pii_field_types, sensitive_id_types, financial_field_types, meets, has_pii_fields,
  has_sensitive_id_fields, has_financial_fields, has_lure_text, has_public_agency_lure,
  has_downloads, url_brand_label, score_content,
}
use lin_clean_be_fastapi.Content.Evidence.{evidence, score_content-evidence}

-- The union begins with the texts of the left side.
unique_merge-prefix :
    (right left : List Text) → (more : List Text) × (unique_merge left right ≡ left ++ more)
unfolding unique_merge
unique_merge-prefix [] left = ([], sym (append-nil left))
unique_merge-prefix (item ∷ right) left = elim (Bool-cases (mem_text item left)) [
  | inl e ↦ let (more, h) = unique_merge-prefix right left in (more, rw (e, unique_merge) h)
  | inr e ↦
      let (more, h) = unique_merge-prefix right (left ++ item ∷ []) in
      (item ∷ more, rw (e, unique_merge) (h ∙ append_assoc left (item ∷ []) more))
]

nonempty_list-merge :
    (left right : List Text)
    → nonempty_list left ≡ true
    → nonempty_list (unique_merge left right) ≡ true
unfolding nonempty_list
nonempty_list-merge [] right h = absurd cc
nonempty_list-merge (l ∷ left) right h =
    let (more, e) = unique_merge-prefix right (l ∷ left) in rw e refl

meets-merge :
    (left right types : List Text)
    → meets left types ≡ true
    → meets (unique_merge left right) types ≡ true
unfolding meets
meets-merge left right types h =
    let (more, e) = unique_merge-prefix right left in
    rw (e, any-append (λ item. mem_text item types) left more, h) refl

or-left : (a b : Bool) → a ≡ true → (a || b) ≡ true
or-left a b h = ground arith

-- The signals that a rendered document cannot take back: all but the four that depend on the title,
-- on the ratio of the links or on the shell, which the merge takes from the rendered document.
abbrev pub is_lasting : ContentSignal → Bool
is_lasting spa_shell = false
is_lasting brand_impersonation_form = false
is_lasting logo_alt_impersonation = false
is_lasting external_link_overuse = false
is_lasting _ = true

evidence-merge :
    (cfg : Settings) (brands : Option Text → List Text) (static rendered : ExtractedFeatures)
    (own : Text) (s : ContentSignal)
    → is_lasting s ≡ true
    → evidence cfg brands static own s ≡ true
    → evidence cfg brands (merge_features static rendered) own s ≡ true
unfolding merge_features has_pii_fields has_sensitive_id_fields has_financial_fields has_lure_text
    has_public_agency_lure has_downloads
evidence-merge cfg brands static rendered own credential_form_external l h = or-left _ _ h
evidence-merge cfg brands static rendered own korean_lure_text l h = nonempty_list-merge _ _ h
evidence-merge cfg brands static rendered own public_agency_lure l h = nonempty_list-merge _ _ h
evidence-merge cfg brands static rendered own risky_download_link l h = nonempty_list-merge _ _ h
evidence-merge cfg brands static rendered own pii_collection_form l h =
    meets-merge _ _ pii_field_types h
evidence-merge cfg brands static rendered own sensitive_id_field l h =
    meets-merge _ _ sensitive_id_types h
evidence-merge cfg brands static rendered own financial_field l h =
    meets-merge _ _ financial_field_types h
evidence-merge cfg brands static rendered own meta_refresh l h = or-left _ _ h
evidence-merge cfg brands static rendered own external_meta_refresh l h = ground arith
evidence-merge cfg brands static rendered own rendered_dom_analyzed l h = absurd cc
evidence-merge cfg brands static rendered own fetch_failed l h = absurd cc
evidence-merge cfg brands static rendered own skipped_already_danger l h = absurd cc
evidence-merge cfg brands static rendered own s l h = absurd cc

-- A signal that `score_content` finds in the features of the fetched page it finds too once they are
-- merged with those of the rendered document, unless it is one of the four that a rendered document
-- can take back: SPA_SHELL, BRAND_IMPERSONATION_FORM, LOGO_ALT_IMPERSONATION, EXTERNAL_LINK_OVERUSE.
pub score_content-merge :
    (cfg : Settings) (brands : Option Text → List Text) (static rendered : ExtractedFeatures)
    (final_url : Text) (s : ContentSignal)
    → is_lasting s ≡ true
    → mem_content s (score_content cfg brands static final_url).signals ≡ true
    → mem_content s (score_content cfg brands (merge_features static rendered) final_url).signals
      ≡ true
score_content-merge cfg brands static rendered final_url s l h =
    score_content-evidence cfg brands (merge_features static rendered) final_url s
    ∙ evidence-merge cfg brands static rendered (url_brand_label final_url) s l
        (sym (score_content-evidence cfg brands static final_url s) ∙ h)
