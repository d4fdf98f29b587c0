-- ===== src/ThreatDb/Types.antt =====
-- The list of threat types has no empty entry and none twice.
use lin_clean_be_fastapi.Prelude.{
  false, ◌||◌, ◌≡◌, refl, List, [], ◌∷◌, ◌++◌, Text, is_empty, text_eq, text_eq_iff, mem_text,
  any-append, arith,
}
use lin_clean_be_fastapi.Schemas.Results.{GsbMatch, GsbResult, UrlhausResult}
use lin_clean_be_fastapi.ThreatDb.Merge.{add_new, add_match_types, merge_threat_types}

-- No text is empty, and none occurs again behind its place.
abbrev pub IsClean : List Text → Type 0
IsClean [] = Unit
IsClean (t ∷ ts) = (is_empty t ≡ false) × (mem_text t ts ≡ false) × IsClean ts

mem_text-snoc :
    (s t : Text) (ts : List Text) → mem_text s (ts ++ t ∷ []) ≡ (mem_text s ts || text_eq s t)
unfolding mem_text
mem_text-snoc s t ts = rw (any-append (text_eq s) ts (t ∷ [])) (ground arith)

IsClean-snoc :
    (ts : List Text) (t : Text)
    → IsClean ts
    → is_empty t ≡ false
    → mem_text t ts ≡ false
    → IsClean (ts ++ t ∷ [])
IsClean-snoc [] t h e new = (e, unfold mem_text in refl, tt)
IsClean-snoc (s ∷ ts) t (filled, fresh, h) e new = (
  filled,
  rw (mem_text-snoc s t ts, fresh)
      (unfold mem_text in ground (arith, text_eq_iff s t, text_eq_iff t s)),
  IsClean-snoc ts t h e (unfold mem_text in ground arith),
)

IsClean-add_new : (ts : List Text) (t : Text) → IsClean ts → IsClean (add_new ts t)
unfolding add_new
IsClean-add_new ts t h = ground (arith, IsClean-snoc ts t h)

IsClean-add_match_types :
    (ts : List Text) (matches : List GsbMatch) → IsClean ts → IsClean (add_match_types ts matches)
unfolding add_match_types
IsClean-add_match_types ts [] h = h
IsClean-add_match_types ts (m ∷ matches) h =
    IsClean-add_match_types (add_new ts m.threat_type) matches (IsClean-add_new ts m.threat_type h)

-- The merged threat types hold no empty text and none of them twice, whatever the sources report.
pub merge_threat_types-IsClean :
    (gsb : GsbResult) (urlhaus : UrlhausResult) → IsClean (merge_threat_types gsb urlhaus)
unfolding merge_threat_types
merge_threat_types-IsClean gsb urlhaus =
    IsClean-add_new _ _ (IsClean-add_match_types [] gsb.matches tt)
