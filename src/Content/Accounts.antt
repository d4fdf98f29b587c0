-- ===== src/Content/Accounts.antt =====
-- What the score of `score_content` is made of.
use lin_clean_be_fastapi.Prelude.{
  ℕ, suc, ◌+◌, ◌≤◌, ◌≡◌, refl, ap, Bool, true, false, ◌||◌, List, [], ◌∷◌, ◌++◌, ◌==◌, ==_iff,
  if◌then◌else◌, arith, any-append,
}
use lin_clean_be_fastapi.Prelude.Ascending.{
  IsAscending, IsAscending-append, IsAscending-raise, IsAscending-absent,
}
use lin_clean_be_fastapi.Settings.{Settings}
use lin_clean_be_fastapi.Schemas.Signals.{
  ContentSignal, content_index, mem_content, brand_impersonation_form, logo_alt_impersonation,
  credential_form_external, pii_collection_form, sensitive_id_field, financial_field,
  risky_download_link, meta_refresh, external_meta_refresh, external_link_overuse,
}
use lin_clean_be_fastapi.Content.Score.{ContentScoring, append_signal, add_signal, when}

-- The place of a signal among the rules, by its place in the enumeration.
abbrev pub rank_at : ℕ → ℕ
rank_at n =
    if n == 0
    then 1
    else if n == 1
    then 9
    else if n == 3
    then 5
    else if n == 4
    then 6
    else if n == 5
    then 7
    else if n == 6
    then 8
    else if n == 7
    then 4
    else if n == 8
    then 3
    else if n == 9
    then 13
    else if n == 13
    then 0
    else n

abbrev pub rank : ContentSignal → ℕ
rank s = rank_at (content_index s)

-- The weight of a signal; a lure has none of its own.
abbrev pub signal_weight : Settings → ContentSignal → ℕ
signal_weight cfg brand_impersonation_form = cfg.score_weight_brand_impersonation
signal_weight cfg logo_alt_impersonation = cfg.score_weight_logo_alt_impersonation
signal_weight cfg credential_form_external = cfg.score_weight_credential_form_external
signal_weight cfg pii_collection_form = cfg.score_weight_pii_collection_form
signal_weight cfg sensitive_id_field = cfg.score_weight_sensitive_id_field
signal_weight cfg financial_field = cfg.score_weight_financial_field
signal_weight cfg risky_download_link = cfg.score_weight_risky_download_link
signal_weight cfg meta_refresh = cfg.score_weight_meta_refresh
signal_weight cfg external_meta_refresh = cfg.score_weight_external_meta_refresh
signal_weight cfg external_link_overuse = cfg.score_weight_external_link_overuse
signal_weight cfg _ = 0

abbrev pub total_weight : Settings → List ContentSignal → ℕ
total_weight cfg [] = 0
total_weight cfg (s ∷ signals) = signal_weight cfg s + total_weight cfg signals

total_weight-append :
    (cfg : Settings) (xs : List ContentSignal) (s : ContentSignal)
    → total_weight cfg (xs ++ s ∷ []) ≡ total_weight cfg xs + signal_weight cfg s
total_weight-append cfg [] s = omega arith
total_weight-append cfg (x ∷ xs) s = omega (arith, total_weight-append cfg xs s)

pub mem_content-append :
    (t : ContentSignal) (xs ys : List ContentSignal)
    → mem_content t (xs ++ ys) ≡ (mem_content t xs || mem_content t ys)
unfolding mem_content
mem_content-append t xs ys = any-append _ xs ys

-- Up to the rule `n`: the signals in order, the score with an extra of `bonus`, and the two flags.
pub record IsAt (cfg : Settings) (n bonus : ℕ) (r : ContentScoring) : Type 0 where
  pub ascending : IsAscending rank 0 r.signals n
  pub accounted : r.score ≡ total_weight cfg r.signals + bonus
  pub brand : r.brand_impersonation ≡ mem_content brand_impersonation_form r.signals
  pub logo : r.logo_alt_impersonation ≡ mem_content logo_alt_impersonation r.signals

module _ (cfg : Settings) (bonus : ℕ) where
  pub IsAt-weaken : (r : ContentScoring) (n m : ℕ) → n ≤ m → IsAt cfg n bonus r → IsAt cfg m bonus r
  IsAt-weaken r n m h a = record {
    ascending = IsAscending-raise rank r.signals 0 n m h a.ascending;
    accounted = a.accounted;
    brand = a.brand;
    logo = a.logo;
  }

  -- A signal behind those of the earlier rules.
  pub IsAt-append :
      (s : ContentSignal) (r r' : ContentScoring)
      → r'.score ≡ r.score + signal_weight cfg s
      → r'.signals ≡ r.signals ++ s ∷ []
      → r'.brand_impersonation ≡ (r.brand_impersonation || content_index s == 0)
      → r'.logo_alt_impersonation ≡ (r.logo_alt_impersonation || content_index s == 1)
      → IsAt cfg (rank s) bonus r
      → IsAt cfg (suc (rank s)) bonus r'
  unfolding mem_content
  IsAt-append s r r' score signals brand logo a = record {
    ascending = rw signals (
        IsAscending-append rank r.signals (s ∷ []) 0 (rank s) (suc (rank s)) a.ascending
          (omega arith, omega arith));
    accounted = rw signals (omega (arith, score, a.accounted, total_weight-append cfg r.signals s));
    brand =
        rw (signals, mem_content-append brand_impersonation_form r.signals (s ∷ []), brand, a.brand)
          (ground arith);
    logo =
        rw (signals, mem_content-append logo_alt_impersonation r.signals (s ∷ []), logo, a.logo)
          (ground arith);
  }

  pub IsAt-when :
      (test : Bool) (step : ContentScoring → ContentScoring) (r : ContentScoring) (n m : ℕ)
      → n ≤ m
      → IsAt cfg n bonus r
      → IsAt cfg m bonus (step r)
      → IsAt cfg m bonus (when test step r)
  unfolding when
  IsAt-when true step r n m h a b = b
  IsAt-when false step r n m h a b = IsAt-weaken r n m h a

  pub IsAt-append_signal :
      (s : ContentSignal) (r : ContentScoring)
      → 2 ≤ content_index s
      → IsAt cfg (rank s) bonus r
      → IsAt cfg (suc (rank s)) bonus (append_signal s (signal_weight cfg s) r)
  unfolding append_signal
  IsAt-append_signal s r h a =
      IsAt-append s r (append_signal s (signal_weight cfg s) r) refl refl (ground arith)
        (ground arith) a

  -- A signal of an earlier rule is not this one, so `add_signal` appends.
  add_signal-append :
      (s : ContentSignal) (weight : ℕ) (r : ContentScoring)
      → IsAt cfg (rank s) bonus r
      → add_signal s weight r ≡ append_signal s weight r
  unfolding add_signal append_signal mem_content
  add_signal-append s weight r a =
      let absent =
        IsAscending-absent rank r.signals (λ t. content_index t == content_index s) (rank s)
          (λ y e. ap rank_at ((==_iff _ _).0 e)) 0 (rank s) a.ascending (omega arith) in
      rw absent refl

  pub when-append :
      (s : ContentSignal) (test : Bool) (r : ContentScoring) (n : ℕ)
      → n ≤ rank s
      → 2 ≤ content_index s
      → IsAt cfg n bonus r
      → IsAt cfg (suc (rank s)) bonus (when test (append_signal s (signal_weight cfg s)) r)
  when-append s test r n h k a =
      let b = IsAt-weaken r n (rank s) h a in
      IsAt-when test _ r n (suc (rank s)) (omega arith) a (IsAt-append_signal s r k b)

  pub when-add :
      (s : ContentSignal) (test : Bool) (r : ContentScoring) (n : ℕ)
      → n ≤ rank s
      → 2 ≤ content_index s
      → IsAt cfg n bonus r
      → IsAt cfg (suc (rank s)) bonus (when test (add_signal s (signal_weight cfg s)) r)
  when-add s test r n h k a =
      let b = IsAt-weaken r n (rank s) h a in
      IsAt-when test _ r n (suc (rank s)) (omega arith) a
        (rw (add_signal-append s (signal_weight cfg s) r b) (IsAt-append_signal s r k b))
