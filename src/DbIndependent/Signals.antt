-- ===== src/DbIndependent/Signals.antt =====
-- The list of signals that the content analysis is told of.
use lin_clean_be_fastapi.Prelude.{
  ◌≡◌, refl, inl, inr, Bool, true, false, ◌||◌, Bool-cases, Option, none, some, List, [], ◌∷◌, ◌++◌,
  map, Text, text_eq, mem_text, any-append, text_eq_iff, not, ◌&&◌, arith,
}
use lin_clean_be_fastapi.Schemas.Signals.{domain_code}
use lin_clean_be_fastapi.Schemas.Results.{UnchainResult, DomainHeuristicResult}
use lin_clean_be_fastapi.DbIndependent.{
  redirect_signal_code, add_code, add_codes, collect_db_independent_signals,
}

-- The code is that of one of the raw signals.
abbrev pub is_code : Text → Option Text → Bool
is_code code none = false
is_code code (some c) = text_eq code c

abbrev pub has_code : Text → List Text → Bool
has_code code [] = false
has_code code (raw ∷ rest) = is_code code (redirect_signal_code raw) || has_code code rest

-- No text stands twice in the list.
abbrev pub is_distinct : List Text → Bool
is_distinct [] = true
is_distinct (x ∷ xs) = not (mem_text x xs) && is_distinct xs

mem_text-snoc :
    (code c : Text) (codes : List Text)
    → mem_text code (codes ++ c ∷ []) ≡ (mem_text code codes || text_eq code c)
unfolding mem_text
mem_text-snoc code c codes = ground (arith, any-append (text_eq code) codes (c ∷ []))

mem_text-add_code :
    (code : Text) (codes : List Text) (new : Option Text)
    → mem_text code (add_code codes new) ≡ (mem_text code codes || is_code code new)
unfolding add_code
mem_text-add_code code codes none = ground arith
mem_text-add_code code codes (some c) =
    ground (arith, text_eq_iff code c, mem_text-snoc code c codes)

mem_text-add_codes :
    (code : Text) (codes raws : List Text)
    → mem_text code (add_codes codes raws) ≡ (mem_text code codes || has_code code raws)
unfolding add_codes
mem_text-add_codes code codes [] = ground arith
mem_text-add_codes code codes (raw ∷ rest) = ground (
  arith,
  mem_text-add_codes code (add_code codes (redirect_signal_code raw)) rest,
  mem_text-add_code code codes (redirect_signal_code raw),
)

text_eq_sym : (s t : Text) → text_eq s t ≡ text_eq t s
text_eq_sym s t = ground (arith, text_eq_iff s t, text_eq_iff t s)

is_distinct-snoc :
    (c : Text) (codes : List Text)
    → is_distinct codes ≡ true
    → mem_text c codes ≡ false
    → is_distinct (codes ++ c ∷ []) ≡ true
unfolding mem_text
is_distinct-snoc c [] h k = refl
is_distinct-snoc c (x ∷ xs) h k =
    ground (arith, is_distinct-snoc c xs, mem_text-snoc x c xs, text_eq_sym c x)

is_distinct-add_code :
    (codes : List Text) (new : Option Text)
    → is_distinct codes ≡ true
    → is_distinct (add_code codes new) ≡ true
unfolding add_code
is_distinct-add_code codes none h = h
is_distinct-add_code codes (some c) h = elim (Bool-cases (mem_text c codes)) [
  | inl e ↦ rw e h
  | inr e ↦ rw e (is_distinct-snoc c codes h e)
]

is_distinct-add_codes :
    (codes raws : List Text) → is_distinct codes ≡ true → is_distinct (add_codes codes raws) ≡ true
unfolding add_codes
is_distinct-add_codes codes [] h = h
is_distinct-add_codes codes (raw ∷ rest) h =
    is_distinct-add_codes (add_code codes (redirect_signal_code raw)) rest
      (is_distinct-add_code codes (redirect_signal_code raw) h)

-- A code is in the list for the content analysis exactly when the heuristics gave it or a signal of
-- the redirects has it; and where the heuristics' codes are distinct, all in the list are.
pub collect_db_independent_signals-IsUnion :
    (heuristic : DomainHeuristicResult) (unchain : UnchainResult) (code : Text)
    → is_distinct (map domain_code heuristic.signals) ≡ true
    → (mem_text code (collect_db_independent_signals heuristic unchain)
        ≡ (mem_text code (map domain_code heuristic.signals) || has_code code unchain.signals))
      × (is_distinct (collect_db_independent_signals heuristic unchain) ≡ true)
unfolding collect_db_independent_signals
collect_db_independent_signals-IsUnion heuristic unchain code h = (
  mem_text-add_codes code (map domain_code heuristic.signals) unchain.signals,
  is_distinct-add_codes (map domain_code heuristic.signals) unchain.signals h,
)
