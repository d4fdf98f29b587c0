-- ===== src/Content/Words.antt =====
-- Where the brands that are found in a text stand in it.
use lin_clean_be_fastapi.Prelude.{
  ℕ, zero, suc, ◌≡◌, refl, ap, Bool, true, false, ◌&&◌, not, Option, none, some, List, [], ◌∷◌,
  ◌++◌, append_assoc, Text, mem_text, mem_text-cons, mem_text-here, starts_with, contains, is_empty,
  length, drop, ==_iff, All, All-append, All-map, ◌⊎◌, inl, inr, Bool-cases, arith,
}
use lin_clean_be_fastapi.Urllib.{lower}
use lin_clean_be_fastapi.Content.Brands.{
  is_ascii, is_boundary, ends_in_word, match_label, emit, skipped, find_all, find_non_ascii,
  ascii_labels, brands_in_text,
}

starts_with-split : (p s : Text) → starts_with p s ≡ true → s ≡ p ++ drop (length p) s
unfolding starts_with
starts_with-split [] s h = refl
starts_with-split (c ∷ p) [] h = cc
starts_with-split (c ∷ p) (d ∷ s) h = grind (arith, (==_iff c d).0, starts_with-split p s)

and_split : (a b c : Bool) → (a && b && c) ≡ true → (a ≡ true) × (b ≡ true) × (c ≡ true)
and_split a b c h = ground arith

and_split2 : (a b : Bool) → (not a && b) ≡ true → (a ≡ false) × (b ≡ true)
and_split2 a b h = ground arith

module _ (is_word : ℕ → Bool) where
  ends_in_word-append :
      (left : Bool) (s t : Text)
      → ends_in_word is_word left (s ++ t) ≡ ends_in_word is_word (ends_in_word is_word left s) t
  unfolding ends_in_word
  ends_in_word-append left [] t = refl
  ends_in_word-append left (c ∷ s) t = ends_in_word-append (is_word c) s t

  -- The label stands in the text as words: between two boundaries.
  abbrev pub IsWordIn : Text → Text → Type 0
  IsWordIn s label =
      (pre : Text) × (post : Text) × (s ≡ pre ++ (label ++ post))
      × (is_boundary is_word (ends_in_word is_word false pre) (label ++ post) ≡ true)
      × (is_boundary is_word (ends_in_word is_word false (pre ++ label)) post ≡ true)

  boundaries-IsWordIn :
      (pre s label : Text)
      → (is_boundary is_word (ends_in_word is_word false pre) s
          && starts_with label s
          && is_boundary is_word
              (ends_in_word is_word (ends_in_word is_word false pre) label)
              (drop (length label) s))
        ≡ true
      → IsWordIn (pre ++ s) label
  boundaries-IsWordIn pre s label h =
      let (left, start, right) = and_split _ _ _ h in
      let split = starts_with-split label s start in
      (
        pre,
        drop (length label) s,
        ap (λ t. pre ++ t) split,
        rw (← split) left,
        rw (ends_in_word-append false pre label) right,
      )

  -- What `match_label` finds is one of the labels and stands at the beginning.
  match_label-IsWordIn :
      (pre s : Text) (labels : List Text) (label : Text)
      → match_label is_word (ends_in_word is_word false pre) labels s ≡ some label
      → (mem_text label labels ≡ true) × IsWordIn (pre ++ s) label
  unfolding match_label
  match_label-IsWordIn pre s [] label h = absurd cc
  match_label-IsWordIn pre s (l ∷ labels) label h =
      elim (Bool-cases (
        is_boundary is_word (ends_in_word is_word false pre) s
        && starts_with l s
        && is_boundary is_word (ends_in_word is_word (ends_in_word is_word false pre) l)
            (drop (length l) s))) [
              | inl e ↦
                  let e' : some l ≡ some label = rw (e, match_label) at h in
                  let q : l ≡ label = cc in
                  rw (← q) (mem_text-here l labels, boundaries-IsWordIn pre s l e)
              | inr e ↦
                  let (m, w) = match_label-IsWordIn pre s labels label (rw e at h) in
                  (mem_text-cons label l labels m, w)
            ]

  -- A search one character on.
  All-next :
      (pre t : Text) (c : ℕ) (labels found : List Text)
      → All (λ l. (mem_text l labels ≡ true) × IsWordIn ((pre ++ c ∷ []) ++ t) l) found
      → All (λ l. (mem_text l labels ≡ true) × IsWordIn (pre ++ c ∷ t) l) found
  All-next pre t c labels found h = rw (append_assoc pre (c ∷ []) t) at h

  All-emit :
      (pre s : Text) (labels found : List Text) (label : Option Text)
      → match_label is_word (ends_in_word is_word false pre) labels s ≡ label
      → All (λ l. (mem_text l labels ≡ true) × IsWordIn (pre ++ s) l) found
      → All (λ l. (mem_text l labels ≡ true) × IsWordIn (pre ++ s) l) (emit is_word label found)
  unfolding emit
  All-emit pre s labels found none e h = h
  All-emit pre s labels found (some label) e h = (match_label-IsWordIn pre s labels label e, h)

  find_all-IsWordIn :
      (t : Text) (labels : List Text) (skip : ℕ) (pre : Text)
      → All
          (λ l. (mem_text l labels ≡ true) × IsWordIn (pre ++ t) l)
          (find_all is_word labels skip (ends_in_word is_word false pre) t)
  unfolding find_all ends_in_word
  find_all-IsWordIn [] labels skip pre = tt
  find_all-IsWordIn (c ∷ t) labels (suc skip) pre = All-next pre t c labels _ (
      rw (ends_in_word-append false pre (c ∷ [])) at
        (find_all-IsWordIn t labels skip (pre ++ c ∷ [])))
  find_all-IsWordIn (c ∷ t) labels zero pre = All-emit pre (c ∷ t) labels _ _ refl (
      All-next pre t c labels _ (
        rw (ends_in_word-append false pre (c ∷ [])) at (
          find_all-IsWordIn t labels
            (skipped is_word (match_label is_word (ends_in_word is_word false pre) labels (c ∷ t)))
            (pre ++ c ∷ []))))

  ascii_labels-mem :
      (label : Text) (labels : List Text)
      → mem_text label (ascii_labels is_word labels) ≡ true
      → mem_text label labels ≡ true
  unfolding ascii_labels mem_text
  ascii_labels-mem label [] h = h
  ascii_labels-mem label (l ∷ labels) h = ground (arith, ascii_labels-mem label labels, h)

  find_non_ascii-contains :
      (labels : List Text) (s : Text)
      → All
          (λ l. (mem_text l labels ≡ true) × (is_ascii l ≡ false) × (contains l s ≡ true))
          (find_non_ascii is_word labels s)
  unfolding find_non_ascii
  find_non_ascii-contains [] s = tt
  find_non_ascii-contains (l ∷ labels) s =
      let rest =
        All-map (λ k (m, a, c). (mem_text-cons k l labels m, a, c)) _
          (find_non_ascii-contains labels s) in
      elim (Bool-cases (not (is_ascii l) && contains l s)) [
        | inl e ↦
            let (a, c) = and_split2 _ _ e in
            rw (e, find_non_ascii) ((mem_text-here l labels, a, c), rest)
        | inr e ↦ rw (e, find_non_ascii) rest
      ]

  -- Every brand that is found in a text is one of the labels, and either it stands in the lowered
  -- text between two boundaries of words, or it is not ASCII and a part of the lowered text.
  pub brands_in_text-IsWordIn :
      (labels : List Text) (s : Text)
      → All
          (λ l.
            (mem_text l labels ≡ true)
            × (IsWordIn (lower s) l ⊎ ((is_ascii l ≡ false) × (contains l (lower s) ≡ true))))
          (brands_in_text is_word labels (some s))
  unfolding brands_in_text ends_in_word
  brands_in_text-IsWordIn labels s = elim (Bool-cases (is_empty s)) [
    | inl e ↦ rw (e, brands_in_text) tt
    | inr e ↦
        rw (e, brands_in_text)
          (All-append _ _ _
            (All-map (λ l (m, w). (ascii_labels-mem l labels m, inl w)) _
              (find_all-IsWordIn (lower s) (ascii_labels is_word labels) 0 []))
            (All-map (λ l (m, a, c). (m, inr (a, c))) _ (find_non_ascii-contains labels (lower s))))
  ]
