-- ===== src/Typosquatting/Distance.antt =====
-- app/services/domain_heuristic/typosquatting.py: `_levenshtein`. The row `dp` without its first
-- cell is a list; `lev_row` is the inner loop, which reads the old row and writes the new one.
use lin_clean_be_fastapi.Prelude.{
  ℕ, suc, ◌+◌, min, ◌≡◌, refl, sym, ap, ◌∙◌, List, [], ◌∷◌, Text, length, ◌==◌, if◌then◌else◌,
  arith,
}
use mathlib.Core.List.{reverse_aux}

-- `prev` is the old cell to the upper left, `left` the new one to the left.
unfoldable pub lev_row : ℕ → ℕ → ℕ → Text → List ℕ → List ℕ
lev_row c prev left [] old = []
lev_row c prev left (b ∷ bs) [] = []
lev_row c prev left (b ∷ bs) (d ∷ old) =
    let v = (if c == b then prev else 1 + min (min prev d) left) in v ∷ lev_row c d v bs old

-- The outer loop; `i` is the first cell of the row before this round.
unfoldable pub lev_rows : ℕ → Text → Text → List ℕ → List ℕ
lev_rows i [] b row = row
lev_rows i (c ∷ a) b row = lev_rows (suc i) a b (lev_row c i (suc i) b row)

-- `list(range(n + 1))` without its first cell
unfoldable pub first_row : ℕ → Text → List ℕ
first_row i [] = []
first_row i (b ∷ bs) = suc i ∷ first_row (suc i) bs

unfoldable pub last_cell : ℕ → List ℕ → ℕ
last_cell first [] = first
last_cell first (d ∷ row) = last_cell d row

unfoldable pub levenshtein : Text → Text → ℕ
levenshtein a b = last_cell (length a) (lev_rows 0 a b (first_row 0 b))

-- The edit distance by its recursion over the last characters, for texts written backwards.
abbrev pub dist : Text → Text → ℕ
dist [] t = length t
dist (c ∷ s) [] = length (c ∷ s)
dist (c ∷ s) (d ∷ t) =
    if c == d then dist s t else 1 + min (min (dist s t) (dist s (d ∷ t))) (dist (c ∷ s) t)

-- The row of the distances of `s` to each longer prefix of the other text, of which `t` was read.
abbrev dist_row : Text → Text → Text → List ℕ
dist_row s t [] = []
dist_row s t (b ∷ bs) = dist s (b ∷ t) ∷ dist_row s (b ∷ t) bs

lev_row-dist_row :
    (c : ℕ) (s t bs : Text)
    → lev_row c (dist s t) (dist (c ∷ s) t) bs (dist_row s t bs) ≡ dist_row (c ∷ s) t bs
unfolding lev_row
lev_row-dist_row c s t [] = refl
lev_row-dist_row c s t (b ∷ bs) =
    ap (λ (r : List ℕ). dist (c ∷ s) (b ∷ t) ∷ r) (lev_row-dist_row c s (b ∷ t) bs)

first_row-dist_row : (t bs : Text) → first_row (length t) bs ≡ dist_row [] t bs
unfolding first_row
first_row-dist_row t [] = refl
first_row-dist_row t (b ∷ bs) =
    ap (λ (r : List ℕ). suc (length t) ∷ r) (first_row-dist_row (b ∷ t) bs)

pub dist-nil : (s : Text) → dist s [] ≡ length s
dist-nil [] = refl
dist-nil (c ∷ s) = refl

lev_rows-dist_row :
    (s a b : Text) → lev_rows (length s) a b (dist_row s [] b) ≡ dist_row (reverse_aux a s) [] b
unfolding lev_rows
lev_rows-dist_row s [] b = refl
lev_rows-dist_row s (c ∷ a) b =
    ap (lev_rows (suc (length s)) a b) (
      ap (λ (n : ℕ). lev_row c n (suc (length s)) b (dist_row s [] b)) (sym (dist-nil s))
      ∙ lev_row-dist_row c s [] b)
    ∙ lev_rows-dist_row (c ∷ s) a b

last_cell-dist_row :
    (s t b : Text) → last_cell (dist s t) (dist_row s t b) ≡ dist s (reverse_aux b t)
unfolding last_cell
last_cell-dist_row s t [] = refl
last_cell-dist_row s t (c ∷ b) = last_cell-dist_row s (c ∷ t) b

length-reverse_aux : (a s : Text) → length (reverse_aux a s) ≡ length a + length s
length-reverse_aux [] s = omega arith
length-reverse_aux (c ∷ a) s = omega (arith, length-reverse_aux a (c ∷ s))

length-dist : (a : Text) → length a ≡ dist (reverse_aux a []) []
length-dist a = omega (arith, dist-nil (reverse_aux a []), length-reverse_aux a [])

pub levenshtein-dist : (a b : Text) → levenshtein a b ≡ dist (reverse_aux a []) (reverse_aux b [])
unfolding levenshtein
levenshtein-dist a b =
    ap (λ (r : List ℕ). last_cell (length a) (lev_rows 0 a b r)) (first_row-dist_row [] b)
    ∙ (ap (last_cell (length a)) (lev_rows-dist_row [] a b)
        ∙ (ap (λ (n : ℕ). last_cell n (dist_row (reverse_aux a []) [] b)) (length-dist a)
            ∙ last_cell-dist_row (reverse_aux a []) [] b))
