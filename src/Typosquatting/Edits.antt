-- ===== src/Typosquatting/Edits.antt =====
-- The edit distance as the least number of edits, whatever the algorithm.
use lin_clean_be_fastapi.Prelude.{
  ℕ, suc, ◌+◌, ◌≤◌, min, ◌≡◌, refl, [], ◌∷◌, Text, length, ◌==◌, arith, Bool-cases, inl, inr, ◌⊎◌,
  leb, leb→le, leb_false→lt,
}
use mathlib.Core.Path.{subst}
use mathlib.Core.List.{reverse_aux, reverse_aux-reverse_aux-nil}
use lin_clean_be_fastapi.Typosquatting.Distance.{dist, dist-nil, levenshtein, levenshtein-dist}

-- A way from one text to the other with so many changed, removed or inserted characters.
pub data Edits : ℕ → Text → Text → Type 0 where
  done : Edits 0 [] []
  keep : {n c d : ℕ} {s t : Text} → c ≡ d → Edits n s t → Edits n (c ∷ s) (d ∷ t)
  change : {n c d : ℕ} {s t : Text} → Edits n s t → Edits (suc n) (c ∷ s) (d ∷ t)
  remove : {n c : ℕ} {s t : Text} → Edits n s t → Edits (suc n) (c ∷ s) t
  insert : {n d : ℕ} {s t : Text} → Edits n s t → Edits (suc n) s (d ∷ t)

dist_sym : (s t : Text) → dist s t ≡ dist t s
dist_sym [] [] = refl
dist_sym [] (d ∷ t) = refl
dist_sym (c ∷ s) [] = refl
dist_sym (c ∷ s) (d ∷ t) = ground (arith, dist_sym s t, dist_sym s (d ∷ t), dist_sym (c ∷ s) t)

-- One more character on a side moves the distance by at most one.
dist-cons :
    (s t : Text)
    → ((d : ℕ) → dist s t ≤ suc (dist s (d ∷ t))) × ((c : ℕ) → dist (c ∷ s) t ≤ suc (dist s t))
dist-cons [] [] = ((λ d. ground arith), (λ c. ground arith))
dist-cons [] (e ∷ t) = ((λ d. ground arith), (λ c. ground arith))
dist-cons (b ∷ s) [] =
    ((λ d. ground (arith, (dist-cons s []).1 b, (dist-cons s []).0 d)), (λ c. ground arith))
dist-cons (b ∷ s) (e ∷ t) = (
  (λ d. ground (arith, (dist-cons s (e ∷ t)).1 b, (dist-cons s (e ∷ t)).0 d)),
  (λ c. ground (arith, (dist-cons (b ∷ s) t).0 e)),
)

dist-least : (n : ℕ) (s t : Text) → Edits n s t → dist s t ≤ n
dist-least n s t done = omega arith
dist-least n (c ∷ s) (d ∷ t) (keep e p) = ground (arith, e, dist-least n s t p)
dist-least (suc n) (c ∷ s) (d ∷ t) (change p) =
    ground (arith, dist-least n s t p, (dist-cons s t).1 c, (dist-cons s t).0 d)
dist-least (suc n) (c ∷ s) t (remove p) = omega (arith, dist-least n s t p, (dist-cons s t).1 c)
dist-least (suc n) s (d ∷ t) (insert p) =
    omega (arith, dist-least n s t p, (dist-cons t s).1 d, dist_sym s t, dist_sym s (d ∷ t))

min-cases : (a b : ℕ) → (min a b ≡ a) ⊎ (min a b ≡ b)
min-cases a b = elim (Bool-cases (leb a b)) [
  | inl e ↦ inl (ground (arith, leb→le a b e))
  | inr e ↦ inr (ground (arith, leb_false→lt a b e))
]

at_least_of : (s t : Text) (m n : ℕ) → m ≡ n → Edits m s t → Edits n s t
at_least_of s t m n e p = subst (λ (k : ℕ). Edits k s t) e p

-- The least of the three ways to deal with two different characters.
dist-step :
    (c d x y z : ℕ) (s t : Text)
    → Edits x s t
    → Edits y s (d ∷ t)
    → Edits z (c ∷ s) t
    → Edits (1 + min (min x y) z) (c ∷ s) (d ∷ t)
dist-step c d x y z s t p q r = elim (min-cases (min x y) z) [
  | inr e ↦ at_least_of _ _ (suc z) _ (omega (arith, e)) (insert r)
  | inl e ↦ elim (min-cases x y) [
    | inl f ↦ at_least_of _ _ (suc x) _ (omega (arith, e, f)) (change p)
    | inr f ↦ at_least_of _ _ (suc y) _ (omega (arith, e, f)) (remove q)
  ]
]

dist-Edits : (s t : Text) → Edits (dist s t) s t
dist-Edits [] [] = done
dist-Edits [] (d ∷ t) = insert (dist-Edits [] t)
dist-Edits (c ∷ s) [] = remove (at_least_of _ _ _ _ (dist-nil s) (dist-Edits s []))
dist-Edits (c ∷ s) (d ∷ t) = elim (Bool-cases (c == d)) [
  | inl e ↦ rw e (keep (ground (arith, e)) (dist-Edits s t))
  | inr e ↦ rw e (
      dist-step c d (dist s t) (dist s (d ∷ t)) (dist (c ∷ s) t) s t (dist-Edits s t)
        (dist-Edits s (d ∷ t)) (dist-Edits (c ∷ s) t))
]

Edits-reverse_aux :
    (n m k : ℕ) (a b s t : Text)
    → k ≡ n + m
    → Edits n a b
    → Edits m s t
    → Edits k (reverse_aux a s) (reverse_aux b t)
Edits-reverse_aux n m k a b s t e done q = at_least_of _ _ m k (omega (arith, e)) q
Edits-reverse_aux n m k (c ∷ a) (d ∷ b) s t e (keep f p) q =
    Edits-reverse_aux n m k a b (c ∷ s) (d ∷ t) e p (keep f q)
Edits-reverse_aux (suc n) m k (c ∷ a) (d ∷ b) s t e (change p) q =
    Edits-reverse_aux n (suc m) k a b (c ∷ s) (d ∷ t) (omega (arith, e)) p (change q)
Edits-reverse_aux (suc n) m k (c ∷ a) b s t e (remove p) q =
    Edits-reverse_aux n (suc m) k a b (c ∷ s) t (omega (arith, e)) p (remove q)
Edits-reverse_aux (suc n) m k a (d ∷ b) s t e (insert p) q =
    Edits-reverse_aux n (suc m) k a b s (d ∷ t) (omega (arith, e)) p (insert q)

Edits-reverse : (n : ℕ) (a b : Text) → Edits n a b → Edits n (reverse_aux a []) (reverse_aux b [])
Edits-reverse n a b p = Edits-reverse_aux n 0 n a b [] [] (omega arith) p done

pub levenshtein-Edits : (a b : Text) → Edits (levenshtein a b) a b
levenshtein-Edits a b =
    rw (reverse_aux-reverse_aux-nil a [], reverse_aux-reverse_aux-nil b []) at
      (Edits-reverse (levenshtein a b) (reverse_aux a []) (reverse_aux b [])
        (rw (levenshtein-dist a b) (dist-Edits (reverse_aux a []) (reverse_aux b []))))

pub Edits-length :
    (n : ℕ) (s t : Text) → Edits n s t → (length s ≤ length t + n) × (length t ≤ length s + n)
Edits-length n s t done = (omega arith, omega arith)
Edits-length n (c ∷ s) (d ∷ t) (keep e p) =
    let (l, r) = Edits-length n s t p in (omega arith, omega arith)
Edits-length (suc n) (c ∷ s) (d ∷ t) (change p) =
    let (l, r) = Edits-length n s t p in (omega arith, omega arith)
Edits-length (suc n) (c ∷ s) t (remove p) =
    let (l, r) = Edits-length n s t p in (omega arith, omega arith)
Edits-length (suc n) s (d ∷ t) (insert p) =
    let (l, r) = Edits-length n s t p in (omega arith, omega arith)

-- The code's distance of two texts is the least number of edits between them: it is the number of
-- edits of some way from one to the other, and no way has fewer.
pub levenshtein-IsLeast :
    (a b : Text) (n : ℕ) → Edits n a b → Edits (levenshtein a b) a b × (levenshtein a b ≤ n)
levenshtein-IsLeast a b n p =
    (levenshtein-Edits a b, rw (levenshtein-dist a b) (dist-least n _ _ (Edits-reverse n a b p)))
