-- ===== src/Prelude/Ascending.antt =====
-- Lists in the order of a rank, each element at most once.
use Prim.Native.Nat.{ℕ, suc, ◌≤◌, ◌<◌}
use mathlib.Core.Path.{◌≡◌, refl}
use mathlib.Core.List.{List, [], ◌∷◌, ◌++◌}
use mathlib.Core.Bool.{Bool, true, false}
use native.Mathlib.Omega.{arith}
use lin_clean_be_fastapi.Prelude.Tests.{if◌then◌else◌}
use lin_clean_be_fastapi.Prelude.Lists.{any}

-- What a test adds to a list.
unfoldable pub list_if {ℓ} : {A : Type ℓ} → Bool → A → List A
list_if test x = if test then x ∷ [] else []

pub any-list_if {ℓ} :
    {A : Type ℓ} (p : A → Bool) (b : Bool) (x : A)
    → any p (list_if b x) ≡ (if b then p x else false)
unfolding list_if
any-list_if p b x = ground arith

module _ {ℓ} {A : Type ℓ} (rank : A → ℕ) where
  -- The ranks increase strictly, from `n` on and below `m`.
  abbrev pub IsAscending : ℕ → List A → ℕ → Type 0
  IsAscending n [] m = n ≤ m
  IsAscending n (x ∷ xs) m = (n ≤ rank x) × IsAscending (suc (rank x)) xs m

  pub IsAscending-weaken :
      (xs : List A) (n n' m : ℕ) → n' ≤ n → IsAscending n xs m → IsAscending n' xs m
  IsAscending-weaken [] n n' m h a = omega arith
  IsAscending-weaken (x ∷ xs) n n' m h (l, a) = (omega arith, a)

  pub IsAscending-raise :
      (xs : List A) (n m m' : ℕ) → m ≤ m' → IsAscending n xs m → IsAscending n xs m'
  IsAscending-raise [] n m m' h a = omega arith
  IsAscending-raise (x ∷ xs) n m m' h (l, a) = (l, IsAscending-raise xs (suc (rank x)) m m' h a)

  pub IsAscending-append :
      (xs ys : List A) (n m k : ℕ)
      → IsAscending n xs m
      → IsAscending m ys k
      → IsAscending n (xs ++ ys) k
  IsAscending-append [] ys n m k h a = IsAscending-weaken ys m n k h a
  IsAscending-append (x ∷ xs) ys n m k (l, a) b =
      (l, IsAscending-append xs ys (suc (rank x)) m k a b)

  pub IsAscending-list_if :
      (b : Bool) (x : A) (n m : ℕ) → n ≤ rank x → rank x < m → IsAscending n (list_if b x) m
  unfolding list_if
  IsAscending-list_if true x n m h k = (h, k)
  IsAscending-list_if false x n m h k = omega arith

  IsAscending-bound : (xs : List A) (n m : ℕ) → IsAscending n xs m → n ≤ m
  IsAscending-bound [] n m a = a
  IsAscending-bound (x ∷ xs) n m (l, a) = omega (arith, IsAscending-bound xs (suc (rank x)) m a)

  -- A test that only what ranks too high can pass fails on the whole list.
  pub IsAscending-absent :
      (xs : List A) (p : A → Bool) (r : ℕ)
      → ((y : A) → p y ≡ true → rank y ≡ r)
      → (n m : ℕ) → IsAscending n xs m
      → m ≤ r
      → any p xs ≡ false
  IsAscending-absent [] p r same n m a h = refl
  IsAscending-absent (y ∷ ys) p r same n m (l, a) h = ground (
    arith,
    same y,
    IsAscending-absent ys p r same (suc (rank y)) m a h,
    IsAscending-bound ys (suc (rank y)) m a,
  )
