-- ===== src/Prelude/Split.antt =====
-- `s.split(c)` and `c.join(parts)`.
use lin_clean_be_fastapi.Prelude.Tests.{◌==◌, if◌then◌else◌, Bool-cases}
use lin_clean_be_fastapi.Prelude.Lists.{All, any}
use mathlib.Core.Path.{◌≡◌, refl}
use mathlib.Core.Logic.{inl, inr}
use mathlib.Core.Bool.{false}
use native.Mathlib.Omega.{arith}
use lin_clean_be_fastapi.Prelude.Strings.{Text}
use Prim.Native.Nat.{ℕ}
use mathlib.Core.List.{List, [], ◌∷◌, ◌++◌}

-- Put a character in front of the first part.
unfoldable pub push_first : ℕ → List Text → List Text
push_first c [] = (c ∷ []) ∷ []
push_first c (part ∷ parts) = (c ∷ part) ∷ parts

unfoldable pub split_on : ℕ → Text → List Text
unfolding push_first
split_on sep [] = [] ∷ []
split_on sep (c ∷ s) =
    let rest = split_on sep s in if c == sep then [] ∷ rest else push_first c rest

unfoldable pub join : ℕ → List Text → Text
join sep [] = []
join sep (part ∷ []) = part
join sep (part ∷ parts) = part ++ sep ∷ join sep parts

-- A text without the character.
abbrev pub IsFree : ℕ → Text → Type 0
IsFree c s = any (λ d. d == c) s ≡ false

push_first-IsFree :
    (c d : ℕ) (parts : List Text)
    → (d == c) ≡ false
    → All (IsFree c) parts
    → All (IsFree c) (push_first d parts)
unfolding push_first
push_first-IsFree c d [] e h = (ground arith, tt)
push_first-IsFree c d (part ∷ parts) e (h, k) = (ground arith, k)

pub split_on-IsFree : (c : ℕ) (s : Text) → All (IsFree c) (split_on c s)
unfolding split_on
split_on-IsFree c [] = (refl, tt)
split_on-IsFree c (d ∷ s) = elim (Bool-cases (d == c)) [
  | inl e ↦ rw (e, split_on) (refl, split_on-IsFree c s)
  | inr e ↦ rw (e, split_on) (push_first-IsFree c d (split_on c s) e (split_on-IsFree c s))
]

split_on-free : (c : ℕ) (s : Text) → IsFree c s → split_on c s ≡ s ∷ []
unfolding split_on push_first
split_on-free c [] h = refl
split_on-free c (d ∷ s) h = ground (arith, split_on-free c s)

split_on-append : (c : ℕ) (s t : Text) → IsFree c s → split_on c (s ++ c ∷ t) ≡ s ∷ split_on c t
unfolding split_on push_first
split_on-append c [] t h = ground arith
split_on-append c (d ∷ s) t h = ground (arith, split_on-append c s t)

-- Splitting at a character undoes joining with it, for parts without it.
pub split_on-join :
    (c : ℕ) (part : Text) (parts : List Text)
    → All (IsFree c) (part ∷ parts)
    → split_on c (join c (part ∷ parts)) ≡ part ∷ parts
unfolding join
split_on-join c part [] (h, k) = split_on-free c part h
split_on-join c part (next ∷ parts) (h, k) =
    rw (split_on-append c part _ h, split_on-join c next parts k)
