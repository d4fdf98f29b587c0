-- ===== src/Prelude/Strings.antt =====
-- Python's `str` as the list of its code points, with the methods of `str` that the program calls.
use Prim.Native.Nat.{ℕ, zero, suc, ◌+◌, ◌-◌, ◌*◌, ◌/◌, ◌%◌, ◌<◌}
use Prim.Native.Char.{code}
use Prim.Native.String.{String}
use mathlib.Core.Path.{◌≡◌, refl}
use mathlib.Core.Logic.{◌↔◌}
use mathlib.Core.Bool.{Bool, true, false, ◌&&◌, ◌||◌, not}
use mathlib.Core.List.{List, [], ◌∷◌, ◌++◌}
use mathlib.Core.Option.{Option, none, some}
use native.Mathlib.Omega.{arith}
use lin_clean_be_fastapi.Prelude.Tests.{leb, ltb, ◌==◌, if◌then◌else◌}
use lin_clean_be_fastapi.Prelude.Lists.{All, All-map, length, drop, all, any}

abbrev pub Text : Type 0
Text = List ℕ

-- The code points of a literal.
unfoldable pub text : String → Text
text String.[] = []
text (String.◌∷◌ c s) = code c ∷ text s

unfoldable pub is_empty : Text → Bool
is_empty [] = true
is_empty (c ∷ s) = false

unfoldable pub text_eq : Text → Text → Bool
text_eq [] [] = true
text_eq [] (d ∷ t) = false
text_eq (c ∷ s) [] = false
text_eq (c ∷ s) (d ∷ t) = c == d && text_eq s t

unfoldable pub starts_with : Text → Text → Bool
starts_with [] s = true
starts_with (c ∷ p) [] = false
starts_with (c ∷ p) (d ∷ s) = c == d && starts_with p s

-- `s.removeprefix(p)`
unfoldable pub remove_prefix : Text → Text → Text
unfolding starts_with
remove_prefix p s = if starts_with p s then drop (length p) s else s

-- `p in s`
unfoldable pub contains : Text → Text → Bool
contains p [] = starts_with p []
contains p (c ∷ s) = starts_with p (c ∷ s) || contains p s

-- `s in xs`
unfoldable pub mem_text : Text → List Text → Bool
unfolding text_eq
mem_text s xs = any (text_eq s) xs

-- `bool(s)` of an optional text: neither missing nor empty
unfoldable pub truthy : Option Text → Bool
unfolding is_empty
truthy none = false
truthy (some s) = not (is_empty s)

-- `s or t`
unfoldable pub or_text : Option Text → Text → Text
unfolding is_empty
or_text none t = t
or_text (some s) t = if is_empty s then t else s

-- `str(n)`, with as much fuel as the number is large
unfoldable pub decimal_from : ℕ → ℕ → Text → Text
decimal_from zero n out = out
decimal_from (suc f) n out =
    let rest = decimal_from f (n / 10) ((b'0' + n % 10) ∷ out) in
    if ltb n 10 then (b'0' + n) ∷ out else rest

unfoldable pub decimal : ℕ → Text
unfolding decimal_from
decimal n = decimal_from (suc n) n []

-- `int(s)` of digits
unfoldable pub value_from : ℕ → Text → ℕ
value_from v [] = v
value_from v (c ∷ s) = value_from (v * 10 + (c - b'0')) s

unfoldable pub value : Text → ℕ
unfolding value_from
value s = value_from 0 s

unfoldable pub is_digit : ℕ → Bool
is_digit c = leb b'0' c && leb c b'9'

-- `s.isdigit()`, for ASCII texts
unfoldable pub is_digits : Text → Bool
unfolding is_digit is_empty
is_digits s = not (is_empty s) && all is_digit s

pub text_eq→eq : (s t : Text) → text_eq s t ≡ true → s ≡ t
unfolding text_eq
text_eq→eq [] [] h = refl
text_eq→eq [] (d ∷ t) h = cc
text_eq→eq (c ∷ s) [] h = cc
text_eq→eq (c ∷ s) (d ∷ t) h = ground (arith, text_eq→eq s t)

pub text_eq_refl : (s : Text) → text_eq s s ≡ true
unfolding text_eq
text_eq_refl [] = refl
text_eq_refl (c ∷ s) = ground (arith, text_eq_refl s)

pub text_eq_iff : (s t : Text) → (text_eq s t ≡ true) ↔ (s ≡ t)
text_eq_iff s t = (text_eq→eq s t, λ e. rw e (text_eq_refl t))

pub starts_with-append : (p s : Text) → starts_with p (p ++ s) ≡ true
unfolding starts_with
starts_with-append [] s = refl
starts_with-append (c ∷ p) s = ground (arith, starts_with-append p s)

drop-append : (p s : Text) → drop (length p) (p ++ s) ≡ s
drop-append [] s = refl
drop-append (c ∷ p) s = drop-append p s

pub remove_prefix-append : (p s : Text) → remove_prefix p (p ++ s) ≡ s
unfolding remove_prefix
remove_prefix-append p s = rw (starts_with-append p s) (drop-append p s)

value-decimal_from :
    (f n : ℕ) (out : Text) → n < f → value_from 0 (decimal_from f n out) ≡ value_from n out
unfolding value_from decimal_from
value-decimal_from zero n out h = elim h [ ]
value-decimal_from (suc f) n out h =
    ground (arith, value-decimal_from f (n / 10) ((b'0' + n % 10) ∷ out))

-- Reading back what `str` prints gives the number.
pub value-decimal : (n : ℕ) → value (decimal n) ≡ n
unfolding value decimal
value-decimal n = unfold value_from in value-decimal_from (suc n) n [] (omega arith)

all-is_digit-decimal_from :
    (f n : ℕ) (out : Text) → all is_digit out ≡ true → all is_digit (decimal_from f n out) ≡ true
unfolding decimal_from is_digit
all-is_digit-decimal_from zero n out h = h
all-is_digit-decimal_from (suc f) n out h =
    ground (arith, all-is_digit-decimal_from f (n / 10) ((b'0' + n % 10) ∷ out))

is_empty-decimal_from :
    (f n : ℕ) (out : Text) → is_empty out ≡ false → is_empty (decimal_from f n out) ≡ false
unfolding decimal_from is_empty
is_empty-decimal_from zero n out h = h
is_empty-decimal_from (suc f) n out h =
    ground (arith, is_empty-decimal_from f (n / 10) ((b'0' + n % 10) ∷ out))

is_empty-decimal : (n : ℕ) → is_empty (decimal n) ≡ false
unfolding decimal is_empty
is_empty-decimal n = ground (arith, is_empty-decimal_from n (n / 10) ((b'0' + n % 10) ∷ []))

pub is_digits-decimal : (n : ℕ) → is_digits (decimal n) ≡ true
unfolding is_digits decimal
is_digits-decimal n = rw (is_empty-decimal n, all-is_digit-decimal_from (suc n) n [] refl)

decimal_404 : decimal 404 ≡ text "404"
unfolding decimal text
decimal_404 = refl

pub mem_text-cons :
    (s t : Text) (ts : List Text) → mem_text s ts ≡ true → mem_text s (t ∷ ts) ≡ true
unfolding mem_text
mem_text-cons s t ts h = ground (arith, h)

pub mem_text-here : (s : Text) (ts : List Text) → mem_text s (s ∷ ts) ≡ true
unfolding mem_text
mem_text-here s ts = ground (arith, text_eq_refl s)

-- Every text of a list is in it.
pub All-mem_text : (ts : List Text) → All (λ t. mem_text t ts ≡ true) ts
All-mem_text [] = tt
All-mem_text (t ∷ ts) =
    (mem_text-here t ts, All-map (λ s. mem_text-cons s t ts) ts (All-mem_text ts))
