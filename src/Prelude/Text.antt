-- ===== src/Prelude/Text.antt =====
-- Texts as lists of character codes: comparison, decimal numerals, and the `String` methods of
-- JavaScript that the program calls (`padStart`, `split`, `replace`).
use Prim.Native.Char.{code}
use Prim.Native.String.{String}
use voria.Prelude.{
  ℕ, zero, suc, ◌+◌, ◌-◌, ◌*◌, ◌/◌, ◌%◌, ◌<◌, ◌≡◌, refl, ◌∙◌, inl, inr, Bool, true, false, not,
  ◌&&◌, ◌||◌, List, [], ◌∷◌, ◌++◌, Option, none, some, arith, ltb, leb, ◌==◌, if◌then◌else◌,
  Bool-cases, length, replicate,
}

abbrev pub Text : Type 0
Text = List ℕ

-- The characters of a literal. `String` has its own `[]` and `∷`.
abbrev pub codes : String → Text
codes String.[] = []
codes (String.◌∷◌ c s) = code c ∷ codes s

unfoldable pub text_eq : Text → Text → Bool
text_eq [] [] = true
text_eq [] (d ∷ t) = false
text_eq (c ∷ s) [] = false
text_eq (c ∷ s) (d ∷ t) = (c == d) && text_eq s t

pub text_eq_sound : (s t : Text) → text_eq s t ≡ true → s ≡ t
unfolding text_eq
text_eq_sound [] [] h = refl
text_eq_sound [] (d ∷ t) h = cc
text_eq_sound (c ∷ s) [] h = cc
text_eq_sound (c ∷ s) (d ∷ t) h = ground (arith, text_eq_sound s t)

pub text_eq_refl : (s : Text) → text_eq s s ≡ true
unfolding text_eq
text_eq_refl [] = refl
text_eq_refl (c ∷ s) = ground (arith, text_eq_refl s)

pub text_eq_complete : (s t : Text) → s ≡ t → text_eq s t ≡ true
text_eq_complete s t e = rw e (text_eq_refl t)

unfoldable pub is_empty : Text → Bool
is_empty [] = true
is_empty (c ∷ s) = false

-- Decimal numerals.
unfoldable pub is_digit : ℕ → Bool
is_digit c = leb 48 c && leb c 57

unfoldable pub all_digits : Text → Bool
unfolding is_digit
all_digits [] = true
all_digits (c ∷ s) = is_digit c && all_digits s

unfoldable pub value : ℕ → Text → ℕ
value acc [] = acc
value acc (c ∷ s) = value (acc * 10 + (c - 48)) s

-- `Number(s)` and `parseInt(s, 10)` on a text of digits; `none` for any other text.
unfoldable pub parse_decimal : Text → Option ℕ
unfolding is_empty all_digits value
parse_decimal s = if not (is_empty s) && all_digits s then some (value 0 s) else none

digits_from : ℕ → ℕ → Text → Text
digits_from zero n acc = acc
digits_from (suc f) n acc =
    let rest = digits_from f (n / 10) ((48 + n % 10) ∷ acc) in
    if ltb n 10 then (48 + n) ∷ acc else rest

-- `String(n)`.
unfoldable pub decimal : ℕ → Text
unfolding digits_from
decimal n = digits_from (suc n) n []

value_at : (m n : ℕ) (acc : Text) → m ≡ n → value m acc ≡ value n acc
value_at m n acc e = rw e

value-digits_from : (f n : ℕ) (acc : Text) → n < f → value 0 (digits_from f n acc) ≡ value n acc
unfolding digits_from value
value-digits_from zero n acc h = elim h [ ]
value-digits_from (suc f) n acc h = elim (Bool-cases (ltb n 10)) [
  | inl small ↦ rw small (value_at _ n acc (omega arith))
  | inr large ↦
      rw large (value-digits_from f (n / 10) _ (ground arith) ∙ value_at _ n acc (omega arith))
]

all_digits-digits_from :
    (f n : ℕ) (acc : Text) → all_digits acc ≡ true → all_digits (digits_from f n acc) ≡ true
unfolding digits_from all_digits
all_digits-digits_from zero n acc h = h
all_digits-digits_from (suc f) n acc h =
    ground (arith, all_digits-digits_from f (n / 10) ((48 + n % 10) ∷ acc))

digits_from-ne_empty : (f n : ℕ) (acc : Text) → n < f → is_empty (digits_from f n acc) ≡ false
unfolding digits_from is_empty
digits_from-ne_empty zero n acc h = elim h [ ]
digits_from-ne_empty (suc f) n acc h = elim (Bool-cases (ltb n 10)) [
  | inl small ↦ rw small
  | inr large ↦ rw large (digits_from-ne_empty f (n / 10) _ (ground arith))
]

-- Printing a number and reading it back gives the number.
pub parse_decimal-decimal : (n : ℕ) → parse_decimal (decimal n) ≡ some n
unfolding parse_decimal decimal all_digits
parse_decimal-decimal n = rw (
  digits_from-ne_empty (suc n) n [] (omega arith),
  all_digits-digits_from (suc n) n [] refl,
  value-digits_from (suc n) n [] (omega arith),
)

pub value-decimal : (n : ℕ) → value 0 (decimal n) ≡ n
unfolding decimal value
value-decimal n = value-digits_from (suc n) n [] (omega arith)

pub all_digits-decimal : (n : ℕ) → all_digits (decimal n) ≡ true
unfolding decimal all_digits
all_digits-decimal n = all_digits-digits_from (suc n) n [] refl

pub is_empty-decimal : (n : ℕ) → is_empty (decimal n) ≡ false
unfolding decimal
is_empty-decimal n = digits_from-ne_empty (suc n) n [] (omega arith)

-- `s.padStart(width, c)`.
unfoldable pub pad_start : ℕ → ℕ → Text → Text
pad_start width c s = replicate (width - length s) c ++ s

unfoldable pub contains : ℕ → Text → Bool
contains c [] = false
contains c (d ∷ s) = (d == c) || contains c s

pub contains-append : (c : ℕ) (s t : Text) → contains c (s ++ t) ≡ (contains c s || contains c t)
unfolding contains
contains-append c [] t = refl
contains-append c (d ∷ s) t = ground (arith, contains-append c s t)

pub contains_of_all_digits :
    (c : ℕ) (s : Text) → is_digit c ≡ false → all_digits s ≡ true → contains c s ≡ false
unfolding contains all_digits
contains_of_all_digits c [] n h = refl
contains_of_all_digits c (d ∷ s) n h = ground (arith, contains_of_all_digits c s)

-- `s.split(sep)` for a separator of one character.
cons_head : ℕ → List Text → List Text
cons_head c [] = (c ∷ []) ∷ []
cons_head c (w ∷ ws) = (c ∷ w) ∷ ws

unfoldable pub split : ℕ → Text → List Text
unfolding cons_head
split sep [] = [] ∷ []
split sep (c ∷ s) = let rest = split sep s in if c == sep then [] ∷ rest else cons_head c rest

pub split-append :
    (sep : ℕ) (w s : Text) → contains sep w ≡ false → split sep (w ++ sep ∷ s) ≡ w ∷ split sep s
unfolding split contains
split-append sep [] s h = ground arith
split-append sep (c ∷ w) s h = ground (arith, split-append sep w s)

pub split-eq_self : (sep : ℕ) (w : Text) → contains sep w ≡ false → split sep w ≡ w ∷ []
unfolding split contains
split-eq_self sep [] h = refl
split-eq_self sep (c ∷ w) h = ground (arith, split-eq_self sep w)

-- What follows a prefix.
unfoldable pub strip_prefix : Text → Text → Option Text
strip_prefix [] s = some s
strip_prefix (p ∷ ps) [] = none
strip_prefix (p ∷ ps) (c ∷ s) = if p == c then strip_prefix ps s else none

pub strip_prefix-append : (p s : Text) → strip_prefix p (p ++ s) ≡ some s
unfolding strip_prefix
strip_prefix-append [] s = refl
strip_prefix-append (c ∷ p) s = ground (arith, strip_prefix-append p s)

-- `s.replace(pat, "")` for a text pattern: the first occurrence goes.
unfoldable pub remove_first : Text → Text → Text
unfolding strip_prefix
remove_first pat [] = []
remove_first pat (c ∷ s) =
    let later = remove_first pat s in
    elim (strip_prefix pat (c ∷ s)) [ some rest ↦ rest | none ↦ c ∷ later ]
