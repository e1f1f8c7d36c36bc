-- ===== src/Prelude/Int.antt =====
-- Signed integers over the native numbers, under the library's names (its ℤ stands on the unary ℕ):
-- the integral values of a JavaScript number, with `Math.floor` and `Math.round` of a quotient.
use voria.Prelude.{
  ℕ, suc, ◌+◌, ◌-◌, ◌*◌, ◌/◌, ◌≤◌, ◌<◌, ◌≡◌, refl, ap, ◌⊎◌, inl, inr, Bool, arith, ltb, leb,
  if◌then◌else◌, if_both,
}

-- `negsuc n` is -(n + 1).
pub data ℤ : Type 0 where
  pos : ℕ → ℤ
  negsuc : ℕ → ℤ

abbrev pub pos_part : ℤ → ℕ
pos_part (pos n) = n
pos_part (negsuc n) = 0

abbrev pub neg_part : ℤ → ℕ
neg_part (pos n) = 0
neg_part (negsuc n) = suc n

-- a - b, as an integer.
abbrev pub sub_ℕ : ℕ → ℕ → ℤ
sub_ℕ a b = if leb b a then pos (a - b) else negsuc (b - a - 1)

infixl 65 ◌+ℤ◌ ◌-ℤ◌
infixl 70 ◌*ℤ◌
infix 50 ◌≤ℤ◌ ◌<ℤ◌
unfoldable pub ◌+ℤ◌ : ℤ → ℤ → ℤ
a +ℤ b = sub_ℕ (pos_part a + pos_part b) (neg_part a + neg_part b)

unfoldable pub ◌-ℤ◌ : ℤ → ℤ → ℤ
a -ℤ b = sub_ℕ (pos_part a + neg_part b) (neg_part a + pos_part b)

-- A multiple by a natural number.
unfoldable pub ◌*ℤ◌ : ℤ → ℕ → ℤ
a *ℤ n = sub_ℕ (pos_part a * n) (neg_part a * n)

abbrev pub ◌≤ℤ◌ : ℤ → ℤ → Type 0
a ≤ℤ b = pos_part a + neg_part b ≤ pos_part b + neg_part a

abbrev pub ◌<ℤ◌ : ℤ → ℤ → Type 0
a <ℤ b = pos_part a + neg_part b < pos_part b + neg_part a

abbrev pub ltb_ℤ : ℤ → ℤ → Bool
ltb_ℤ a b = ltb (pos_part a + neg_part b) (pos_part b + neg_part a)

abbrev pub leb_ℤ : ℤ → ℤ → Bool
leb_ℤ a b = leb (pos_part a + neg_part b) (pos_part b + neg_part a)

-- `Math.min` and `Math.max`.
unfoldable pub min_ℤ : ℤ → ℤ → ℤ
min_ℤ a b = if leb_ℤ a b then a else b

unfoldable pub max_ℤ : ℤ → ℤ → ℤ
max_ℤ a b = if leb_ℤ a b then b else a

-- `Math.floor(a / d)` and `Math.round(a / d)`, which rounds a half up; `d` is positive.
unfoldable pub floor_div : ℤ → ℕ → ℤ
floor_div (pos n) d = pos (n / d)
floor_div (negsuc n) d = sub_ℕ 0 ((n + d) / d)

unfoldable pub round_div : ℤ → ℕ → ℤ
unfolding floor_div ◌+ℤ◌ ◌*ℤ◌
round_div a d = floor_div (a *ℤ 2 +ℤ pos d) (d * 2)

pub +ℤ_parts :
    (a b : ℤ)
    → pos_part (a +ℤ b) + neg_part a + neg_part b ≡ neg_part (a +ℤ b) + pos_part a + pos_part b
unfolding ◌+ℤ◌
+ℤ_parts a b = ground arith

pub -ℤ_parts :
    (a b : ℤ)
    → pos_part (a -ℤ b) + neg_part a + pos_part b ≡ neg_part (a -ℤ b) + pos_part a + neg_part b
unfolding ◌-ℤ◌
-ℤ_parts a b = ground arith

pub *ℤ_parts :
    (a : ℤ) (n : ℕ) → pos_part (a *ℤ n) + neg_part a * n ≡ neg_part (a *ℤ n) + pos_part a * n
unfolding ◌*ℤ◌
*ℤ_parts a n = ground arith

pub eq_of_parts : (a b : ℤ) → pos_part a + neg_part b ≡ pos_part b + neg_part a → a ≡ b
eq_of_parts a b h = ground arith

-- A whole number has at most one of its two parts.
pub parts_apart : (a : ℤ) → (pos_part a ≡ 0) ⊎ (neg_part a ≡ 0)
parts_apart a = ground arith

pub min_ℤ_cases : (a b : ℤ) → ((a ≤ℤ b) × (min_ℤ a b ≡ a)) ⊎ ((b <ℤ a) × (min_ℤ a b ≡ b))
unfolding min_ℤ
min_ℤ_cases a b = ground arith

pub max_ℤ_cases : (a b : ℤ) → ((a ≤ℤ b) × (max_ℤ a b ≡ b)) ⊎ ((b <ℤ a) × (max_ℤ a b ≡ a))
unfolding max_ℤ
max_ℤ_cases a b = ground arith

pub ruleset int_laws = (arith, +ℤ_parts, -ℤ_parts, *ℤ_parts, eq_of_parts)

sub_ℕ-zero_pos : (m : ℕ) → pos_part (sub_ℕ 0 m) ≡ 0
sub_ℕ-zero_pos m = ground arith

sub_ℕ-zero_neg : (m : ℕ) → neg_part (sub_ℕ 0 m) ≡ m
sub_ℕ-zero_neg m = ground arith

-- The quotient is the greatest whole number whose multiple is not above the dividend.
pub floor_div_bounds :
    (a : ℤ) (d : ℕ)
    → 0 < d
    → (pos_part (floor_div a d) * d + neg_part a ≤ pos_part a + neg_part (floor_div a d) * d)
      × (pos_part a + neg_part (floor_div a d) * d < pos_part (floor_div a d) * d + neg_part a + d)
unfolding floor_div
floor_div_bounds (pos n) d h = (omega arith, omega arith)
floor_div_bounds (negsuc n) d h =
    rw (sub_ℕ-zero_pos ((n + d) / d), sub_ℕ-zero_neg ((n + d) / d)) (omega arith, omega arith)

-- The rounded quotient is within half of the divisor, above by less than it.
pub round_div_bounds :
    (a : ℤ) (d : ℕ)
    → 0 < d
    → (pos_part (round_div a d) * d * 2 + neg_part a * 2
        ≤ pos_part a * 2 + neg_part (round_div a d) * d * 2 + d)
      × (pos_part a * 2 + neg_part (round_div a d) * d * 2
          < pos_part (round_div a d) * d * 2 + neg_part a * 2 + d)
unfolding round_div
round_div_bounds a d h =
    let f = floor_div_bounds (a *ℤ 2 +ℤ pos d) (d * 2) (omega arith) in
    (
      omega (arith, *ℤ_parts a 2, +ℤ_parts (a *ℤ 2) (pos d)),
      omega (arith, *ℤ_parts a 2, +ℤ_parts (a *ℤ 2) (pos d)),
    )

le_or_lt : (a b : ℤ) → (a ≤ℤ b) ⊎ (b <ℤ a)
le_or_lt a b = omega arith

pub mul_le_mul : {m n : ℕ} (p : ℕ) → m ≤ n → m * p ≤ n * p
mul_le_mul p h = grind arith

-- Smaller multiples of `p` lie at least `p` apart.
pub *ℤ_gap : (a b : ℤ) (p : ℕ) → a <ℤ b → a *ℤ p +ℤ pos p ≤ℤ b *ℤ p
*ℤ_gap a b p h =
    let m : suc (pos_part a + neg_part b) * p ≤ (pos_part b + neg_part a) * p = mul_le_mul p h in
    omega int_laws

pub *ℤ_mono : (a b : ℤ) (p : ℕ) → a ≤ℤ b → a *ℤ p ≤ℤ b *ℤ p
*ℤ_mono a b p h =
    let m : (pos_part a + neg_part b) * p ≤ (pos_part b + neg_part a) * p = mul_le_mul p h in
    omega int_laws

pub le_of_mul : (a b : ℤ) (p : ℕ) → a *ℤ p <ℤ b *ℤ p +ℤ pos p → a ≤ℤ b
le_of_mul a b p h = elim (le_or_lt a b) [
  | inl le ↦ le
  | inr lt ↦ absurd (omega (arith, *ℤ_gap b a p lt))
]

pub floor_div_unique :
    (a q : ℤ) (d : ℕ) → 0 < d → q *ℤ d ≤ℤ a → a <ℤ q *ℤ d +ℤ pos d → floor_div a d ≡ q
floor_div_unique a q d h low high =
    let b = floor_div_bounds a d h in
    let le : floor_div a d ≤ℤ q = le_of_mul (floor_div a d) q d (omega int_laws) in
    let ge : q ≤ℤ floor_div a d = le_of_mul q (floor_div a d) d (omega int_laws) in
    eq_of_parts _ _ (omega arith)

pub *ℤ-sub : (q : ℤ) (k p : ℕ) → (q -ℤ pos k) *ℤ p ≡ q *ℤ p -ℤ pos (k * p)
*ℤ-sub q k p = eq_of_parts _ _ (omega (int_laws, ap (λ (x : ℕ). x * p) (-ℤ_parts q (pos k))))

pub *ℤ-add : (q r : ℤ) (p : ℕ) → (q +ℤ r) *ℤ p ≡ q *ℤ p +ℤ r *ℤ p
*ℤ-add q r p = eq_of_parts _ _ (omega (int_laws, ap (λ (x : ℕ). x * p) (+ℤ_parts q r)))

pub min_ℤ-le_right : (a b : ℤ) → min_ℤ a b ≤ℤ b
unfolding min_ℤ
min_ℤ-le_right a b = ground arith

-- What holds of both holds of the smaller and of the larger.
pub min_ℤ-closed {ℓ} : (P : ℤ → Type ℓ) (a b : ℤ) → P a → P b → P (min_ℤ a b)
unfolding min_ℤ
min_ℤ-closed P a b pa pb = if_both P (leb_ℤ a b) pa pb

pub max_ℤ-closed {ℓ} : (P : ℤ → Type ℓ) (a b : ℤ) → P a → P b → P (max_ℤ a b)
unfolding max_ℤ
max_ℤ-closed P a b pa pb = if_both P (leb_ℤ a b) pb pa

pub min_ℤ-le_left : (a b : ℤ) → min_ℤ a b ≤ℤ a
unfolding min_ℤ
min_ℤ-le_left a b = ground arith

pub max_ℤ-ge_left : (a b : ℤ) → a ≤ℤ max_ℤ a b
unfolding max_ℤ
max_ℤ-ge_left a b = ground arith

pub max_ℤ-ge_right : (a b : ℤ) → b ≤ℤ max_ℤ a b
unfolding max_ℤ
max_ℤ-ge_right a b = ground arith
