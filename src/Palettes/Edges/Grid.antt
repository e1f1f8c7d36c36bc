-- ===== src/Palettes/Edges/Grid.antt =====
-- The places of a grid, the index of a place, and the distance of two places along rows and columns.
use voria.Prelude.{
  ℕ, zero, suc, ◌+◌, ◌-◌, ◌*◌, ◌/◌, ◌%◌, ◌<◌, ◌≡◌, ◌⊎◌, inl, inr, arith, ltb, ltb→lt, Bool-cases,
}

abbrev pub Inside : ℕ → ℕ → ℕ → ℕ → Type 0
Inside w h x y = (x < w) × (y < h)

unfoldable pub index : ℕ → ℕ → ℕ → ℕ
index w x y = y * w + x

-- Steps from one place to another.
abbrev pub distance : ℕ → ℕ → ℕ → ℕ → ℕ
distance x y x' y' = (x - x') + (x' - x) + ((y - y') + (y' - y))

pub index-lt : (w h x y : ℕ) → Inside w h x y → index w x y < w * h
unfolding index
index-lt w h x y (hx, hy) = grind arith

pub index-div : (w x y : ℕ) → x < w → index w x y / w ≡ y
unfolding index
index-div w x y hx = grind arith

pub index-mod : (w x y : ℕ) → x < w → index w x y % w ≡ x
unfolding index
index-mod w x y hx = grind arith

pub order : (a b : ℕ) → (a < b) ⊎ ((b < a) ⊎ (a ≡ b))
order a b = elim (Bool-cases (ltb a b)) [
  | inl less ↦ inl (ltb→lt a b less)
  | inr ge ↦ elim (Bool-cases (ltb b a)) [
    | inl more ↦ inr (inl (ltb→lt b a more))
    | inr le ↦ inr (inr (ground arith))
  ]
]

-- The neighbour one step nearer to another place.
pub record Nearer (w h x y x' y' : ℕ) : Type 0 where
  pub nx : ℕ
  pub ny : ℕ
  pub inside : Inside w h nx ny
  pub adjacent : distance x y nx ny ≡ 1
  pub nearer : suc (distance nx ny x' y') ≡ distance x y x' y'

pub toward :
    (w h x y x' y' : ℕ)
    → Inside w h x y
    → Inside w h x' y'
    → 0 < distance x y x' y'
    → Nearer w h x y x' y'
toward w h x y x' y' (hx, hy) (hx', hy') far = elim (order x x') [
  | inl right ↦ at_place (x + 1) y (omega arith) (omega arith) (omega arith)
  | inr (inl left) ↦ at_place (x - 1) y (omega arith) (omega arith) (omega arith)
  | inr (inr same) ↦ elim (order y y') [
    | inl down ↦ at_place x (y + 1) (omega arith) (omega arith) (omega arith)
    | inr (inl up) ↦ at_place x (y - 1) (omega arith) (omega arith) (omega arith)
    | inr (inr here) ↦ absurd (omega arith)
  ]
]
  where
    at_place :
        (nx ny : ℕ)
        → Inside w h nx ny
        → distance x y nx ny ≡ 1
        → suc (distance nx ny x' y') ≡ distance x y x' y'
        → Nearer w h x y x' y'
    at_place nx ny i a n = record { nx = nx; ny = ny; inside = i; adjacent = a; nearer = n }

-- The indices of the four neighbours.
pub index-left : (w x y : ℕ) → 0 < x → index w (x - 1) y ≡ index w x y - 1
unfolding index
index-left w x y h = omega arith

pub index-right : (w x y : ℕ) → index w (x + 1) y ≡ index w x y + 1
unfolding index
index-right w x y = omega arith

pub index-down : (w x y : ℕ) → index w x (y + 1) ≡ index w x y + w
unfolding index
index-down w x y = grind arith

pub index-up : (w x y : ℕ) → 0 < y → index w x (y - 1) ≡ index w x y - w
unfolding index
index-up w x zero h = elim h [ ]
index-up w x (suc y) h = grind arith
