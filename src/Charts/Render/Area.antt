-- ===== src/Charts/Render/Area.antt =====
-- The area of a drawing: what lies in it, and what d3 promises of the scales.
use voria.Prelude.{ℕ, ◌≤◌, ◌<◌, ◌≡◌, sym, subst, List, [], ◌∷◌, ◌++◌, map}
use voria.Prelude.Int.{ℤ, pos, ◌≤ℤ◌, ◌<ℤ◌, ◌+ℤ◌, ◌*ℤ◌}
use voria.Charts.Segments.{Point, Shape, rect, label, split_into_segments}
use voria.Charts.Segments.Gaps.{joined, joined-split_into_segments}
use voria.Charts.Scene.{Element, shade, area, path, dot, bar, D3}
use voria.Charts.Layout.Inside.{Covers}

abbrev pub All {ℓ κ} : {A : Type ℓ} → (A → Type κ) → List A → Type κ
All P [] = Unit
All P (a ∷ as') = P a × All P as'

pub All-append {ℓ κ} :
    {A : Type ℓ} (P : A → Type κ) (xs ys : List A) → All P xs → All P ys → All P (xs ++ ys)
All-append P [] ys h k = k
All-append P (x ∷ xs) ys h k = (h.0, All-append P xs ys h.1 k)

pub All-map {ℓ κ μ} :
    {A : Type ℓ} {B : Type κ} (P : B → Type μ) (f : A → B) (xs : List A)
    → All (λ a. P (f a)) xs
    → All P (map f xs)
All-map P f [] h = tt
All-map P f (x ∷ xs) h = (h.0, All-map P f xs h.1)

pub All-weaken {ℓ κ μ} :
    {A : Type ℓ} (P : A → Type κ) (Q : A → Type μ) (xs : List A)
    → ((a : A) → P a → Q a)
    → All P xs
    → All Q xs
All-weaken P Q [] f h = tt
All-weaken P Q (x ∷ xs) f h = (f x h.0, All-weaken P Q xs f h.1)

All-split {ℓ κ} :
    {A : Type ℓ} (P : A → Type κ) (xs ys : List A) → All P (xs ++ ys) → All P xs × All P ys
All-split P [] ys h = (tt, h)
All-split P (x ∷ xs) ys h = let (a, b) = All-split P xs ys h.1 in ((h.0, a), b)

-- What holds of all points holds of those of each segment.
All-joined {ℓ κ} :
    {V : Type ℓ} (P : Point V → Type κ) (ss : List (List (Point V)))
    → All P (joined ss)
    → All (All P) ss
unfolding joined
All-joined P [] h = tt
All-joined P (s ∷ ss) h = let (a, b) = All-split P s (joined ss) h in (a, All-joined P ss b)

pub All-segments {ℓ κ} :
    {V : Type ℓ} (P : Point V → Type κ) (ps : List (Point V))
    → All P ps
    → All (All P) (split_into_segments ps)
All-segments P ps h =
    All-joined P (split_into_segments ps) (subst (All P) (sym (joined-split_into_segments ps)) h)

-- A place in a drawing of this width and height.
abbrev pub InArea : ℤ → ℤ → ℤ × ℤ → Type 0
InArea w h (x, y) = (pos 0 ≤ℤ x) × (x ≤ℤ w) × (pos 0 ≤ℤ y) × (y ≤ℤ h)

abbrev pub ShapeInArea : ℤ → ℤ → Shape → Type 0
ShapeInArea w h (rect x y width height fill) =
    InArea w h (x, y) × InArea w h (x +ℤ width, y +ℤ height) × (pos 0 ≤ℤ width)
ShapeInArea w h (label twice_x twice_y fill) = InArea (w *ℤ 2) (h *ℤ 2) (twice_x, twice_y)

-- A bar stands on the floor of the drawing. The axes, and what is at the margins, are not measured.
abbrev pub Drawn : ℤ → ℤ → Element → Type 0
Drawn w h (shade s) = ShapeInArea w h s
Drawn w h (area fill base points) = (base ≡ h) × All (InArea w h) points
Drawn w h (path stroke width points) = All (InArea w h) points
Drawn w h (dot x y fill) = InArea w h (x, y)
Drawn w h (bar x y width height fill) = InArea w h (x, y) × (pos 0 ≤ℤ height) × (y +ℤ height ≡ h)
Drawn w h e = Unit {0}

-- What d3 promises: a scale keeps its domain inside of its range, and the extremes are extreme.
pub record IsD3 (d3 : D3) : Type 0 where
  pub positive : 0 < d3.one
  pub time :
      (a b : ℕ) (w : ℤ) (t : ℕ)
      → a ≤ t
      → t ≤ b
      → pos 0 ≤ℤ w
      → (pos 0 ≤ℤ d3.time (a, b) w t) × (d3.time (a, b) w t ≤ℤ w)
  pub linear :
      (a b h v : ℤ)
      → a ≤ℤ v
      → v ≤ℤ b
      → a <ℤ b
      → pos 0 ≤ℤ h
      → (pos 0 ≤ℤ d3.linear (a, b) h v) × (d3.linear (a, b) h v ≤ℤ h)
  pub earliest : (ts : List ℕ) → All (λ t. d3.earliest ts ≤ t) ts
  pub latest : (ts : List ℕ) → All (λ t. t ≤ d3.latest ts) ts
  pub extent : (vs : List ℤ) → Covers vs (d3.extent vs)
  pub greatest : (vs : List ℤ) → All (λ v. v ≤ℤ d3.greatest vs) vs
