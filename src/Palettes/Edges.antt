-- ===== src/Palettes/Edges.antt =====
-- The colours that the edges of a tile bleed into its transparent pixels (bleedEdges of
-- assets/js/radar_palettes.js). An image is the list of its pixels, row by row; a pixel is four bytes.
pub mod Grid
mod Pass
mod Source
mod Fill
pub mod Spread
mod Step
pub mod Nearest
use voria.Prelude.{
  ℕ, zero, suc, ◌+◌, ◌-◌, ◌*◌, Bool, true, false, ◌&&◌, Option, none, some, List, [], ◌∷◌, ◌++◌,
  map, ltb, if◌then◌else◌, with_value, get_or, set,
}

pub record Pixel : Type 0 where
  pub r : ℕ
  pub g : ℕ
  pub b : ℕ
  pub a : ℕ

pub record Image : Type 0 where
  pub pixels : List Pixel
  pub width : ℕ
  pub height : ℕ

-- What is read outside of the list.
abbrev pub blank : Pixel
blank = record { r = 0; g = 0; b = 0; a = 0 }

abbrev pub pixel : List Pixel → ℕ → Pixel
pixel pixels p = get_or pixels p blank

abbrev pub marked : List Bool → ℕ → Bool
marked has p = get_or has p false

-- The numbers below n, from 0 on.
unfoldable pub count_up : ℕ → ℕ → List ℕ
count_up zero from = []
count_up (suc n) from = from ∷ count_up n (suc from)

-- `has`, before the first pass.
unfoldable pub marks : List Pixel → List ℕ → List Bool
marks pixels [] = []
marks pixels (p ∷ ps) = ltb 0 (pixel pixels p).a ∷ marks pixels ps

module _ (has : List Bool) (w h : ℕ) where
  -- The neighbour that a pixel takes its colour from.
  unfoldable pub source_of : ℕ → ℕ → Option ℕ
  source_of x y =
      let p = y * w + x in
      if marked has p
      then none
      else if ltb 0 x && marked has (p - 1)
      then some (p - 1)
      else if ltb (x + 1) w && marked has (p + 1)
      then some (p + 1)
      else if ltb 0 y && marked has (p - w)
      then some (p - w)
      else if ltb (y + 1) h && marked has (p + w)
      then some (p + w)
      else none

  -- The inner and the outer loop.
  unfoldable pub filled_in_row : ℕ → List ℕ → List (ℕ × ℕ)
  filled_in_row y [] = []
  filled_in_row y (x ∷ xs) =
      let rest = filled_in_row y xs in
      with_value (source_of x y) (λ src. (y * w + x, src) ∷ rest) rest

  unfoldable pub filled_in_rows : List ℕ → List (ℕ × ℕ)
  filled_in_rows [] = []
  filled_in_rows (y ∷ ys) = filled_in_row y (count_up w 0) ++ filled_in_rows ys

  unfoldable pub filled : List (ℕ × ℕ)
  filled = filled_in_rows (count_up h 0)

-- The colour of one pixel with the opacity of another.
abbrev pub recolored : Pixel → Pixel → Pixel
recolored p src = record { r = src.r; g = src.g; b = src.b; a = p.a }

unfoldable pub fill_pixels : List (ℕ × ℕ) → List Pixel → List Pixel
fill_pixels [] pixels = pixels
fill_pixels ((p, src) ∷ ps) pixels =
    fill_pixels ps (set pixels p (recolored (pixel pixels p) (pixel pixels src)))

unfoldable pub fill_marks : List (ℕ × ℕ) → List Bool → List Bool
fill_marks [] has = has
fill_marks ((p, src) ∷ ps) has = fill_marks ps (set has p true)

unfoldable pub is_nil : List (ℕ × ℕ) → Bool
is_nil [] = true
is_nil (e ∷ es) = false

-- The passes end early when one of them fills nothing.
unfoldable pub bleed_passes : ℕ → ℕ → ℕ → List Pixel → List Bool → List Pixel
bleed_passes w h zero pixels has = pixels
bleed_passes w h (suc passes) pixels has =
    let next = filled has w h in
    let rest = bleed_passes w h passes (fill_pixels next pixels) (fill_marks next has) in
    if is_nil next then pixels else rest

unfoldable pub bleed_edges : Image → ℕ → Image
bleed_edges image passes = record image {
  pixels =
      bleed_passes image.width image.height passes image.pixels
        (marks image.pixels (count_up (image.width * image.height) 0));
}
