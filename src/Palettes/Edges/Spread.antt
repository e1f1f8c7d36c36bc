-- ===== src/Palettes/Edges/Spread.antt =====
-- How far the colours have spread after some passes.
use voria.Prelude.{
  ℕ, ◌*◌, ◌≤◌, ◌<◌, ◌≡◌, refl, ◌∙◌, ap, Bool, true, false, none, some, List, length,
}
use voria.Palettes.Edges.{
  Pixel, pixel, marked, recolored, source_of, filled, fill_pixels, fill_marks,
}
use voria.Palettes.Edges.Grid.{Inside, index, distance}
use voria.Palettes.Edges.Pass.{source, source-index, AllFrom-filled, fills-filled}
use voria.Palettes.Edges.Source.{source_of-Neighbour, source_of-marked}
use voria.Palettes.Edges.Fill.{pixel-fill_kept, pixel-fill, marked-fill, fills-unsourced}

module _ (has : List Bool) (w h : ℕ) (pixels : List Pixel) (l : length pixels ≡ w * h)
    (m : length has ≡ w * h) where
  abbrev pub next : List (ℕ × ℕ)
  next = filled has w h

  -- A place that the pass leaves alone: it has a colour, or none of its neighbours has one.
  pub left_alone :
      (x y : ℕ)
      → Inside w h x y
      → source_of has w h x y ≡ none
      → (pixel (fill_pixels next pixels) (index w x y) ≡ pixel pixels (index w x y))
        × (marked (fill_marks next has) (index w x y) ≡ marked has (index w x y))
  left_alone x y i e =
      let n = source-index has w h x y i.0 ∙ e in
      let all = AllFrom-filled has w h in
      (
        pixel-fill_kept has w h next pixels (index w x y) all l n,
        marked-fill has w h next has (index w x y) all m
            ∙ rw (fills-unsourced has w h next (index w x y) all n) refl,
      )

  -- A place that the pass colours.
  pub coloured :
      (x y s : ℕ)
      → Inside w h x y
      → source_of has w h x y ≡ some s
      → (pixel (fill_pixels next pixels) (index w x y)
          ≡ recolored (pixel pixels (index w x y)) (pixel pixels s))
        × (marked (fill_marks next has) (index w x y) ≡ true)
  coloured x y s i e =
      let n = source-index has w h x y i.0 ∙ e in
      let all = AllFrom-filled has w h in
      let near = (source_of-Neighbour has w h x y s i e).1 in
      let last : source has w h s ≡ none =
        ap (source has w h) near.is_at
        ∙ source-index has w h near.nx near.ny near.inside.0
        ∙ source_of-marked has w h near.nx near.ny near.has_colour in
      let among = fills-filled has w h x y s i e in
      (
        pixel-fill has w h next pixels (index w x y) s all l n last ∙ rw among refl,
        marked-fill has w h next has (index w x y) all m ∙ rw among refl,
      )

module _ (w h : ℕ) (orig : List Pixel) where
  abbrev pub at : ℕ → ℕ → Pixel
  at x y = pixel orig (index w x y)

  abbrev pub IsOpaque : ℕ → ℕ → Type 0
  IsOpaque x y = Inside w h x y × (0 < (at x y).a)

  abbrev pub SameColour : Pixel → Pixel → Type 0
  SameColour p q = (p.r ≡ q.r) × (p.g ≡ q.g) × (p.b ≡ q.b)

  -- The nearest opaque pixel, whose colour a pixel has.
  pub record Nearest (k x y : ℕ) (p : Pixel) : Type 0 where
    pub ox : ℕ
    pub oy : ℕ
    pub opaque : IsOpaque ox oy
    pub within : distance x y ox oy ≤ k
    pub nearest : (x' y' : ℕ) → IsOpaque x' y' → distance x y ox oy ≤ distance x y x' y'
    pub colour : SameColour p (at ox oy)

  -- After k passes: a pixel is marked if an opaque one is within k steps, and has the colour of the
  -- nearest; no pixel loses its opacity, and the opaque ones and the others stay as they are.
  pub record Spread (k : ℕ) (pixels : List Pixel) (has : List Bool) : Type 0 where
    pub length_pixels : length pixels ≡ w * h
    pub length_has : length has ≡ w * h
    pub opacity : (x y : ℕ) → Inside w h x y → (pixel pixels (index w x y)).a ≡ (at x y).a
    pub marked_near :
        (x y : ℕ)
        → Inside w h x y
        → marked has (index w x y) ≡ true
        → Nearest k x y (pixel pixels (index w x y))
    pub unmarked_far :
        (x y : ℕ)
        → Inside w h x y
        → marked has (index w x y) ≡ false
        → ((x' y' : ℕ) → IsOpaque x' y' → k < distance x y x' y')
          × (pixel pixels (index w x y) ≡ at x y)
    pub opaque_kept :
        (x y : ℕ)
        → IsOpaque x y
        → (marked has (index w x y) ≡ true) × (pixel pixels (index w x y) ≡ at x y)
