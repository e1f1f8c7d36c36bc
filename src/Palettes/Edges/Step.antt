-- ===== src/Palettes/Edges/Step.antt =====
-- One more pass spreads the colours one step further.
use voria.Prelude.{
  false-true, ℕ, suc, ◌≤◌, ◌<◌, ◌≡◌, ◌∙◌, sym, ap, inl, inr, Bool, true, false, none, some, List,
  arith, Option-cases,
}
use voria.Palettes.Edges.{
  Pixel, pixel, marked, recolored, source_of, filled, fill_pixels, fill_marks,
}
use voria.Palettes.Edges.Grid.{Inside, index, distance, toward}
use voria.Palettes.Edges.Source.{source_of-Neighbour, source_of-none, source_of-marked}
use voria.Palettes.Edges.Fill.{length-fill_pixels, length-fill_marks}
use voria.Palettes.Edges.Spread.{left_alone, coloured, at, IsOpaque, Nearest, Spread}

module _ (w h : ℕ) (orig : List Pixel) (k : ℕ) (pixels : List Pixel) (has : List Bool)
    (s : Spread w h orig k pixels has) where
  abbrev next : List (ℕ × ℕ)
  next = filled has w h

  alone :
      (x y : ℕ)
      → Inside w h x y
      → source_of has w h x y ≡ none
      → (pixel (fill_pixels next pixels) (index w x y) ≡ pixel pixels (index w x y))
        × (marked (fill_marks next has) (index w x y) ≡ marked has (index w x y))
  alone = left_alone has w h pixels s.length_pixels s.length_has

  filled_at :
      (x y src : ℕ)
      → Inside w h x y
      → source_of has w h x y ≡ some src
      → (pixel (fill_pixels next pixels) (index w x y)
          ≡ recolored (pixel pixels (index w x y)) (pixel pixels src))
        × (marked (fill_marks next has) (index w x y) ≡ true)
  filled_at = coloured has w h pixels s.length_pixels s.length_has

  opacity-pass :
      (x y : ℕ)
      → Inside w h x y
      → (pixel (fill_pixels next pixels) (index w x y)).a ≡ (at w h orig x y).a
  opacity-pass x y i = elim (Option-cases (source_of has w h x y)) [
    | inl e ↦ ap (λ (p : Pixel). p.a) (alone x y i e).0 ∙ s.opacity x y i
    | inr (src, e) ↦ ap (λ (p : Pixel). p.a) (filled_at x y src i e).0 ∙ s.opacity x y i
  ]

  -- A pixel that is filled has the nearest opaque pixel of its source.
  Nearest-filled :
      (x y src : ℕ)
      → Inside w h x y
      → source_of has w h x y ≡ some src
      → Nearest w h orig (suc k) x y (pixel (fill_pixels next pixels) (index w x y))
  Nearest-filled x y src i e =
      let (unmarked, near) = source_of-Neighbour has w h x y src i e in
      let n = s.marked_near near.nx near.ny near.inside near.has_colour in
      let far = (s.unmarked_far x y i unmarked).0 in
      let within : distance x y n.ox n.oy ≤ suc k = omega (arith, near.adjacent, n.within) in
      record {
        ox = n.ox;
        oy = n.oy;
        opaque = n.opaque;
        within = within;
        nearest = λ x' y' o. omega (arith, far x' y' o, within);
        colour = rw ((filled_at x y src i e).0, near.is_at) n.colour;
      }

  Nearest-pass :
      (x y : ℕ)
      → Inside w h x y
      → marked (fill_marks next has) (index w x y) ≡ true
      → Nearest w h orig (suc k) x y (pixel (fill_pixels next pixels) (index w x y))
  Nearest-pass x y i m = elim (Option-cases (source_of has w h x y)) [
    | inl e ↦
        let (same, mark) = alone x y i e in
        let n = s.marked_near x y i (sym mark ∙ m) in
        record {
          ox = n.ox;
          oy = n.oy;
          opaque = n.opaque;
          within = omega (arith, n.within);
          nearest = n.nearest;
          colour = rw same n.colour;
        }
    | inr (src, e) ↦ Nearest-filled x y src i e
  ]

  far-pass :
      (x y : ℕ)
      → Inside w h x y
      → source_of has w h x y ≡ none
      → marked has (index w x y) ≡ false
      → (x' y' : ℕ) → IsOpaque w h orig x' y'
      → suc k < distance x y x' y'
  far-pass x y i e m x' y' o =
      let before = (s.unmarked_far x y i m).0 x' y' o in
      let t = toward w h x y x' y' i o.0 (omega (arith, before)) in
      let unmarked = source_of-none has w h x y t.nx t.ny i t.inside e m t.adjacent in
      let beyond = (s.unmarked_far t.nx t.ny t.inside unmarked).0 x' y' o in
      omega (arith, beyond, t.nearer)

  unmarked-pass :
      (x y : ℕ)
      → Inside w h x y
      → marked (fill_marks next has) (index w x y) ≡ false
      → ((x' y' : ℕ) → IsOpaque w h orig x' y' → suc k < distance x y x' y')
        × (pixel (fill_pixels next pixels) (index w x y) ≡ at w h orig x y)
  unmarked-pass x y i m = elim (Option-cases (source_of has w h x y)) [
    | inl e ↦
        let (same, mark) = alone x y i e in
        let unmarked = sym mark ∙ m in
        (far-pass x y i e unmarked, same ∙ (s.unmarked_far x y i unmarked).1)
    | inr (src, e) ↦ absurd (false-true (sym m ∙ (filled_at x y src i e).1))
  ]

  -- One pass more, one step further.
  pub Spread-pass : Spread w h orig (suc k) (fill_pixels next pixels) (fill_marks next has)
  Spread-pass = record {
    length_pixels = length-fill_pixels next pixels ∙ s.length_pixels;
    length_has = length-fill_marks next has ∙ s.length_has;
    opacity = opacity-pass;
    marked_near = Nearest-pass;
    unmarked_far = unmarked-pass;
    opaque_kept = λ x y o.
        let (mark, same) = s.opaque_kept x y o in
        let (same', mark') = alone x y o.0 (source_of-marked has w h x y mark) in
        (mark' ∙ mark, same' ∙ same);
  }
