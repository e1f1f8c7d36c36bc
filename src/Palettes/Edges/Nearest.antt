-- ===== src/Palettes/Edges/Nearest.antt =====
-- What the bleeding of the edges makes of an image (bleedEdges of assets/js/radar_palettes.js).
use voria.Prelude.{
  false-true, ℕ, zero, suc, ◌+◌, ◌*◌, ◌<◌, ◌≡◌, refl, ◌∙◌, ap, sym, subst, ◌⊎◌, inl, inr, Bool,
  true, false, List, [], ◌∷◌, arith, ltb, ltb→lt, lt→ltb, if_cases, length, Bool-cases,
}
use voria.Palettes.Edges.{
  Pixel, Image, pixel, marked, filled, fill_pixels, fill_marks, marks, count_up, is_nil,
  bleed_passes, bleed_edges,
}
use voria.Palettes.Edges.Grid.{Inside, index, index-lt, distance, order}
use voria.Palettes.Edges.Spread.{at, IsOpaque, Nearest, Spread}
use voria.Palettes.Edges.Step.{Spread-pass}

is_nil-eq : (es : List (ℕ × ℕ)) → is_nil es ≡ true → es ≡ []
unfolding is_nil
is_nil-eq [] h = refl
is_nil-eq (e ∷ es) h = cc

length-marks : (pixels : List Pixel) (n from : ℕ) → length (marks pixels (count_up n from)) ≡ n
unfolding marks count_up
length-marks pixels zero from = refl
length-marks pixels (suc n) from = ap suc (length-marks pixels n (suc from))

marked-marks :
    (pixels : List Pixel) (n from i : ℕ)
    → i < n
    → marked (marks pixels (count_up n from)) i ≡ ltb 0 (pixel pixels (from + i)).a
unfolding marks count_up
marked-marks pixels zero from i h = elim h [ ]
marked-marks pixels (suc n) from zero h = ap (λ (p : ℕ). ltb 0 (pixel pixels p).a) (omega arith)
marked-marks pixels (suc n) from (suc i) h =
    marked-marks pixels n (suc from) i (omega arith)
    ∙ ap (λ (p : ℕ). ltb 0 (pixel pixels p).a) (omega arith)

module _ (w h : ℕ) (orig : List Pixel) (l : length orig ≡ w * h) where
  abbrev first_marks : List Bool
  first_marks = marks orig (count_up (w * h) 0)

  marked-first :
      (x y : ℕ) → Inside w h x y → marked first_marks (index w x y) ≡ ltb 0 (at w h orig x y).a
  marked-first x y i =
      marked-marks orig (w * h) 0 (index w x y) (index-lt w h x y i)
      ∙ ap (λ (p : ℕ). ltb 0 (pixel orig p).a) (omega arith)

  distance_pos :
      (x y x' y' : ℕ)
      → Inside w h x y
      → marked first_marks (index w x y) ≡ false
      → IsOpaque w h orig x' y'
      → 0 < distance x y x' y'
  distance_pos x y x' y' i m o = elim (order 0 (distance x y x' y')) [
    | inl lt ↦ lt
    | inr (inl gt) ↦ absurd (omega arith)
    | inr (inr zero_steps) ↦
        let column : x' ≡ x = omega arith in
        let row : y' ≡ y = omega arith in
        let pos : 0 < (at w h orig x y).a = rw (column, row) at o.1 in
        absurd (false-true (sym m ∙ marked-first x y i ∙ lt→ltb 0 _ pos))
  ]

  -- Before the first pass the marked pixels are the opaque ones.
  Spread-first : Spread w h orig 0 orig first_marks
  Spread-first = record {
    length_pixels = l;
    length_has = length-marks orig (w * h) 0;
    opacity = λ x y i. refl;
    marked_near = λ x y i m.
        let pos = ltb→lt 0 _ (sym (marked-first x y i) ∙ m) in
        record {
          ox = x;
          oy = y;
          opaque = (i, pos);
          within = omega arith;
          nearest = λ x' y' o. omega arith;
          colour = (refl, refl, refl);
        };
    unmarked_far = λ x y i m. (λ x' y' o. distance_pos x y x' y' i m o, refl);
    opaque_kept = λ x y o. (marked-first x y o.0 ∙ lt→ltb 0 _ o.1, refl);
  }

  -- A pass that fills nothing shows that no pixel is left within reach.
  Spread-idle :
      (k : ℕ) (pixels : List Pixel) (has : List Bool)
      → filled has w h ≡ []
      → Spread w h orig k pixels has
      → Spread w h orig (suc k) pixels has
  unfolding fill_pixels fill_marks
  Spread-idle k pixels has e s =
      subst (λ es. Spread w h orig (suc k) (fill_pixels es pixels) (fill_marks es has)) e
        (Spread-pass w h orig k pixels has s)

  Spread-idle_many :
      (n k : ℕ) (pixels : List Pixel) (has : List Bool)
      → filled has w h ≡ []
      → Spread w h orig k pixels has
      → Spread w h orig (n + k) pixels has
  Spread-idle_many zero k pixels has e s = subst (λ j. Spread w h orig j pixels has) (omega arith) s
  Spread-idle_many (suc n) k pixels has e s =
      subst (λ j. Spread w h orig j pixels has) (omega arith)
        (Spread-idle_many n (suc k) pixels has e (Spread-idle k pixels has e s))

  abbrev SpreadPixels : ℕ → List Pixel → Type 0
  SpreadPixels k pixels = (has : List Bool) × Spread w h orig k pixels has

  SpreadPixels-bleed_passes :
      (n k : ℕ) (pixels : List Pixel) (has : List Bool)
      → Spread w h orig k pixels has
      → SpreadPixels (n + k) (bleed_passes w h n pixels has)
  unfolding bleed_passes
  SpreadPixels-bleed_passes zero k pixels has s =
      (has, subst (λ j. Spread w h orig j pixels has) (omega arith) s)
  SpreadPixels-bleed_passes (suc n) k pixels has s =
      if_cases (SpreadPixels (suc n + k)) (is_nil (filled has w h))
        (λ done. (has, Spread-idle_many (suc n) k pixels has (is_nil-eq (filled has w h) done) s))
        (λ more.
          subst
            (λ j. SpreadPixels j (
              bleed_passes w h n (fill_pixels (filled has w h) pixels)
                (fill_marks (filled has w h) has)))
            (omega arith)
            (SpreadPixels-bleed_passes n (suc k) _ _ (Spread-pass w h orig k pixels has s)))

-- A pixel after the bleeding: it has its opacity, an opaque pixel is as before, and it has the colour
-- of the nearest opaque pixel within the passes, or it is as before and there is none.
abbrev pub IsBled : Image → ℕ → ℕ → ℕ → Pixel → Type 0
IsBled image passes x y p =
    (p.a ≡ (at image.width image.height image.pixels x y).a)
    × (IsOpaque image.width image.height image.pixels x y
        → p ≡ at image.width image.height image.pixels x y)
    × (Nearest image.width image.height image.pixels passes x y p
        ⊎ ((x' y' : ℕ)
            → IsOpaque image.width image.height image.pixels x' y'
            → passes < distance x y x' y')
          × (p ≡ at image.width image.height image.pixels x y))

Spread-IsBled :
    (image : Image) (passes x y : ℕ)
    → Inside image.width image.height x y
    → (pixels : List Pixel) (has : List Bool)
    → Spread image.width image.height image.pixels passes pixels has
    → IsBled image passes x y (pixel pixels (index image.width x y))
Spread-IsBled image passes x y i pixels has s = (
  s.opacity x y i,
  λ o. (s.opaque_kept x y o).1,
  elim (Bool-cases (marked has (index image.width x y))) [
    | inl m ↦ inl (s.marked_near x y i m)
    | inr m ↦ inr (s.unmarked_far x y i m)
  ],
)

-- Each pixel of an image with a pixel for each place keeps its opacity, and the opaque ones keep their
-- colour. A transparent one with an opaque one at most as many steps away, along rows and columns, as
-- there are passes gets the colour of a nearest one; any other stays as it is.
pub bleed_edges-IsBled :
    (image : Image) (passes x y : ℕ)
    → length image.pixels ≡ image.width * image.height
    → Inside image.width image.height x y
    → IsBled image passes x y (pixel (bleed_edges image passes).pixels (index image.width x y))
unfolding bleed_edges
bleed_edges-IsBled image passes x y l i =
    let first = Spread-first image.width image.height image.pixels l in
    let (has, s) =
      SpreadPixels-bleed_passes image.width image.height image.pixels l passes 0 image.pixels _
        first in
    let result = (bleed_edges image passes).pixels in
    Spread-IsBled image passes x y i result has
      (subst (λ j. Spread image.width image.height image.pixels j result has) (omega arith) s)
