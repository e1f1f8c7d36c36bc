-- ===== src/Palettes/Colorize/Visible.antt =====
-- What is seen of a tile (colorizeBitmap of assets/js/radar_palettes.js).
use voria.Prelude.{
  false-true, ℕ, zero, suc, ◌*◌, ◌<◌, ◌≡◌, refl, ◌∙◌, sym, ap, subst, Bool, true, false, List, [],
  ◌∷◌, map, arith, length, length-map, if◌then◌else◌,
}
use voria.Prelude.Text.{Text}
use voria.Palettes.Edges.{Pixel, Image, pixel}
use voria.Palettes.Edges.Grid.{Inside, index, index-lt}
use voria.Palettes.Edges.Nearest.{bleed_edges-IsBled}
use voria.Palettes.Numbers.{Number}
use voria.Palettes.Tables.{Palette, palette_for}
use voria.Palettes.Colorize.{is_no_data, painted, colorize_pixel, colorize_data, colorize_bitmap}

pixel-map :
    (f : Pixel → Pixel) (ps : List Pixel) (i : ℕ)
    → i < length ps
    → pixel (map f ps) i ≡ f (pixel ps i)
pixel-map f [] i h = elim h [ ]
pixel-map f (p ∷ ps) zero h = refl
pixel-map f (p ∷ ps) (suc i) h = pixel-map f ps i (omega arith)

-- A pixel without data cannot be seen, and one that can be seen has data and their colour.
abbrev pub ShowsData : {R : Type 0} ⦃num : Number R⦄ → Palette R → Pixel → Pixel → Type 0
ShowsData palette q p =
    (is_no_data palette q ≡ true → p.a ≡ 0)
    × (0 < p.a → (is_no_data palette q ≡ false) × (p ≡ painted palette q))

shown_by :
    (b : Bool) (q c p : Pixel)
    → p.a ≡ (if b then record q { a = 0 } else c).a
    → (0 < (if b then record q { a = 0 } else c).a → p ≡ (if b then record q { a = 0 } else c))
    → (b ≡ true → p.a ≡ 0) × (0 < p.a → (b ≡ false) × (p ≡ c))
shown_by true q c p a opaque = (λ _. a, λ h. absurd (omega (arith, a, h)))
shown_by false q c p a opaque = (λ e. absurd (false-true e), λ h. (refl, opaque (subst (0 <◌) a h)))

module _ (R : Type 0) ⦃num : Number R⦄ where
  ShowsData-colorize_pixel :
      (palette : Palette R) (q p : Pixel)
      → p.a ≡ (colorize_pixel palette q).a
      → (0 < (colorize_pixel palette q).a → p ≡ colorize_pixel palette q)
      → ShowsData palette q p
  unfolding colorize_pixel
  ShowsData-colorize_pixel palette q p a opaque =
      shown_by (is_no_data palette q) q (painted palette q) p a opaque

  -- The tile shows its data and nothing else: a place without data cannot be seen, and a place that can
  -- be seen has data and the colour of the palette for them. The bleeding of the edges, which comes
  -- last, changes nothing that is seen.
  pub colorize_bitmap-ShowsData :
      (id : Text) (image : Image) (x y : ℕ)
      → length image.pixels ≡ image.width * image.height
      → Inside image.width image.height x y
      → ShowsData
          (palette_for {R = R} id)
          (pixel image.pixels (index image.width x y))
          (pixel (colorize_bitmap R id image).pixels (index image.width x y))
  unfolding colorize_bitmap colorize_data
  colorize_bitmap-ShowsData id image x y l i =
      let palette = palette_for {R = R} id in
      let q = index image.width x y in
      let lt : q < length image.pixels = rw l (index-lt image.width image.height x y i) in
      let seen = pixel-map (colorize_pixel palette) image.pixels q lt in
      let (a, opaque, _) =
        bleed_edges-IsBled (colorize_data R id image) 3 x y
          (length-map image.pixels (colorize_pixel palette) ∙ l) i in
      ShowsData-colorize_pixel palette (pixel image.pixels q)
        (pixel (colorize_bitmap R id image).pixels q) (a ∙ ap (λ (p : Pixel). p.a) seen)
        (λ h. opaque (i, subst (λ (p : Pixel). 0 < p.a) (sym seen) h) ∙ seen)
