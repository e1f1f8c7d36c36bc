-- ===== src/Palettes/Colorize.antt =====
-- The colouring of a tile (colorizeData and colorizeBitmap of assets/js/radar_palettes.js).
pub mod Visible
use voria.Prelude.{
  ℕ, Bool, true, false, not, ◌&&◌, ◌||◌, List, [], ◌∷◌, map, Option, none, some, ltb, leb, min,
  if◌then◌else◌, with_value,
}
use voria.Prelude.Int.{ℤ, pos, pos_part}
use voria.Prelude.Text.{Text}
use voria.Palettes.Edges.{Pixel, Image, bleed_edges}
use voria.Palettes.Numbers.{Number, Rgb, whole, clamp}
use voria.Palettes.Tables.{Palette, palette_for}

-- What an array of bytes keeps of a whole number.
unfoldable pub to_byte : ℤ → ℕ
to_byte n = min (pos_part n) 255

module _ {R : Type 0} ⦃num : Number R⦄ where
  abbrev pub value01 : Pixel → R
  value01 p = num.over (whole p.r) (whole 255)

  -- The three guards of the loop.
  unfoldable pub is_no_data : Palette R → Pixel → Bool
  is_no_data palette p =
      ltb p.a 1
      || (num.lt (whole 0) palette.no_data_cut && num.le (value01 p) palette.no_data_cut)
      || with_value palette.no_data_fill (λ (lo, hi). leb lo p.r && leb p.r hi) false

  channel : R → ℕ
  channel x = to_byte (num.rounded (num.times x (whole 255)))

  unfoldable pub painted : Palette R → Pixel → Pixel
  unfolding channel
  painted palette p =
      let span = num.minus palette.src_max palette.src_min in
      let (colour, alpha) =
        palette.sample (num.plus palette.src_min (num.times (value01 p) span)) in
      record {
        r = channel colour.red;
        g = channel colour.green;
        b = channel colour.blue;
        a = channel (clamp alpha (whole 0) (whole 1));
      }

  -- One round of the loop.
  unfoldable pub colorize_pixel : Palette R → Pixel → Pixel
  colorize_pixel palette p = if is_no_data palette p then record p { a = 0 } else painted palette p

module _ (R : Type 0) ⦃num : Number R⦄ where
  unfoldable pub colorize_data : Text → Image → Image
  colorize_data id image = record image {
    pixels = map (colorize_pixel (palette_for {R = R} id)) image.pixels;
  }

  -- The pixels that are put back on the canvas.
  unfoldable pub colorize_bitmap : Text → Image → Image
  colorize_bitmap id image = bleed_edges (colorize_data id image) 3
