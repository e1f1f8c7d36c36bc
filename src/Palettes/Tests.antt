-- ===== src/Palettes/Tests.antt =====
-- The theorems on the palettes at concrete inputs. The numbers are thousandths, rounded down, and the
-- power is left out.
use voria.Prelude.{◌+◌, ◌*◌, ◌≡◌, refl, ◌⊎◌, true, false, [], ◌∷◌, arith}
use voria.Prelude.Int.{
  ℤ, pos, negsuc, pos_part, neg_part, sub_ℕ, ◌+ℤ◌, ◌-ℤ◌, ◌*ℤ◌, floor_div, round_div, leb_ℤ, ltb_ℤ,
}
use voria.Prelude.Text.{codes}
use voria.Palettes.Edges.{
  Image, pixel, bleed_edges, bleed_passes, is_nil, filled, filled_in_rows, count_up, filled_in_row,
  source_of, marks, fill_pixels,
}
use voria.Palettes.Edges.Grid.{index}
use voria.Palettes.Edges.Nearest.{IsBled, bleed_edges-IsBled}
use voria.Palettes.Numbers.{Number, IsTotal, last_stop, segment_sampler}
use voria.Palettes.Numbers.Sampler.{Between, segment_sampler-Between}
use voria.Palettes.Tables.{first_cum, more_cum, palette_for}
use voria.Palettes.Colorize.{colorize_bitmap}
use voria.Palettes.Colorize.Visible.{ShowsData, colorize_bitmap-ShowsData}

abbrev product : ℤ → ℤ → ℤ
product a b =
    sub_ℕ (pos_part a * pos_part b + neg_part a * neg_part b)
      (pos_part a * neg_part b + neg_part a * pos_part b)

abbrev quotient : ℤ → ℤ → ℤ
quotient a (pos n) = floor_div (a *ℤ 1000) n
quotient a (negsuc n) = floor_div (sub_ℕ 0 0 -ℤ a *ℤ 1000) (n + 1)

instance abbrev thousandths : Number ℤ
thousandths = record {
  lit = λ n d. floor_div (n *ℤ 1000) d;
  plus = λ a b. a +ℤ b;
  minus = λ a b. a -ℤ b;
  times = λ a b. floor_div (product a b) 1000;
  over = quotient;
  power = λ a b. a;
  le = leb_ℤ;
  lt = ltb_ℤ;
  rounded = λ a. round_div a 1000;
}

thousandths-total : (x y : ℤ) → leb_ℤ x y ≡ false → leb_ℤ y x ≡ true
thousandths-total x y h = ground arith

instance abbrev thousandths-IsTotal : IsTotal ℤ
thousandths-IsTotal = record { total = thousandths-total }

-- Three pixels in a row, the first of them opaque.
abbrev row : Image
row = record {
  pixels =
      record { r = 200; g = 200; b = 200; a = 255 }
      ∷ record { r = 0; g = 0; b = 0; a = 0 }
      ∷ record { r = 0; g = 0; b = 0; a = 0 }
      ∷ [];
  width = 3;
  height = 1;
}

bleed_edges-IsBled_example : IsBled row 1 1 0 (pixel (bleed_edges row 1).pixels (index 3 1 0))
bleed_edges-IsBled_example = bleed_edges-IsBled row 1 1 0 refl (omega arith)

one_step : bleed_edges row 1 ≡ record row {
  pixels =
      record { r = 200; g = 200; b = 200; a = 255 }
      ∷ record { r = 200; g = 200; b = 200; a = 0 }
      ∷ record { r = 0; g = 0; b = 0; a = 0 }
      ∷ [];
}
unfolding bleed_edges bleed_passes is_nil filled filled_in_rows count_up filled_in_row source_of
    marks fill_pixels
one_step = refl

colorize_bitmap-ShowsData_example :
    ShowsData {R = ℤ}
      (palette_for (codes "SRI"))
      (pixel row.pixels (index 3 1 0))
      (pixel (colorize_bitmap ℤ (codes "SRI") row).pixels (index 3 1 0))
colorize_bitmap-ShowsData_example =
    colorize_bitmap-ShowsData ℤ (codes "SRI") row 1 0 refl (omega arith)

segment_sampler-Between_example :
    ((leb_ℤ (pos 15000) first_cum.value ≡ true)
      × (segment_sampler first_cum more_cum (pos 15000) ≡ (first_cum.colour, first_cum.alpha)))
    ⊎ (((leb_ℤ (last_stop first_cum more_cum).value (pos 15000) ≡ true)
          × (segment_sampler first_cum more_cum (pos 15000)
              ≡ ((last_stop first_cum more_cum).colour, (last_stop first_cum more_cum).alpha)))
        ⊎ Between
            (first_cum ∷ more_cum)
            (pos 15000)
            (segment_sampler first_cum more_cum (pos 15000)))
segment_sampler-Between_example = segment_sampler-Between first_cum more_cum (pos 15000)
