-- ===== src/Palettes/Legend.antt =====
-- The drawing of a palette's legend (legendDataUrl of assets/js/radar_palettes.js), as the calls of the
-- canvas with the style that each is made in. How a number is written is a parameter.
use voria.Prelude.{ℕ, ◌+◌, ◌-◌, ◌*◌, Bool, List, [], ◌∷◌, ◌++◌, map, if◌then◌else◌}
use voria.Prelude.Int.{ℤ, pos, ◌+ℤ◌, ◌-ℤ◌, round_div}
use voria.Prelude.Text.{Text, codes}
use voria.Palettes.Edges.{count_up}
use voria.Palettes.Numbers.{Number, whole, clamp, mix}
use voria.Palettes.Tables.{Palette, palette_for}

-- A named colour, or an `rgba(…)` with whole channels and an opacity.
pub data Paint (R : Type 0) : Type 0 where
  named : Text → Paint R
  rgba : (red green blue : ℤ) (alpha : R) → Paint R

-- The coordinates of a frame and of a text are doubled.
pub data Draw (R : Type 0) : Type 0 where
  fill_rect : Paint R → (x : ℕ) (y : ℤ) (width height : ℕ) → Draw R
  stroke_rect : Paint R → (twice_x twice_y twice_width twice_height : ℕ) → Draw R
  fill_text : (align text : Text) (twice_x : ℕ) (twice_y : ℤ) → Draw R

abbrev bar_w : ℕ
bar_w = 26

abbrev label_w : ℕ
label_w = 46

abbrev legend_h : ℕ
legend_h = 360

abbrev tick_marks : ℕ
tick_marks = 5

abbrev ink : {R : Type 0} → Paint R
ink = named (codes "rgba(0,0,0,0.75)")

module _ {R : Type 0} ⦃num : Number R⦄ where
  -- One round of the loop over the rows: the greatest value is at the top.
  unfoldable pub legend_row : Palette R → ℕ → Draw R
  legend_row p y =
      let v = mix p.src_max p.src_min (num.over (whole y) (whole (legend_h - 1))) in
      let (col, alpha) = p.sample v in
      fill_rect
        (rgba (num.rounded (num.times col.red (whole 255)))
          (num.rounded (num.times col.green (whole 255)))
          (num.rounded (num.times col.blue (whole 255))) (clamp alpha (whole 0) (whole 1)))
        0 (pos y) bar_w 1

  module _ (is_integer : R → Bool) (to_string to_fixed : R → Text) where
    -- One round of the loop over the marks: `to_fixed` writes one digit behind the point.
    unfoldable pub legend_mark : Palette R → ℕ → List (Draw R)
    legend_mark p i =
        let y = round_div (pos (i * (legend_h - 1))) (tick_marks - 1) in
        let v = mix p.src_max p.src_min (num.over (whole i) (whole (tick_marks - 1))) in
        let text = if is_integer v then to_string v else to_fixed v in
        fill_rect ink bar_w (y -ℤ pos 1) 4 2
        ∷ fill_text (codes "left") text ((bar_w + 7) * 2) (y +ℤ y)
        ∷ []

    legend_marks : Palette R → List ℕ → List (Draw R)
    legend_marks p [] = []
    legend_marks p (i ∷ is) = legend_mark p i ++ legend_marks p is

    -- The drawing on a canvas of `bar_w + label_w` by `legend_h` pixels.
    unfoldable pub legend_data : Palette R → List (Draw R)
    unfolding legend_marks
    legend_data p =
        fill_rect (named (codes "#ffffff")) 0 (pos 0) (bar_w + label_w) legend_h
          ∷ map (legend_row p) (count_up legend_h 0)
        ++ (stroke_rect (named (codes "rgba(0,0,0,0.55)")) 1 1 ((bar_w - 1) * 2)
                ((legend_h - 1) * 2)
              ∷ legend_marks p (count_up tick_marks 0)
            ++ fill_text (codes "center") p.unit bar_w (pos ((legend_h - 9 + 6) * 2)) ∷ [])

  -- The legend of a product.
  unfoldable pub legend_data_url :
      (is_integer : R → Bool) (to_string to_fixed : R → Text) → Text → List (Draw R)
  legend_data_url is_integer to_string to_fixed id =
      legend_data is_integer to_string to_fixed (palette_for id)
