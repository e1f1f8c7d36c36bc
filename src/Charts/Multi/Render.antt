-- ===== src/Charts/Multi/Render.antt =====
-- The drawing of the comparison chart (render of MultiLineChart in assets/js/hooks/d3_charts.js).
pub mod Messages
use voria.Prelude.{
  ℕ, zero, suc, ◌+◌, ◌==◌, Bool, Option, none, some, List, [], ◌∷◌, ◌++◌, map, length,
  if◌then◌else◌,
}
use voria.Prelude.Int.{ℤ, ◌*ℤ◌}
use voria.Prelude.Text.{Text}
use voria.Charts.Segments.{Point}
use voria.Charts.Theme.{theme_colors}
use voria.Charts.Layout.{chart_size, inner_w, inner_h, y_domain, tick_count}
use voria.Charts.Multi.{Series, MultiLineChart}
use voria.Charts.Scene.{
  Element, grid, path, x_axis, y_axis, axis_strokes, D3, x_scale, placed, pointer_parts,
}
use voria.Charts.Render.{Screen, plain, Canvas, add_message, add_drawing, replace_tooltip}

-- The points of all series, one after the other.
unfoldable pub all_data : List (Series ℤ) → List (Point ℤ)
all_data [] = []
all_data (s ∷ ss) = s.data_ ++ all_data ss

module _ (d3 : D3) (s : Screen) where
  unfoldable pub multi_scene : MultiLineChart ℤ → ℤ → ℤ → List Element
  multi_scene chart w h =
      let c = theme_colors s.dark in
      let points = all_data chart.series in
      let x = x_scale d3 chart.from chart.to points w in
      let domain = y_domain d3.one d3.extent points in
      let y = λ (v : ℤ). d3.linear domain h (v *ℤ 10) in
      grid w c.grid
        ∷ map (λ (one : Series ℤ). path one.color 15 (placed x y one.data_)) chart.series
      ++ (x_axis h (tick_count w) c.axis
          ∷ axis_strokes c.grid
          ∷ y_axis 5 chart.unit c.axis
          ∷ pointer_parts c w h)

  -- Without series, the drawing and the tooltip go; without points, a message is put behind what is left.
  unfoldable pub render_multi : MultiLineChart ℤ → Canvas → Canvas
  unfolding add_message add_drawing replace_tooltip
  render_multi chart k =
      let size = chart_size s.size in
      let cleared = record k { drawings = []; tooltips = [] } in
      if length chart.series == 0
      then cleared
      else if length (all_data chart.series) == 0
      then add_message cleared
      else replace_tooltip (
          add_drawing
            (plain size.width size.height
              (multi_scene chart (inner_w size.width) (inner_h size.height)))
            (record k { messages = 0; drawings = [] }))

  -- The element's size is reported this often.
  abbrev pub resized_times : ℕ → MultiLineChart ℤ → Canvas → Canvas
  resized_times zero chart k = k
  resized_times (suc n) chart k = resized_times n chart (render_multi chart k)
