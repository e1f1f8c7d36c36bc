-- ===== src/Charts/Render.antt =====
-- The drawing of the charts of one station (render of LineChart, WindChart and RainChart, and
-- _renderSpeedChart, in assets/js/hooks/d3_charts.js).
pub mod Area
pub mod Window
pub mod Shading
pub mod Inside
pub mod Bars
pub mod Gusts
use voria.Prelude.{
  ℕ, ◌+◌, ◌==◌, Bool, Option, none, some, List, [], ◌∷◌, ◌++◌, map, length, if◌then◌else◌,
  with_value,
}
use voria.Prelude.Int.{ℤ, pos, ◌-ℤ◌, ◌*ℤ◌}
use voria.Prelude.Text.{Text}
use voria.Charts.Segments.{Point, split_into_segments}
use voria.Charts.Theme.{Colors, theme_colors}
use voria.Charts.Data.{LineChart, WindChart, RainChart}
use voria.Charts.Pointer.{Wind, Hover, make_tooltip}
use voria.Charts.Layout.{
  Size, chart_size, inner_w, inner_h, WindLayout, wind_layout, y_domain, wind_top, rain_top,
  bar_width, tick_count,
}
use voria.Charts.Rose.{Share, Rose, render_rose}
use voria.Charts.Scene.{
  Element, grid, area, path, dot, bar, x_axis, y_axis, axis_strokes, legend, D3, x_scale, shading,
  placed, axes, pointer_parts,
}

-- What the page gives to render: the size of the chart's element, and whether it is dark.
pub record Screen : Type 0 where
  pub size : Size
  pub dark : Bool

-- `parsed.filter((d) => d.gust != null)`, each as the middle of a dot.
unfoldable pub gust_dots : (ℕ → ℤ) → (ℤ → ℤ) → Text → List (Point (Wind ℤ)) → List Element
gust_dots x y fill [] = []
gust_dots x y fill (p ∷ ps) =
    let rest = gust_dots x y fill ps in
    with_value p.v.gust (λ g. dot (x p.t) (y g) fill ∷ rest) rest

-- A bar for each point.
unfoldable pub rain_bars : (ℕ → ℤ) → (ℤ → ℤ) → ℤ → ℤ → Text → List (Point ℤ) → List Element
rain_bars x y h width fill [] = []
rain_bars x y h width fill (p ∷ ps) =
    bar (x p.t) (y p.v) width (h -ℤ y p.v) fill ∷ rain_bars x y h width fill ps

module _ (d3 : D3) (dark : Bool) where
  unfoldable pub line_scene : LineChart ℤ → ℤ → ℤ → List Element
  line_scene chart w h =
      let c = theme_colors dark in
      let x = x_scale d3 chart.from chart.to chart.data_ w in
      let domain = y_domain d3.one d3.extent chart.data_ in
      let y = λ (v : ℤ). d3.linear domain h (v *ℤ 10) in
      let segments = split_into_segments chart.data_ in
      grid w c.grid ∷ shading d3 c dark chart.from chart.to chart.data_ x h
      ++ (map (λ (seg : List (Point ℤ)). area c.area h (placed x y seg)) segments
          ++ (map (λ (seg : List (Point ℤ)). path c.line 15 (placed x y seg)) segments
              ++ (x_axis h (tick_count w) c.axis
                  ∷ axis_strokes c.grid
                  ∷ y_axis 5 chart.unit c.axis
                  ∷ pointer_parts c w h)))

  unfoldable pub speed_scene : WindChart (Wind ℤ) Share → ℤ → ℤ → List Element
  speed_scene chart w h =
      let c = theme_colors dark in
      let x = x_scale d3 chart.from chart.to chart.data_ w in
      let top = wind_top d3.one d3.greatest chart.data_ in
      let y = λ (v : ℤ). d3.linear (pos 0, top) h (v *ℤ 10) in
      grid w c.grid ∷ shading d3 c dark chart.from chart.to chart.data_ x h
      ++ (gust_dots x y c.gust chart.data_
          ++ (map
                (λ (seg : List (Point (Wind ℤ))).
                  path c.speed_line 15 (placed x (λ v. y v.speed) seg))
                (split_into_segments chart.data_)
              ++ (axes c w h chart.unit
                  ++ (legend (w -ℤ pos 100) c.speed_line c.gust c.axis ∷ pointer_parts c w h))))

  unfoldable pub rain_scene : RainChart ℤ → ℤ → ℤ → List Element
  rain_scene chart w h =
      let c = theme_colors dark in
      let x = x_scale d3 chart.from chart.to chart.data_ w in
      let top = rain_top d3.one d3.greatest chart.data_ in
      let y = λ (v : ℤ). d3.linear (pos 0, top) h (v *ℤ 100) in
      grid w c.grid ∷ shading d3 c dark chart.from chart.to chart.data_ x h
      ++ (rain_bars x y h (bar_width x chart.data_) c.rain chart.data_
          ++ (axes c w h chart.unit ++ pointer_parts c w h))

-- A drawing, by its width and height; the wind's two stand in a container.
pub data Drawing : Type 0 where
  plain : (width height : ℕ) → List Element → Drawing
  container : WindLayout → (speed : List Element) (rose : Rose) → Drawing

-- What the chart's element holds: drawings, tooltips, and how often "No data for this period".
pub record Canvas : Type 0 where
  pub drawings : List Drawing
  pub tooltips : List Hover
  pub messages : ℕ

abbrev pub empty_canvas : Canvas
empty_canvas = record { drawings = []; tooltips = []; messages = 0 }

-- The chart of one of the three hooks.
pub data Chart : Type 0 where
  line : LineChart ℤ → Chart
  wind : WindChart (Wind ℤ) Share → Chart
  rain : RainChart ℤ → Chart

-- `selectAll(…).remove()` and `append(…)`
unfoldable pub add_message : Canvas → Canvas
add_message k = record k { messages = k.messages + 1 }

unfoldable pub add_drawing : Drawing → Canvas → Canvas
add_drawing d k = record k { drawings = k.drawings ++ d ∷ [] }

unfoldable pub replace_tooltip : Canvas → Canvas
replace_tooltip k = record k { tooltips = make_tooltip ∷ [] }

module _ (d3 : D3) (s : Screen) where
  unfoldable pub render_line : LineChart ℤ → Canvas → Canvas
  unfolding add_message add_drawing replace_tooltip
  render_line chart k =
      let size = chart_size s.size in
      if length chart.data_ == 0
      then add_message (record k { drawings = []; tooltips = []; messages = 0 })
      else replace_tooltip (
          add_drawing
            (plain size.width size.height
              (line_scene d3 s.dark chart (inner_w size.width) (inner_h size.height)))
            (record k { messages = 0; drawings = [] }))

  -- `selectAll("svg,div")` takes all.
  unfoldable pub render_wind : WindChart (Wind ℤ) Share → Canvas → Canvas
  unfolding add_message add_drawing replace_tooltip
  render_wind chart k =
      let layout = wind_layout s.size in
      let cleared = record k { drawings = []; tooltips = []; messages = 0 } in
      if length chart.data_ == 0
      then add_message cleared
      else replace_tooltip (
          add_drawing
            (container layout
              (speed_scene d3 s.dark chart (inner_w layout.speed.width)
                (inner_h layout.speed.height))
              (render_rose d3.one d3.greatest_share layout.rose chart.rose))
            cleared)

  unfoldable pub render_rain : RainChart ℤ → Canvas → Canvas
  unfolding add_message add_drawing replace_tooltip
  render_rain chart k =
      let size = chart_size s.size in
      let cleared = record k { drawings = []; tooltips = []; messages = 0 } in
      if length chart.data_ == 0
      then add_message cleared
      else replace_tooltip (
          add_drawing
            (plain size.width size.height
              (rain_scene d3 s.dark chart (inner_w size.width) (inner_h size.height)))
            cleared)

  unfoldable pub render : Chart → Canvas → Canvas
  render (line chart) k = render_line chart k
  render (wind chart) k = render_wind chart k
  render (rain chart) k = render_rain chart k
