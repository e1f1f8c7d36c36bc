-- ===== src/Charts/Multi/Live.antt =====
-- The life of the comparison chart (mounted and destroyed of MultiLineChart in
-- assets/js/hooks/d3_charts.js).
pub mod Drawn
use voria.Prelude.{ℕ, ◌+◌, ◌==◌, Bool, true, false, Option, none, List, [], ◌∷◌, if◌then◌else◌}
use voria.Prelude.Int.{ℤ}
use voria.Prelude.Text.{Text}
use voria.Charts.Segments.{Point}
use voria.Charts.Multi.{Series, MultiLineChart, multi_line_chart_data, multi_line_chart_append}
use voria.Charts.Scene.{D3}
use voria.Charts.Render.{Screen, Canvas, empty_canvas}
use voria.Charts.Multi.Render.{render_multi}

pub data Event : Type 0 where
  data_ : (series : List (Series ℤ)) (unit : Text) (from to : Option ℕ) → Event
  append : (id : Text) (point : Point ℤ) (from to : Option ℕ) → Event
  resized : Event
  removed : Event

pub record Hook : Type 0 where
  pub chart : MultiLineChart ℤ
  pub canvas : Canvas
  pub here : Bool

unfoldable pub mounted : Hook
mounted = record {
  chart = record { series = []; unit = []; from = none; to = none; renders = 0 };
  canvas = empty_canvas;
  here = true;
}

unfoldable pub received : MultiLineChart ℤ → Event → MultiLineChart ℤ
received c (data_ series unit from to) = multi_line_chart_data c series unit from to
received c (append id p from to) = multi_line_chart_append c id p from to
received c resized = record c { renders = c.renders + 1 }
received c removed = c

stays : Event → Bool
stays removed = false
stays e = true

module _ (d3 : D3) where
  -- An event, and the page as it is then; a handler that renders draws what it has made of the data.
  unfoldable pub run_event : Hook → Event × Screen → Hook
  unfolding stays
  run_event h (e, s) =
      let chart = received h.chart e in
      if h.here
      then record {
        chart = chart;
        canvas =
            if chart.renders == h.chart.renders then h.canvas else render_multi d3 s chart h.canvas;
        here = stays e;
      }
      else h

  abbrev pub run_events : Hook → List (Event × Screen) → Hook
  run_events h [] = h
  run_events h (e ∷ es) = run_events (run_event h e) es
