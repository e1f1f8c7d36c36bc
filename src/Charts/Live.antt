-- ===== src/Charts/Live.antt =====
-- The life of a chart: the messages of the server and the observer of the element's size (mounted and
-- destroyed of LineChart, WindChart and RainChart in assets/js/hooks/d3_charts.js).
pub mod Fresh
use voria.Prelude.{ℕ, ◌+◌, ◌==◌, Bool, true, false, Option, List, [], ◌∷◌, if◌then◌else◌}
use voria.Prelude.Int.{ℤ}
use voria.Prelude.Text.{Text}
use voria.Charts.Segments.{Point}
use voria.Charts.Data.{
  line_chart_data, line_chart_append, wind_chart_data, wind_chart_append, rain_chart_data,
  rain_chart_append,
}
use voria.Charts.Pointer.{Wind}
use voria.Charts.Rose.{Share}
use voria.Charts.Scene.{D3}
use voria.Charts.Render.{Screen, Canvas, Chart, line, wind, rain, render}

pub data Event : Type 0 where
  line_data : (id : Text) (points : List (Point ℤ)) (unit label : Text) (from to : Option ℕ) → Event
  line_append : (id : Text) (point : Point ℤ) (from to : Option ℕ) → Event
  wind_data :
      (points : List (Point (Wind ℤ))) (unit : Text) (rose : Option (List Share))
      (from to : Option ℕ)
      → Event
  wind_append : (point : Point (Wind ℤ)) (rose : Option (List Share)) (from to : Option ℕ) → Event
  rain_data : (points : List (Point ℤ)) (unit : Text) (from to : Option ℕ) → Event
  rain_append : (point : Point ℤ) (from to : Option ℕ) → Event
  resized : Event
  removed : Event

unfoldable pub renders : Chart → ℕ
renders (line c) = c.renders
renders (wind c) = c.renders
renders (rain c) = c.renders

-- A hook listens to its own two messages only.
unfoldable pub received : Chart → Event → Chart
received (line c) (line_data id points unit label from to) =
    line (line_chart_data c id points unit label from to)
received (line c) (line_append id p from to) = line (line_chart_append c id p from to)
received (line c) resized = line (record c { renders = c.renders + 1 })
received (wind c) (wind_data points unit rose from to) =
    wind (wind_chart_data c points unit rose from to)
received (wind c) (wind_append p rose from to) = wind (wind_chart_append c p rose from to)
received (wind c) resized = wind (record c { renders = c.renders + 1 })
received (rain c) (rain_data points unit from to) = rain (rain_chart_data c points unit from to)
received (rain c) (rain_append p from to) = rain (rain_chart_append c p from to)
received (rain c) resized = rain (record c { renders = c.renders + 1 })
received c e = c

-- `here` is whether the hook is there: then LiveView calls its handlers, and it observes the size.
pub record Hook : Type 0 where
  pub chart : Chart
  pub canvas : Canvas
  pub here : Bool

-- `destroyed` ends the observation.
unfoldable pub stays : Event → Bool
stays removed = false
stays e = true

module _ (d3 : D3) where
  -- An event, and the page as it is then; a handler that renders draws what it has made of the data.
  unfoldable pub run_event : Hook → Event × Screen → Hook
  unfolding stays
  run_event h (e, s) =
      let chart = received h.chart e in
      if h.here
      then record {
        chart = chart;
        canvas = if renders chart == renders h.chart then h.canvas else render d3 s chart h.canvas;
        here = stays e;
      }
      else h

  abbrev pub run_events : Hook → List (Event × Screen) → Hook
  run_events h [] = h
  run_events h (e ∷ es) = run_events (run_event h e) es
