-- ===== src/Charts/Live/Fresh.antt =====
-- A chart's element shows its data, and nothing that is left from before.
use voria.Prelude.{
  ◌==◌, ◌≡◌, refl, sym, ap, ◌∙◌, Bool, true, false, if◌then◌else◌, List, [], ◌∷◌, Bool-cases, inl,
  inr, arith,
}
use voria.Charts.Scene.{D3}
use voria.Charts.Data.{
  line_chart_data, line_chart_append, wind_chart_data, wind_chart_append, rain_chart_data,
  rain_chart_append,
}
use voria.Charts.Render.{
  Screen, Canvas, empty_canvas, Chart, line, wind, rain, render, render_line, render_wind,
  render_rain,
}
use voria.Charts.Live.{
  Event, line_data, line_append, wind_data, wind_append, rain_data, rain_append, resized, renders,
  received, stays, Hook, run_event, run_events,
}

module _ (d3 : D3) where
  -- What was there before does not matter.
  render-empty :
      (s : Screen) (c : Chart) (k : Canvas) → render d3 s c k ≡ render d3 s c empty_canvas
  unfolding render render_line render_wind render_rain
  render-empty s (line c) k = refl
  render-empty s (wind c) k = refl
  render-empty s (rain c) k = refl

  -- The element holds what one render of the chart, on this screen, puts into an empty element.
  abbrev pub IsFresh : Screen → Hook → Type 0
  IsFresh s h = h.canvas ≡ render d3 s h.chart empty_canvas

  -- The screen of the last event whose handler rendered.
  abbrev pub screen_after : Hook → Screen → Event × Screen → Screen
  screen_after h old (e, s) =
      if h.here then (if renders (received h.chart e) == renders h.chart then old else s) else old

  abbrev pub last_screen : Hook → Screen → List (Event × Screen) → Screen
  last_screen h old [] = old
  last_screen h old (e ∷ es) = last_screen (run_event d3 h e) (screen_after h old e) es

  received-eq :
      (c : Chart) (e : Event) → (renders (received c e) == renders c) ≡ true → received c e ≡ c
  unfolding received renders line_chart_data line_chart_append wind_chart_data wind_chart_append
      rain_chart_data rain_chart_append
  received-eq (line c) (line_data id points unit label from to) h = ground (arith, h)
  received-eq (line c) (line_append id p from to) h = ground (arith, h)
  received-eq (line c) resized h = absurd (ground (arith, h))
  received-eq (wind c) (wind_data points unit rose from to) h = absurd (ground (arith, h))
  received-eq (wind c) (wind_append p rose from to) h = absurd (ground (arith, h))
  received-eq (wind c) resized h = absurd (ground (arith, h))
  received-eq (rain c) (rain_data points unit from to) h = absurd (ground (arith, h))
  received-eq (rain c) (rain_append p from to) h = absurd (ground (arith, h))
  received-eq (rain c) resized h = absurd (ground (arith, h))
  received-eq c e h = refl

  -- The hook after an event that it hears.
  abbrev heard : Hook → Event → Screen → Bool → Hook
  heard h e s here = record {
    chart = received h.chart e;
    canvas =
        if renders (received h.chart e) == renders h.chart
        then h.canvas
        else render d3 s (received h.chart e) h.canvas;
    here = here;
  }

  IsFresh-heard :
      (h : Hook) (e : Event) (s old : Screen) (here : Bool)
      → IsFresh old h
      → IsFresh
          (if renders (received h.chart e) == renders h.chart then old else s)
          (heard h e s here)
  IsFresh-heard h e s old here drawn =
      elim (Bool-cases (renders (received h.chart e) == renders h.chart)) [
        | inl idle ↦
            rw idle
              (drawn ∙ ap (λ c. render d3 old c empty_canvas) (sym (received-eq h.chart e idle)))
        | inr done ↦ rw done (render-empty s (received h.chart e) h.canvas)
      ]

  IsFresh-run_event :
      (h : Hook) (old : Screen) (e : Event) (s : Screen)
      → IsFresh old h
      → IsFresh (screen_after h old (e, s)) (run_event d3 h (e, s))
  unfolding run_event
  IsFresh-run_event h old e s f = elim (Bool-cases h.here) [
    | inl there ↦ rw there (IsFresh-heard h e s old (stays e) f)
    | inr gone ↦ rw gone f
  ]

  renders-resized : (c : Chart) → (renders (received c resized) == renders c) ≡ false
  unfolding renders received
  renders-resized (line c) = ground arith
  renders-resized (wind c) = ground arith
  renders-resized (rain c) = ground arith

  IsFresh-resized :
      (h : Hook) (s : Screen) → h.here ≡ true → IsFresh s (run_event d3 h (resized, s))
  unfolding run_event
  IsFresh-resized h s here =
      rw (here, renders-resized h.chart) (render-empty s (received h.chart resized) h.canvas)

  IsFresh-run_events :
      (h : Hook) (old : Screen) (es : List (Event × Screen))
      → IsFresh old h
      → IsFresh (last_screen h old es) (run_events d3 h es)
  IsFresh-run_events h old [] f = f
  IsFresh-run_events h old ((e, s) ∷ es) f =
      IsFresh-run_events (run_event d3 h (e, s)) (screen_after h old (e, s)) es
        (IsFresh-run_event h old e s f)

  -- A chart of one station always shows its data and nothing else: from the first report of its
  -- element's size to a hook that is there, whatever messages and sizes follow, also after its end, and
  -- whatever the element held before, it holds exactly what one render of the chart's data, on the screen
  -- of the last event whose handler rendered, puts into an empty element.
  pub run_events-IsFresh :
      (h : Hook) (s : Screen) (es : List (Event × Screen))
      → h.here ≡ true
      → IsFresh
          (last_screen (run_event d3 h (resized, s)) s es)
          (run_events d3 h ((resized, s) ∷ es))
  run_events-IsFresh h s es here =
      IsFresh-run_events (run_event d3 h (resized, s)) s es (IsFresh-resized h s here)
