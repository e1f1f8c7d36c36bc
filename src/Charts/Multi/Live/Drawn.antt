-- ===== src/Charts/Multi/Live/Drawn.antt =====
-- What the comparison chart shows.
use voria.Prelude.{
  ◌==◌, ◌≡◌, refl, sym, subst, Bool, true, false, Bool-cases, inl, inr, if◌then◌else◌, List, [],
  ◌∷◌, arith, length,
}
use voria.Prelude.Int.{ℤ}
use voria.Charts.Segments.{Point}
use voria.Charts.Multi.{Series, MultiLineChart, multi_line_chart_data, multi_line_chart_append}
use voria.Charts.Scene.{D3}
use voria.Charts.Render.{Screen, Canvas, empty_canvas}
use voria.Charts.Multi.Render.{all_data, render_multi}
use voria.Charts.Multi.Live.{
  Event, data_, append, resized, removed, Hook, mounted, received, stays, run_event, run_events,
}

empty-all_data :
    (ss : List (Series ℤ)) (p : Point ℤ) (ps : List (Point ℤ))
    → all_data ss ≡ p ∷ ps
    → (length ss == 0) ≡ false
unfolding all_data
empty-all_data [] p ps e = cc
empty-all_data (s ∷ ss) p ps e = ground arith

not_empty : (p : Point ℤ) (ps : List (Point ℤ)) → (length (p ∷ ps) == 0) ≡ false
not_empty p ps = ground arith

module _ (d3 : D3) where
  -- Without points the element holds no drawing and no tooltip; with points it holds what one render of
  -- the chart puts into an empty element.
  abbrev pub Shows : Screen → MultiLineChart ℤ → Canvas → List (Point ℤ) → Type 0
  Shows s c k [] = (k.drawings ≡ []) × (k.tooltips ≡ [])
  Shows s c k (p ∷ ps) = k ≡ render_multi d3 s c empty_canvas

  abbrev pub IsDrawn : Screen → Hook → Type 0
  IsDrawn s h = Shows s h.chart h.canvas (all_data h.chart.series)

  -- The screen of the last event whose handler rendered.
  abbrev pub screen_after : Hook → Screen → Event × Screen → Screen
  screen_after h old (e, s) =
      if h.here then (if (received h.chart e).renders == h.chart.renders then old else s) else old

  abbrev pub last_screen : Hook → Screen → List (Event × Screen) → Screen
  last_screen h old [] = old
  last_screen h old (e ∷ es) = last_screen (run_event d3 h e) (screen_after h old e) es

  Shows-render_multi :
      (s : Screen) (c : MultiLineChart ℤ) (k : Canvas) (ps : List (Point ℤ))
      → all_data c.series ≡ ps
      → Shows s c (render_multi d3 s c k) ps
  unfolding render_multi all_data
  Shows-render_multi s c k [] e = ground (arith, e)
  Shows-render_multi s c k (p ∷ ps) e = rw (empty-all_data c.series p ps e, e, not_empty p ps) refl

  received-eq :
      (c : MultiLineChart ℤ) (e : Event)
      → ((received c e).renders == c.renders) ≡ true
      → received c e ≡ c
  unfolding received multi_line_chart_data multi_line_chart_append
  received-eq c (data_ series unit from to) h = absurd (ground (arith, h))
  received-eq c (append id p from to) h = ground (arith, h)
  received-eq c resized h = absurd (ground (arith, h))
  received-eq c removed h = refl

  Shows-same :
      (s : Screen) (c d : MultiLineChart ℤ) (k : Canvas)
      → d ≡ c
      → Shows s c k (all_data c.series)
      → Shows s d k (all_data d.series)
  Shows-same s c d k e = subst (λ d. Shows s d k (all_data d.series)) (sym e)

  -- The hook after an event that it hears.
  abbrev heard : Hook → Event → Screen → Bool → Hook
  heard h e s here = record {
    chart = received h.chart e;
    canvas =
        if (received h.chart e).renders == h.chart.renders
        then h.canvas
        else render_multi d3 s (received h.chart e) h.canvas;
    here = here;
  }

  IsDrawn-heard :
      (h : Hook) (e : Event) (s old : Screen) (here : Bool)
      → IsDrawn old h
      → IsDrawn
          (if (received h.chart e).renders == h.chart.renders then old else s)
          (heard h e s here)
  IsDrawn-heard h e s old here drawn =
      let c = received h.chart e in
      elim (Bool-cases (c.renders == h.chart.renders)) [
        | inl idle ↦ rw idle (Shows-same old h.chart c h.canvas (received-eq h.chart e idle) drawn)
        | inr done ↦ rw done (Shows-render_multi s c h.canvas (all_data c.series) refl)
      ]

  IsDrawn-run_event :
      (h : Hook) (old : Screen) (e : Event) (s : Screen)
      → IsDrawn old h
      → IsDrawn (screen_after h old (e, s)) (run_event d3 h (e, s))
  unfolding run_event
  IsDrawn-run_event h old e s d = elim (Bool-cases h.here) [
    | inl there ↦ rw there (IsDrawn-heard h e s old (stays e) d)
    | inr gone ↦ rw gone d
  ]

  IsDrawn-run_events :
      (h : Hook) (old : Screen) (es : List (Event × Screen))
      → IsDrawn old h
      → IsDrawn (last_screen h old es) (run_events d3 h es)
  IsDrawn-run_events h old [] d = d
  IsDrawn-run_events h old ((e, s) ∷ es) d =
      IsDrawn-run_events (run_event d3 h (e, s)) (screen_after h old (e, s)) es
        (IsDrawn-run_event h old e s d)

  -- The comparison chart shows its data: after any messages and sizes since it was mounted, also after its
  -- end, if there are points its element holds what one render of the chart, on the screen of the last
  -- event whose handler rendered, puts into an empty element, and neither a drawing nor a tooltip if there
  -- are none.
  pub run_events-IsDrawn :
      (first : Screen) (es : List (Event × Screen))
      → IsDrawn (last_screen mounted first es) (run_events d3 mounted es)
  unfolding mounted all_data
  run_events-IsDrawn first es = IsDrawn-run_events mounted first es (refl, refl)
