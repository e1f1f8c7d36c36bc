-- ===== src/Timeline/Html.antt =====
-- The HTML of the marks on the track (the loop of buildTicks, and esc, in
-- assets/js/hooks/radar_timeline.js).
use voria.Prelude.{ℕ, List, [], ◌∷◌, ◌++◌}
use voria.Prelude.Int.{ℤ}
use voria.Prelude.Text.{Text, codes}
use voria.Map.Markers.Html.{escape}
use voria.Timeline.State.{Tick, day_tick, hour_tick}
use voria.Timeline.Grid.{pos_for}

-- `fixed` writes a place of the window, in milliseconds from its start, as a percentage with three digits.
module _ (fixed : ℕ → Text) (latest : ℤ) where
  place : ℤ → Text
  place t = codes "\" style=\"left:" ++ fixed (pos_for latest t) ++ codes "%\">"

  unfoldable pub tick_html : Tick → Text
  unfolding place
  tick_html (day_tick t day) =
      codes "<div class=\"radar-tl-tick radar-tl-tick--day"
      ++ place t
      ++ codes "</div><div class=\"radar-tl-tick-label"
      ++ place t
      ++ escape day
      ++ codes "</div>"
  tick_html (hour_tick t) = codes "<div class=\"radar-tl-tick" ++ place t ++ codes "</div>"

  unfoldable pub ticks_html : List Tick → Text
  ticks_html [] = []
  ticks_html (tick ∷ ticks) = tick_html tick ++ ticks_html ticks
