-- ===== src/Timeline/Grid.antt =====
-- Instants on the track (windowSpan, oldestTime, snapToGrid, posFor, buildTicks, and the instant
-- under the pointer in dragTo). Instants are whole milliseconds, and pixels are whole.
use voria.Prelude.{
  ℕ, zero, suc, ◌*◌, ◌/◌, ◌%◌, Bool, false, not, List, [], ◌∷◌, Option, none, some, ◌==◌, min,
  if◌then◌else◌,
}
use voria.Prelude.Int.{ℤ, pos, pos_part, neg_part, sub_ℕ, ◌-ℤ◌, leb_ℤ, round_div}
use voria.Prelude.Text.{Text, text_eq}
use voria.Radar.Floor.{floor_to_period}
use voria.Radar.Product.{hour_ms}
use voria.Timeline.State.{Tick, day_tick, hour_tick}

-- RADAR_WINDOW_MS, a week.
abbrev pub window_span : ℕ
window_span = 604800000

-- `Math.floor(this.windowSpan() / this._period)`
abbrev pub max_idx : ℕ → ℕ
max_idx period = window_span / period

unfoldable pub oldest_time : ℤ → ℕ → ℤ
oldest_time latest period = latest -ℤ pos (max_idx period * period)

-- The index is cut at 0 from below and at the window's end.
unfoldable pub snap_to_grid : ℤ → ℕ → ℤ → ℤ
snap_to_grid latest period time =
    let idx = min (pos_part (round_div (latest -ℤ time) period)) (max_idx period) in
    latest -ℤ pos (idx * period)

-- `posFor(time)`, as the part of the window, in milliseconds, that lies left of the handle.
unfoldable pub pos_for : ℤ → ℤ → ℕ
pos_for latest time = min (pos_part (time -ℤ (latest -ℤ pos window_span))) window_span

-- `Math.round(pos)` of the percentage.
unfoldable pub percent : ℕ → ℤ
percent handle = round_div (pos (handle * 100)) window_span

-- The instant for a pointer at `x` over a track that begins at `left` and is `width` wide: the
-- ratio of the two is cut at 0 and 1, and the index at the window's ends.
unfoldable pub drag_time : ℤ → ℕ → ℤ → ℤ → ℕ → ℤ
drag_time latest period x left width =
    let offset = min (pos_part (x -ℤ left)) width in
    let idx = round_div (sub_ℕ (offset * window_span) (width * window_span)) (width * period) in
    latest -ℤ pos (min (neg_part idx) (max_idx period) * period)

-- The hour (0 to 23) and the name of the day of an instant in Rome: `Intl.DateTimeFormat`.
pub record Calendar : Type 0 where
  pub hour_of : ℤ → ℕ
  pub day_of : ℤ → Text

-- `lastDay !== null && day !== lastDay`
unfoldable pub day_changed : Option Text → Text → Bool
day_changed none day = false
day_changed (some last) day = not (text_eq day last)

unfoldable pub tick_at : Calendar → Option Text → ℤ → List Tick → List Tick
tick_at c last_day t rest =
    if day_changed last_day (c.day_of t)
    then day_tick t (c.day_of t) ∷ rest
    else if c.hour_of t % 3 == 0
    then hour_tick t ∷ rest
    else rest

-- The loop of buildTicks, from hour to hour backwards while the hour lies in the window.
unfoldable pub ticks_from : Calendar → ℕ → ℤ → Option Text → ℤ → List Tick
ticks_from c zero oldest last_day t = []
ticks_from c (suc rounds) oldest last_day t =
    let rest = ticks_from c rounds oldest (some (c.day_of t)) (t -ℤ pos hour_ms) in
    if leb_ℤ oldest t then tick_at c last_day t rest else []

-- A week has 168 hours, so that the loop makes 169 rounds at most.
unfoldable pub build_ticks : Calendar → ℤ → List Tick
unfolding ticks_from tick_at day_changed
build_ticks c latest =
    ticks_from c 170 (latest -ℤ pos window_span) none (floor_to_period latest hour_ms)
