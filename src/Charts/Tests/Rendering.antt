-- ===== src/Charts/Tests/Rendering.antt =====
-- The theorems on the drawings at concrete inputs, with linear scales and extremes that scan the list.
use voria.Prelude.{
  ℕ, ◌+◌, ◌*◌, ◌/◌, ◌-◌, ◌≤◌, ◌≡◌, refl, true, false, none, some, List, [], ◌∷◌, arith, min, max,
}
use voria.Prelude.Int.{
  ℤ, pos, negsuc, pos_part, ◌≤ℤ◌, ◌-ℤ◌, max_ℤ, max_ℤ_cases, int_laws, parts_apart, mul_le_mul,
}
use native.Mathlib.Nat.{div-le_of_le-mul}
use voria.Prelude.Text.{codes}
use voria.Charts.Segments.{Point}
use voria.Charts.Data.{LineChart, WindChart, RainChart}
use voria.Charts.Pointer.{Wind}
use voria.Charts.Rose.{Share}
use voria.Charts.Scene.{D3}
use voria.Charts.Render.{Screen, empty_canvas, line, line_scene, rain_scene, speed_scene}
use voria.Charts.Render.Area.{All, All-weaken, Drawn, IsD3}
use voria.Charts.Render.Inside.{line_scene-Drawn}
use voria.Charts.Render.Bars.{rain_scene-Drawn}
use voria.Charts.Render.Gusts.{speed_scene-Drawn}
use voria.Charts.Multi.{MultiLineChart}
use voria.Charts.Multi.Render.{all_data, resized_times}
use voria.Charts.Multi.Live as Multi
use voria.Charts.Multi.Live.Drawn as Last
use voria.Charts.Multi.Live.Drawn.{IsDrawn, run_events-IsDrawn}
use voria.Charts.Multi.Render.Messages.{messages-resized_times}
use voria.Charts.Live.{Event, Hook, run_event, line_data, line_append, resized, run_events}
use voria.Charts.Live.Fresh.{IsFresh, last_screen, run_events-IsFresh}
use voria.Charts.Tests.Drawing.{extent, Covers-extent, greatest}

share_of : (w k n : ℕ) → ℕ
share_of w k n = w * k / n

share_of-le : (w k n : ℕ) → k ≤ n → share_of w k n ≤ w
unfolding share_of
share_of-le w k n h = div-le_of_le-mul n (omega (arith, mul_le_mul w h))

least : List ℕ → ℕ
least [] = 0
least (t ∷ []) = t
least (t ∷ u ∷ ts) = min t (least (u ∷ ts))

latest : List ℕ → ℕ
latest [] = 0
latest (t ∷ ts) = max t (latest ts)

All-least : (ts : List ℕ) → All (λ t. least ts ≤ t) ts
unfolding least
All-least [] = tt
All-least (t ∷ []) = (omega arith, tt)
All-least (t ∷ u ∷ ts) = (
  omega arith,
  All-weaken (λ v. least (u ∷ ts) ≤ v) _ (u ∷ ts) (λ v h. omega (arith, h)) (All-least (u ∷ ts)),
)

All-latest : (ts : List ℕ) → All (λ t. t ≤ latest ts) ts
unfolding latest
All-latest [] = tt
All-latest (t ∷ ts) =
    (omega arith, All-weaken (λ v. v ≤ latest ts) _ ts (λ v h. omega (arith, h)) (All-latest ts))

peak : List ℤ → ℤ
peak [] = pos 0
peak (v ∷ vs) = max_ℤ v (peak vs)

All-peak : (vs : List ℤ) → All (λ v. v ≤ℤ peak vs) vs
unfolding peak
All-peak [] = tt
All-peak (v ∷ vs) =
    let c = max_ℤ_cases v (peak vs) in
    (
      ground (arith, c),
      All-weaken (λ u. u ≤ℤ peak vs) _ vs (λ u h. ground (arith, c, h)) (All-peak vs),
    )

abbrev scales : D3
scales = record {
  one = 10;
  time = λ (a, b) w t. pos (share_of (pos_part w) (t - a) (b - a));
  linear = λ (a, b) h v. pos (share_of (pos_part h) (pos_part (b -ℤ v)) (pos_part (b -ℤ a)));
  earliest = least;
  latest = latest;
  extent = extent;
  greatest = peak;
  greatest_share = greatest;
}

share_of-within :
    (w : ℤ) (k n : ℕ)
    → k ≤ n
    → pos 0 ≤ℤ w
    → (pos 0 ≤ℤ pos (share_of (pos_part w) k n)) × (pos (share_of (pos_part w) k n) ≤ℤ w)
share_of-within w k n h p =
    (omega arith, omega (arith, share_of-le (pos_part w) k n h, p, parts_apart w))

scales-IsD3 : IsD3 scales
scales-IsD3 = record {
  positive = omega arith;
  time = λ a b w t low high p. share_of-within w (t - a) (b - a) (omega arith) p;
  linear = λ a b h v low high lt p.
      share_of-within h _ _ (omega (int_laws, parts_apart (b -ℤ v), parts_apart (b -ℤ a))) p;
  earliest = All-least;
  latest = All-latest;
  extent = Covers-extent;
  greatest = All-peak;
}

-- A drawing of 800 by 240, with temperatures, rain and wind: two points a minute apart, the third an
-- hour later, in a window of two hours.
abbrev temperatures : List (Point ℤ)
temperatures = record { t = 120000; v = negsuc 11 } ∷ record { t = 3720000; v = pos 85 } ∷ []

abbrev temperature_chart : LineChart ℤ
temperature_chart = record {
  id = codes "t";
  data_ = [];
  unit = codes "C";
  label = codes "T";
  from = some 0;
  to = some 7200000;
  renders = 0;
}

line_scene-Drawn_example : All (Drawn (pos 800) (pos 240)) (
    line_scene scales true
      (record temperature_chart { data_ = record { t = 60000; v = pos 215 } ∷ temperatures })
      (pos 800)
      (pos 240))
line_scene-Drawn_example =
    line_scene-Drawn scales scales-IsD3 (pos 800) (pos 240) (omega arith) (omega arith) true
      temperature_chart (record { t = 60000; v = pos 215 }) temperatures
      ((omega arith, omega arith), ((omega arith, omega arith), ((omega arith, omega arith), tt)))

abbrev showers : List (Point ℤ)
showers = record { t = 120000; v = pos 0 } ∷ record { t = 3720000; v = pos 14 } ∷ []

abbrev rain_chart : RainChart ℤ
rain_chart = record { data_ = []; unit = codes "mm"; from = some 0; to = none; renders = 0 }

rain_scene-Drawn_example : All (Drawn (pos 800) (pos 240)) (
    rain_scene scales false
      (record rain_chart { data_ = record { t = 60000; v = pos 2 } ∷ showers })
      (pos 800)
      (pos 240))
rain_scene-Drawn_example =
    rain_scene-Drawn scales scales-IsD3 (pos 800) (pos 240) (omega arith) (omega arith) false
      rain_chart (record { t = 60000; v = pos 2 }) showers
      ((omega arith, tt), ((omega arith, tt), ((omega arith, tt), tt)))
      (omega arith, (omega arith, (omega arith, tt)))

abbrev breeze : Point (Wind ℤ)
breeze = record { t = 60000; v = record { speed = pos 31; gust = some (pos 78) } }

abbrev winds : List (Point (Wind ℤ))
winds = record { t = 3720000; v = record { speed = pos 0; gust = none } } ∷ []

abbrev wind_chart : WindChart (Wind ℤ) Share
wind_chart = record {
  data_ = [];
  rose = record { sector = codes "N"; pct = 125 } ∷ [];
  unit = codes "m/s";
  from = none;
  to = some 7200000;
  renders = 0;
}

speed_scene-Drawn_example :
    All
      (Drawn (pos 800) (pos 240))
      (speed_scene scales true (record wind_chart { data_ = breeze ∷ winds }) (pos 800) (pos 240))
speed_scene-Drawn_example =
    speed_scene-Drawn scales scales-IsD3 (pos 800) (pos 240) (omega arith) (omega arith) true
      wind_chart breeze winds ((tt, omega arith), ((tt, omega arith), tt))
      ((omega arith, omega arith), ((omega arith, tt), tt))

abbrev screen : Screen
screen = record { size = record { width = 900; height = 0 }; dark = true }

abbrev messages : List (Event × Screen)
messages =
    (line_data (codes "t") temperatures (codes "C") (codes "T") (some 0) none, screen)
    ∷ (line_append (codes "t") (record { t = 3780000; v = pos 90 }) none none, screen)
    ∷ []

abbrev shown : Hook
shown = record { chart = line temperature_chart; canvas = empty_canvas; here = true }

run_events-IsFresh_example :
    IsFresh scales
      (last_screen scales (run_event scales shown (resized, screen)) screen messages)
      (run_events scales shown ((resized, screen) ∷ messages))
run_events-IsFresh_example = run_events-IsFresh scales shown screen messages refl

abbrev stations : MultiLineChart ℤ
stations = record {
  series = record { id = codes "a"; name = codes "A"; data_ = []; color = codes "red" } ∷ [];
  unit = codes "mm";
  from = none;
  to = none;
  renders = 0;
}

messages-resized_times_example :
    (resized_times scales screen 3 stations empty_canvas).messages ≡ empty_canvas.messages + 3
unfolding all_data
messages-resized_times_example =
    messages-resized_times scales screen stations (omega arith) refl 3 empty_canvas

abbrev comparison : List (Multi.Event × Screen)
comparison =
    (Multi.resized, screen)
    ∷ (Multi.data_ stations.series (codes "mm") (some 0) none, screen)
    ∷ (Multi.append (codes "a") (record { t = 60000; v = pos 2 }) none none, screen)
    ∷ (Multi.removed, screen)
    ∷ (Multi.resized, screen)
    ∷ []

run_events-IsDrawn_example :
    IsDrawn scales
      (Last.last_screen scales Multi.mounted screen comparison)
      (Multi.run_events scales Multi.mounted comparison)
run_events-IsDrawn_example = run_events-IsDrawn scales screen comparison
