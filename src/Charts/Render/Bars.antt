-- ===== src/Charts/Render/Bars.antt =====
-- The bars of the rain chart, and its scale.
use voria.Prelude.{ℕ, ◌<◌, Bool, ◌&&◌, List, [], ◌∷◌, map, arith, if_cases}
use voria.Prelude.Int.{ℤ, pos, ◌≤ℤ◌, ◌<ℤ◌, ◌-ℤ◌, ◌*ℤ◌, leb_ℤ, int_laws, *ℤ_parts, -ℤ_parts}
use voria.Prelude.Text.{Text}
use voria.Charts.Segments.{Point}
use voria.Charts.Theme.{theme_colors}
use voria.Charts.Data.{RainChart}
use voria.Charts.Layout.{rain_top}
use voria.Charts.Scene.{bar, D3, axes, pointer_parts}
use voria.Charts.Render.{rain_bars, rain_scene}
use voria.Charts.Render.Area.{All, All-append, InArea, Drawn, IsD3}
use voria.Charts.Render.Window.{Between, InWindow, domain_of, All-domain_of}
use voria.Charts.Render.Shading.{All-shading}
use voria.Charts.Render.Inside.{Inner, Inner-InArea}

-- No amount of rain is negative.
abbrev pub AllPositive : List (Point ℤ) → Type 0
AllPositive ps = All (λ p. pos 0 ≤ℤ p.v) ps

-- The scale reaches over every amount, and is not empty.
rain_top-above :
    (one : ℕ) (m v : ℤ)
    → 0 < one
    → pos 0 ≤ℤ v
    → v ≤ℤ m
    → (pos 0 <ℤ rain_top one (λ _. m) []) × (v *ℤ 100 ≤ℤ rain_top one (λ _. m) [])
unfolding rain_top
rain_top-above one m v h k l =
    let top = *ℤ_parts m 115 in
    let value = *ℤ_parts v 100 in
    if_cases (λ (t : ℤ). (pos 0 <ℤ t) × (v *ℤ 100 ≤ℤ t))
      (leb_ℤ (m *ℤ 115) (pos 0) && leb_ℤ (pos 0) (m *ℤ 115))
      (λ zero. (omega arith, ground (arith, zero, top, value)))
      (λ apart. (ground (arith, apart, top), omega (arith, top, value)))

All-rain_top :
    (one : ℕ) (m : ℤ) (a b : ℕ) (ps : List (Point ℤ))
    → 0 < one
    → All (λ p. Between a b p.t) ps
    → AllPositive ps
    → All (λ v. v ≤ℤ m) (map (λ (p : Point ℤ). p.v) ps)
    → All (Inner (a, b) (pos 0, rain_top one (λ _. m) []) 100) ps
All-rain_top one m a b [] o t h k = tt
All-rain_top one m a b (p ∷ ps) o t h k =
    let (_, above) = rain_top-above one m p.v o h.0 k.0 in
    ((t.0, omega (arith, h.0, *ℤ_parts p.v 100), above), All-rain_top one m a b ps o t.1 h.1 k.1)

module _ (d3 : D3) (l : IsD3 d3) (w h : ℤ) (w_pos : pos 0 ≤ℤ w) (h_pos : pos 0 ≤ℤ h) where
  bar-Drawn :
      (x y width : ℤ) (fill : Text) → InArea w h (x, y) → Drawn w h (bar x y width (h -ℤ y) fill)
  bar-Drawn x y width fill inside = (inside, omega (arith, -ℤ_parts h y, inside), omega int_laws)

  All-rain_bars :
      (P : Point ℤ → Type 0) (x : ℕ → ℤ) (y : ℤ → ℤ) (width : ℤ) (fill : Text) (ps : List (Point ℤ))
      → ((p : Point ℤ) → P p → InArea w h (x p.t, y p.v))
      → All P ps
      → All (Drawn w h) (rain_bars x y h width fill ps)
  unfolding rain_bars
  All-rain_bars P x y width fill [] f a = tt
  All-rain_bars P x y width fill (p ∷ ps) f (b, a) =
      (bar-Drawn (x p.t) (y p.v) width fill (f p b), All-rain_bars P x y width fill ps f a)

  -- A rain chart with points draws bars that stand on the floor of its drawing, whose width and height
  -- are not negative, and end below its top, with their middles between its sides, if d3 keeps what it
  -- promises, the points lie in the window that the server gave, where it gave one, and no amount is
  -- negative; the rectangles of the shading and the middles of their labels lie in the drawing.
  pub rain_scene-Drawn :
      (dark : Bool) (chart : RainChart ℤ) (p : Point ℤ) (ps : List (Point ℤ))
      → InWindow chart.from chart.to (p ∷ ps)
      → AllPositive (p ∷ ps)
      → All (Drawn w h) (rain_scene d3 dark (record chart { data_ = p ∷ ps }) w h)
  unfolding rain_scene axes pointer_parts rain_top
  rain_scene-Drawn dark chart p ps inside amounts =
      let c = theme_colors dark in
      let points = p ∷ ps in
      let greatest = l.greatest (map (λ (p : Point ℤ). p.v) points) in
      let top = rain_top d3.one d3.greatest points in
      let above =
        rain_top-above d3.one (d3.greatest (map (λ (p : Point ℤ). p.v) points)) p.v l.positive
          amounts.0 greatest.0 in
      let window = domain_of d3 chart.from chart.to points in
      let inner =
        All-rain_top d3.one (d3.greatest (map (λ (p : Point ℤ). p.v) points)) window.0 window.1
          points l.positive (All-domain_of d3 l chart.from chart.to points inside) amounts
          greatest in
      let place =
        Inner-InArea d3 l w h w_pos h_pos chart.from chart.to points (pos 0, top) 100 above.0 in
      (
        tt,
        All-append (Drawn w h) _ _
            (All-shading d3 l w h w_pos h_pos c dark chart.from chart.to p ps inside)
            (All-append (Drawn w h) _ _
              (All-rain_bars (Inner window (pos 0, top) 100) _ _ _ c.rain points place inner)
              (tt, (tt, (tt, (tt, tt))))),
      )
