-- ===== src/Charts/Render/Gusts.antt =====
-- The dots and the line of the wind chart, and its scale.
use voria.Prelude.{
  ℕ, ◌<◌, Bool, ◌&&◌, Option, none, some, List, [], ◌∷◌, map, arith, if_cases, with_value,
}
use voria.Prelude.Int.{ℤ, pos, ◌≤ℤ◌, ◌<ℤ◌, ◌*ℤ◌, leb_ℤ, *ℤ_parts, max_ℤ-ge_left, max_ℤ-ge_right}
use voria.Prelude.Text.{Text}
use voria.Charts.Segments.{Point}
use voria.Charts.Theme.{theme_colors}
use voria.Charts.Data.{WindChart}
use voria.Charts.Pointer.{Wind}
use voria.Charts.Rose.{Share}
use voria.Charts.Layout.{strongest, wind_top}
use voria.Charts.Scene.{Element, dot, D3, axes, pointer_parts}
use voria.Charts.Render.{gust_dots, speed_scene}
use voria.Charts.Render.Area.{All, All-append, InArea, Drawn, IsD3}
use voria.Charts.Render.Window.{Between, InWindow, domain_of, All-domain_of}
use voria.Charts.Render.Shading.{All-shading}
use voria.Charts.Render.Inside.{Inner, Inner-InArea, All-paths}

abbrev pub OfGust : (ℤ → Type 0) → Option ℤ → Type 0
OfGust P none = Unit {0}
OfGust P (some g) = P g

-- No speed and no gust is negative.
abbrev pub AllUnsigned : List (Point (Wind ℤ)) → Type 0
AllUnsigned ps = All (λ p. (pos 0 ≤ℤ p.v.speed) × OfGust (λ g. pos 0 ≤ℤ g) p.v.gust) ps

-- The scale reaches over what is not above the strongest value, and is not empty.
wind_top-above :
    (one : ℕ) (m v : ℤ)
    → 0 < one
    → pos 0 ≤ℤ v
    → v ≤ℤ m
    → (pos 0 <ℤ wind_top one (λ _. m) []) × (v *ℤ 10 ≤ℤ wind_top one (λ _. m) [])
unfolding wind_top
wind_top-above one m v h k l =
    let top = *ℤ_parts m 11 in
    let value = *ℤ_parts v 10 in
    if_cases (λ (t : ℤ). (pos 0 <ℤ t) × (v *ℤ 10 ≤ℤ t)) (leb_ℤ m (pos 0) && leb_ℤ (pos 0) m)
      (λ zero. (omega arith, ground (arith, zero, value)))
      (λ apart. (ground (arith, apart, top), omega (arith, top, value)))

gust-strongest :
    (s : ℤ) (gust : Option ℤ)
    → OfGust (λ g. g ≤ℤ strongest (record { speed = s; gust = gust })) gust
unfolding strongest
gust-strongest s none = tt
gust-strongest s (some g) = max_ℤ-ge_right s g

-- The speed, and the gust if there is one, lie in the domain of the scale at a time in the window.
abbrev Windy : ℕ × ℕ → ℤ → Point (Wind ℤ) → Type 0
Windy window top p =
    Inner window (pos 0, top) 10 (record { t = p.t; v = p.v.speed })
    × OfGust (λ g. Inner window (pos 0, top) 10 (record { t = p.t; v = g })) p.v.gust

Inner-wind_top :
    (one : ℕ) (m : ℤ) (a b t : ℕ) (v : ℤ)
    → 0 < one
    → Between a b t
    → pos 0 ≤ℤ v
    → v ≤ℤ m
    → Inner (a, b) (pos 0, wind_top one (λ _. m) []) 10 (record { t = t; v = v })
Inner-wind_top one m a b t v o between h k =
    (between, omega (arith, h, *ℤ_parts v 10), (wind_top-above one m v o h k).1)

Windy-of :
    (one : ℕ) (m : ℤ) (a b t : ℕ) (s : ℤ) (gust : Option ℤ)
    → 0 < one
    → Between a b t
    → (pos 0 ≤ℤ s) × OfGust (λ g. pos 0 ≤ℤ g) gust
    → strongest (record { speed = s; gust = gust }) ≤ℤ m
    → Windy
        (a, b)
        (wind_top one (λ _. m) [])
        (record { t = t; v = record { speed = s; gust = gust } })
unfolding strongest
Windy-of one m a b t s none o between h k =
    (Inner-wind_top one m a b t s o between h.0 (omega (arith, max_ℤ-ge_left s (pos 0), k)), tt)
Windy-of one m a b t s (some g) o between h k = (
  Inner-wind_top one m a b t s o between h.0 (omega (arith, max_ℤ-ge_left s g, k)),
  Inner-wind_top one m a b t g o between h.1 (omega (arith, max_ℤ-ge_right s g, k)),
)

All-Windy :
    (one : ℕ) (m : ℤ) (a b : ℕ) (ps : List (Point (Wind ℤ)))
    → 0 < one
    → All (λ p. Between a b p.t) ps
    → AllUnsigned ps
    → All (λ v. v ≤ℤ m) (map (λ (p : Point (Wind ℤ)). strongest p.v) ps)
    → All (Windy (a, b) (wind_top one (λ _. m) [])) ps
All-Windy one m a b [] o t h k = tt
All-Windy one m a b (p ∷ ps) o t h k =
    (Windy-of one m a b p.t p.v.speed p.v.gust o t.0 h.0 k.0, All-Windy one m a b ps o t.1 h.1 k.1)

wind_top-positive :
    (one : ℕ) (m s : ℤ) (gust : Option ℤ)
    → 0 < one
    → pos 0 ≤ℤ s
    → strongest (record { speed = s; gust = gust }) ≤ℤ m
    → pos 0 <ℤ wind_top one (λ _. m) []
unfolding strongest
wind_top-positive one m s gust o h k =
    (wind_top-above one m s o h
      (omega (arith, max_ℤ-ge_left s (with_value gust (λ g. g) (pos 0)), k))).0

module _ (w h : ℤ) (window : ℕ × ℕ) (top : ℤ) (x : ℕ → ℤ) (y : ℤ → ℤ) (fill : Text)
    (place : (q : Point ℤ) → Inner window (pos 0, top) 10 q → InArea w h (x q.t, y q.v)) where
  Drawn-gust :
      (t : ℕ) (gust : Option ℤ) (rest : List Element)
      → OfGust (λ g. Inner window (pos 0, top) 10 (record { t = t; v = g })) gust
      → All (Drawn w h) rest
      → All (Drawn w h) (with_value gust (λ g. dot (x t) (y g) fill ∷ rest) rest)
  Drawn-gust t none rest b a = a
  Drawn-gust t (some g) rest b a = (place (record { t = t; v = g }) b, a)

  All-gust_dots :
      (ps : List (Point (Wind ℤ)))
      → All (Windy window top) ps
      → All (Drawn w h) (gust_dots x y fill ps)
  unfolding gust_dots
  All-gust_dots [] a = tt
  All-gust_dots (p ∷ ps) (b, a) =
      Drawn-gust p.t p.v.gust (gust_dots x y fill ps) b.1 (All-gust_dots ps a)

module _ (d3 : D3) (l : IsD3 d3) (w h : ℤ) (w_pos : pos 0 ≤ℤ w) (h_pos : pos 0 ≤ℤ h) where
  -- A wind chart with points draws inside of its drawing, whose width and height are not negative: if d3
  -- keeps what it promises, the points lie in the window that the server gave, where it gave one, and no
  -- speed and no gust is negative, then the middles of the dots of the gusts, the points of the line of
  -- the speed, the rectangles of the shading and the middles of their labels lie in the drawing.
  pub speed_scene-Drawn :
      (dark : Bool) (chart : WindChart (Wind ℤ) Share) (p : Point (Wind ℤ))
      (ps : List (Point (Wind ℤ)))
      → InWindow chart.from chart.to (p ∷ ps)
      → AllUnsigned (p ∷ ps)
      → All (Drawn w h) (speed_scene d3 dark (record chart { data_ = p ∷ ps }) w h)
  unfolding speed_scene axes pointer_parts wind_top
  speed_scene-Drawn dark chart p ps inside speeds =
      let c = theme_colors dark in
      let points = p ∷ ps in
      let values = map (λ (p : Point (Wind ℤ)). strongest p.v) points in
      let m = d3.greatest values in
      let greatest = l.greatest values in
      let top = wind_top d3.one d3.greatest points in
      let window = domain_of d3 chart.from chart.to points in
      let inner =
        All-Windy d3.one m window.0 window.1 points l.positive
          (All-domain_of d3 l chart.from chart.to points inside) speeds greatest in
      let place =
        Inner-InArea d3 l w h w_pos h_pos chart.from chart.to points (pos 0, top) 10
          (wind_top-positive d3.one m p.v.speed p.v.gust l.positive speeds.0.0 greatest.0) in
      (
        tt,
        All-append (Drawn w h) _ _
            (All-shading d3 l w h w_pos h_pos c dark chart.from chart.to p ps inside)
            (All-append (Drawn w h) _ _ (All-gust_dots w h window top _ _ c.gust place points inner)
              (All-append (Drawn w h) _ _
                (All-paths d3 l w h w_pos h_pos (Windy window top) _
                  (λ v. d3.linear (pos 0, top) h (v.speed *ℤ 10)) c.speed_line points
                  (λ q k. place (record { t = q.t; v = q.v.speed }) k.0) inner)
                (tt, (tt, (tt, (tt, (tt, tt))))))),
      )
