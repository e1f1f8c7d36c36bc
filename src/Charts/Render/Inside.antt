-- ===== src/Charts/Render/Inside.antt =====
-- Nothing that the charts of one station draw from their data lies outside of their drawings.
use voria.Prelude.{ℕ, refl, Bool, Option, List, [], ◌∷◌, map, arith}
use voria.Prelude.Int.{ℤ, pos, ◌≤ℤ◌, ◌<ℤ◌, ◌*ℤ◌}
use voria.Prelude.Text.{Text}
use voria.Charts.Segments.{Point, split_into_segments}
use voria.Charts.Theme.{theme_colors}
use voria.Charts.Data.{LineChart}
use voria.Charts.Layout.{y_domain}
use voria.Charts.Layout.Inside.{AllInside, y_domain-AllInside}
use voria.Charts.Scene.{area, path, D3, x_scale, placed, pointer_parts}
use voria.Charts.Render.{line_scene}
use voria.Charts.Render.Area.{
  All, All-append, All-map, All-weaken, All-segments, InArea, Drawn, IsD3,
}
use voria.Charts.Render.Window.{Between, InWindow, domain_of, All-domain_of}
use voria.Charts.Render.Shading.{x_scale-in, All-shading}

-- A point between the ends of both domains; the values are taken `factor` times.
abbrev pub Inner : ℕ × ℕ → ℤ × ℤ → ℕ → Point ℤ → Type 0
Inner window domain factor p =
    Between window.0 window.1 p.t × (domain.0 ≤ℤ p.v *ℤ factor) × (p.v *ℤ factor ≤ℤ domain.1)

module _ (d3 : D3) (l : IsD3 d3) (w h : ℤ) (w_pos : pos 0 ≤ℤ w) (h_pos : pos 0 ≤ℤ h) where
  All-placed :
      {V : Type 0} (P : Point V → Type 0) (x : ℕ → ℤ) (y : V → ℤ) (ps : List (Point V))
      → ((p : Point V) → P p → InArea w h (x p.t, y p.v))
      → All P ps
      → All (InArea w h) (placed x y ps)
  unfolding placed
  All-placed P x y ps f a = All-map (InArea w h) (λ p. (x p.t, y p.v)) ps (All-weaken P _ ps f a)

  -- A line through the segments.
  pub All-paths :
      {V : Type 0} (P : Point V → Type 0) (x : ℕ → ℤ) (y : V → ℤ) (stroke : Text)
      (ps : List (Point V))
      → ((p : Point V) → P p → InArea w h (x p.t, y p.v))
      → All P ps
      → All
          (Drawn w h)
          (map (λ (seg : List (Point V)). path stroke 15 (placed x y seg)) (split_into_segments ps))
  All-paths P x y stroke ps f a =
      All-map (Drawn w h) (λ seg. path stroke 15 (placed x y seg)) (split_into_segments ps)
        (All-weaken (All P) _ (split_into_segments ps) (λ seg. All-placed P x y seg f)
          (All-segments P ps a))

  All-areas :
      {V : Type 0} (P : Point V → Type 0) (x : ℕ → ℤ) (y : V → ℤ) (fill : Text)
      (ps : List (Point V))
      → ((p : Point V) → P p → InArea w h (x p.t, y p.v))
      → All P ps
      → All
          (Drawn w h)
          (map (λ (seg : List (Point V)). area fill h (placed x y seg)) (split_into_segments ps))
  All-areas P x y fill ps f a =
      All-map (Drawn w h) (λ seg. area fill h (placed x y seg)) (split_into_segments ps)
        (All-weaken (All P) _ (split_into_segments ps) (λ seg b. (refl, All-placed P x y seg f b))
          (All-segments P ps a))

  All-Inner :
      (window : ℕ × ℕ) (domain : ℤ × ℤ) (ps : List (Point ℤ))
      → All (λ p. Between window.0 window.1 p.t) ps
      → AllInside domain ps
      → All (Inner window domain 10) ps
  All-Inner window domain [] a b = tt
  All-Inner window domain (p ∷ ps) a (low, high, b) =
      ((a.0, omega arith, omega arith), All-Inner window domain ps a.1 b)

  pub Inner-InArea :
      {V : Type 0} (from to : Option ℕ) (ps : List (Point V)) (domain : ℤ × ℤ) (factor : ℕ)
      → domain.0 <ℤ domain.1
      → (p : Point ℤ) → Inner (domain_of d3 from to ps) domain factor p
      → InArea w h (x_scale d3 from to ps w p.t, d3.linear domain h (p.v *ℤ factor))
  Inner-InArea from to ps domain factor lt p (t, low, high) =
      let (x0, x1) = x_scale-in d3 l w h w_pos h_pos from to ps p.t t in
      let (y0, y1) = l.linear domain.0 domain.1 h (p.v *ℤ factor) low high lt h_pos in
      (x0, x1, y0, y1)

  -- A line chart with points draws inside of its drawing, whose width and height are not negative: if d3
  -- keeps what it promises, and the points lie in the window that the server gave, where it gave one,
  -- then the points of the line and of the areas lie in the drawing, the areas reach down to its floor,
  -- and the rectangles of the shading and the middles of their labels lie in it.
  pub line_scene-Drawn :
      (dark : Bool) (chart : LineChart ℤ) (p : Point ℤ) (ps : List (Point ℤ))
      → InWindow chart.from chart.to (p ∷ ps)
      → All (Drawn w h) (line_scene d3 dark (record chart { data_ = p ∷ ps }) w h)
  unfolding line_scene pointer_parts
  line_scene-Drawn dark chart p ps inside =
      let c = theme_colors dark in
      let points = p ∷ ps in
      let domain = y_domain d3.one d3.extent points in
      let window = domain_of d3 chart.from chart.to points in
      let values = y_domain-AllInside d3.one d3.extent l.positive l.extent p ps in
      let lt : domain.0 <ℤ domain.1 = omega (arith, values.0, values.1) in
      let inner =
        All-Inner window domain points (All-domain_of d3 l chart.from chart.to points inside)
          values in
      let place = Inner-InArea chart.from chart.to points domain 10 lt in
      (
        tt,
        All-append (Drawn w h) _ _
            (All-shading d3 l w h w_pos h_pos c dark chart.from chart.to p ps inside)
            (All-append (Drawn w h) _ _
              (All-areas (Inner window domain 10) _ _ c.area points place inner)
              (All-append (Drawn w h) _ _
                (All-paths (Inner window domain 10) _ _ c.line points place inner)
                (tt, (tt, (tt, (tt, (tt, tt))))))),
      )
