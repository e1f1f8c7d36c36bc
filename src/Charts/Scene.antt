-- ===== src/Charts/Scene.antt =====
-- What the charts draw with d3 (the parts of render that the charts of assets/js/hooks/d3_charts.js
-- have in common): elements of an `svg`, in pixels. The scales of d3, its axes and its extremes of a
-- list are parameters; the domain of a linear scale, and what it is applied to, are in one unit.
use voria.Prelude.{ℕ, Bool, Option, List, [], ◌∷◌, map, with_value}
use voria.Prelude.Int.{ℤ}
use voria.Prelude.Text.{Text}
use voria.Charts.Segments.{Point, Shape, get_no_data_regions, render_no_data_regions}
use voria.Charts.Theme.{Colors}
use voria.Charts.Layout.{margins, tick_count, x_domain}

-- A `path` has its points; its width is in tenths of a pixel. A `bar` has the middle of its foot, and its
-- width in tenths. The catcher of the pointer and the line under it are at the drawing's margins.
pub data Element : Type 0 where
  grid : (length : ℤ) (stroke : Text) → Element
  shade : Shape → Element
  area : (fill : Text) (base : ℤ) (points : List (ℤ × ℤ)) → Element
  path : (stroke : Text) (width : ℕ) (points : List (ℤ × ℤ)) → Element
  dot : (x y : ℤ) (fill : Text) → Element
  bar : (x y : ℤ) (width height : ℤ) (fill : Text) → Element
  x_axis : (y : ℤ) (ticks : ℕ) (fill : Text) → Element
  y_axis : (ticks : ℕ) (unit fill : Text) → Element
  axis_strokes : (stroke : Text) → Element
  legend : (x : ℤ) (speed gust text : Text) → Element
  hover_line : (stroke : Text) (y1 : ℕ) (height : ℤ) → Element
  catcher : (x y : ℕ) (width height : ℤ) → Element

-- What the code uses of d3: `scaleTime` and a nice `scaleLinear`, each by its domain and the other end
-- of its range (the linear one falls from there to 0), min, max and extent; and the small unit of the
-- values, of which `one` make a 1.
pub record D3 : Type 0 where
  pub one : ℕ
  pub time : ℕ × ℕ → ℤ → ℕ → ℤ
  pub linear : ℤ × ℤ → ℤ → ℤ → ℤ
  pub earliest : List ℕ → ℕ
  pub latest : List ℕ → ℕ
  pub extent : List ℤ → ℤ × ℤ
  pub greatest : List ℤ → ℤ
  pub greatest_share : List ℕ → Option ℕ

abbrev pub times {ℓ} : {V : Type ℓ} → List (Point V) → List ℕ
times ps = map (λ p. p.t) ps

module _ (d3 : D3) where
  -- `xScale`
  unfoldable pub x_scale {ℓ} : {V : Type ℓ} → Option ℕ → Option ℕ → List (Point V) → ℤ → ℕ → ℤ
  x_scale from to parsed w =
      d3.time (x_domain (λ ps. d3.earliest (times ps)) (λ ps. d3.latest (times ps)) from to parsed)
        w

  -- The shading, if the server gave a window. A missing end counts as 0 in the difference.
  unfoldable pub shading {ℓ} :
      {V : Type ℓ}
      → Colors
      → Bool
      → Option ℕ
      → Option ℕ
      → List (Point V)
      → (ℕ → ℤ)
      → ℤ
      → List Element
  shading c dark from to parsed x h =
      with_value from
        (λ start. map shade (
          render_no_data_regions x h c.no_data dark
            (get_no_data_regions parsed start (with_value to (λ t. t) 0))))
        []

-- The points of a line, by the two scales.
unfoldable pub placed {ℓ} : {V : Type ℓ} → (ℕ → ℤ) → (V → ℤ) → List (Point V) → List (ℤ × ℤ)
placed x y ps = map (λ p. (x p.t, y p.v)) ps

-- The two axes, and what is laid over the drawing for the pointer.
unfoldable pub axes : Colors → ℤ → ℤ → Text → List Element
axes c w h unit = x_axis h (tick_count w) c.axis ∷ y_axis 5 unit c.axis ∷ []

unfoldable pub pointer_parts : Colors → ℤ → ℤ → List Element
unfolding margins
pointer_parts c w h = hover_line c.axis margins.top h ∷ catcher margins.left margins.top w h ∷ []
