-- ===== src/Charts/Render/Shading.antt =====
-- The shading of a chart stays in its drawing.
use voria.Prelude.{ℕ, Bool, Option, none, some, List, [], ◌∷◌, arith, if_both}
use voria.Prelude.Int.{
  ℤ, pos, ◌≤ℤ◌, ◌+ℤ◌, ◌-ℤ◌, ◌*ℤ◌, max_ℤ, leb_ℤ, ltb_ℤ, int_laws, max_ℤ_cases, -ℤ_parts, +ℤ_parts,
}
use voria.Prelude.Text.{Text}
use voria.Charts.Segments.{Point, Region, rect, label, region_shapes, render_no_data_regions}
use voria.Charts.Theme.{Colors}
use voria.Charts.Layout.{x_domain}
use voria.Charts.Scene.{shade, D3, times, x_scale, shading}
use voria.Charts.Render.Area.{All, All-append, All-map, ShapeInArea, Drawn, IsD3}
use voria.Charts.Render.Window.{
  Between, RegionBetween, InWindow, end-within, domain_of, All-domain_of,
  get_no_data_regions-Between,
}

module _ (w h : ℤ) (h_pos : pos 0 ≤ℤ h) where
  ShapeInArea-rect :
      (x width : ℤ)
      → pos 0 ≤ℤ x
      → pos 0 ≤ℤ width
      → x +ℤ width ≤ℤ w
      → ShapeInArea w h (rect x (pos 0) width h [])
  ShapeInArea-rect x width a b c = (
    (a, omega int_laws, omega arith, h_pos),
    (omega int_laws, c, omega int_laws, omega int_laws),
    b,
  )

  ShapeInArea-label :
      (x width : ℤ)
      → pos 0 ≤ℤ x
      → pos 0 ≤ℤ width
      → x +ℤ width ≤ℤ w
      → ShapeInArea w h (label (x *ℤ 2 +ℤ width) h [])
  ShapeInArea-label x width a b c = (omega int_laws, omega int_laws, h_pos, omega int_laws)

  All-region_shapes :
      (x : ℕ → ℤ) (no_data : Text) (dark : Bool) (x1 width : ℤ)
      → pos 0 ≤ℤ x1
      → pos 0 ≤ℤ width
      → x1 +ℤ width ≤ℤ w
      → All (ShapeInArea w h) (region_shapes x h no_data dark x1 width)
  unfolding region_shapes
  All-region_shapes x no_data dark x1 width a b c =
      if_both (All (ShapeInArea w h)) (leb_ℤ width (pos 0)) tt (
        ShapeInArea-rect x1 width a b c,
        if_both (All (ShapeInArea w h)) (ltb_ℤ (pos 64) width)
            (ShapeInArea-label x1 width a b c, tt) tt,
      )

  All-render_no_data_regions :
      (x : ℕ → ℤ) (no_data : Text) (dark : Bool) (a b : ℕ) (rs : List Region)
      → ((t : ℕ) → Between a b t → (pos 0 ≤ℤ x t) × (x t ≤ℤ w))
      → All (RegionBetween a b) rs
      → All (ShapeInArea w h) (render_no_data_regions x h no_data dark rs)
  unfolding render_no_data_regions
  All-render_no_data_regions x no_data dark a b [] law inside = tt
  All-render_no_data_regions x no_data dark a b (r ∷ rs) law ((s, e), inside) =
      let start = law r.start s in
      let end_ = law r.end e in
      let cases = max_ℤ_cases (pos 0) (x r.end -ℤ x r.start) in
      All-append (ShapeInArea w h) _ _
        (All-region_shapes x no_data dark (x r.start) (max_ℤ (pos 0) (x r.end -ℤ x r.start)) start.0
          (ground (arith, cases))
          (ground (
            arith,
            cases,
            start,
            end_,
            -ℤ_parts (x r.end) (x r.start),
            +ℤ_parts (x r.start) (max_ℤ (pos 0) (x r.end -ℤ x r.start)),
          )))
        (All-render_no_data_regions x no_data dark a b rs law inside)

module _ {ℓ} {V : Type ℓ} (d3 : D3) (l : IsD3 d3) (w h : ℤ) (w_pos : pos 0 ≤ℤ w)
    (h_pos : pos 0 ≤ℤ h) where
  -- The time scale at the times of the domain.
  pub x_scale-in :
      (from to : Option ℕ) (ps : List (Point V)) (t : ℕ)
      → Between (domain_of d3 from to ps).0 (domain_of d3 from to ps).1 t
      → (pos 0 ≤ℤ x_scale d3 from to ps w t) × (x_scale d3 from to ps w t ≤ℤ w)
  unfolding x_scale
  x_scale-in from to ps t (a, b) = l.time _ _ w t a b w_pos

  pub All-shading :
      (c : Colors) (dark : Bool) (from to : Option ℕ) (p : Point V) (ps : List (Point V))
      → InWindow from to (p ∷ ps)
      → All (Drawn w h) (shading d3 c dark from to (p ∷ ps) (x_scale d3 from to (p ∷ ps) w) h)
  unfolding shading x_domain
  All-shading c dark none to p ps inside = tt
  All-shading c dark (some a) to p ps inside = All-map (Drawn w h) shade _ (
      All-render_no_data_regions w h h_pos _ c.no_data dark a (domain_of d3 (some a) to (p ∷ ps)).1
        _ (x_scale-in (some a) to (p ∷ ps))
        (get_no_data_regions-Between a _ _ p ps (end-within a (d3.latest (times (p ∷ ps))) to)
          (All-domain_of d3 l (some a) to (p ∷ ps) inside)))
