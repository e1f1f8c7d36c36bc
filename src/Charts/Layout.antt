-- ===== src/Charts/Layout.antt =====
-- The sizes and the scales of the charts (margins and the numbers that render gives to d3 in
-- assets/js/hooks/d3_charts.js). Pixels are whole; a value is a whole multiple of a small unit, of
-- which `one` make a 1. `earliest`, `latest`, `extent` and `max_of` are d3's min, max and extent.
pub mod Inside
use voria.Prelude.{
  ℕ, ◌+◌, ◌*◌, ◌-◌, ◌/◌, ◌==◌, ◌&&◌, Bool, true, false, Option, none, some, List, [], ◌∷◌, ltb, min,
  max, map, if◌then◌else◌, with_value,
}
use voria.Prelude.Int.{ℤ, pos, sub_ℕ, ◌-ℤ◌, ◌+ℤ◌, ◌*ℤ◌, leb_ℤ, max_ℤ}
use voria.Charts.Segments.{Point}
use voria.Charts.Pointer.{Wind}

pub record Margins : Type 0 where
  pub top : ℕ
  pub right : ℕ
  pub bottom : ℕ
  pub left : ℕ

unfoldable pub margins : Margins
margins = record { top = 16; right = 24; bottom = 36; left = 72 }

pub record Size : Type 0 where
  pub width : ℕ
  pub height : ℕ

-- `this.el.clientWidth || d`
unfoldable pub or_default : ℕ → ℕ → ℕ
or_default n d = if n == 0 then d else n

-- The size of a chart, and that of its drawing, which is negative where the margins do not fit.
unfoldable pub chart_size : Size → Size
unfolding or_default
chart_size client = record {
  width = or_default client.width 600;
  height = or_default client.height 280;
}

unfoldable pub inner_w : ℕ → ℤ
unfolding margins
inner_w w = sub_ℕ w (margins.left + margins.right)

unfoldable pub inner_h : ℕ → ℤ
unfolding margins
inner_h h = sub_ℕ h (margins.top + margins.bottom)

-- The two parts of the wind chart: above one another on a narrow page, else side by side.
pub record WindLayout : Type 0 where
  pub mobile : Bool
  pub speed : Size
  pub rose : Size

unfoldable pub wind_layout : Size → WindLayout
unfolding or_default
wind_layout client =
    let total_w = or_default client.width 700 in
    let h = or_default client.height 280 in
    let line_h = h * 55 / 100 in
    let rose_w = min 220 (total_w * 28 / 100) in
    if ltb total_w 500
    then record {
      mobile = true;
      speed = record { width = total_w; height = line_h };
      rose = record { width = total_w; height = h - line_h };
    }
    else record {
      mobile = false;
      speed = record { width = total_w - rose_w; height = h };
      rose = record { width = rose_w; height = h };
    }

module _ {ℓ} {V : Type ℓ} (earliest latest : List (Point V) → ℕ) where
  -- The window that the server gave, or else the extent of the points.
  unfoldable pub x_domain : Option ℕ → Option ℕ → List (Point V) → ℕ × ℕ
  x_domain from to parsed =
      (with_value from (λ t. t) (earliest parsed), with_value to (λ t. t) (latest parsed))

-- The domain of the values, in tenths of the small unit: a tenth of the extent is left free on both
-- sides, or a 1 if all values are the same.
unfoldable pub y_domain : ℕ → (List ℤ → ℤ × ℤ) → List (Point ℤ) → ℤ × ℤ
y_domain one extent parsed =
    let (min_v, max_v) = extent (map (λ (d : Point ℤ). d.v) parsed) in
    let span = max_v -ℤ min_v in
    let pad = if leb_ℤ max_v min_v && leb_ℤ min_v max_v then pos (one * 10) else span in
    (min_v *ℤ 10 -ℤ pad, max_v *ℤ 10 +ℤ pad)

-- `||` on a number.
is_zero : ℤ → Bool
is_zero n = leb_ℤ n (pos 0) && leb_ℤ (pos 0) n

-- The end of the domain of the rain, in hundredths of the small unit; it begins at 0.
unfoldable pub rain_top : ℕ → (List ℤ → ℤ) → List (Point ℤ) → ℤ
unfolding is_zero
rain_top one max_of parsed =
    let top = max_of (map (λ (d : Point ℤ). d.v) parsed) *ℤ 115 in
    if is_zero top then pos (one * 100) else top

-- `Math.max(d.speed, d.gust ?? 0)`
unfoldable pub strongest : Wind ℤ → ℤ
strongest w = max_ℤ w.speed (with_value w.gust (λ g. g) (pos 0))

-- The end of the domain of the wind, in tenths of the small unit; it begins at 0.
unfoldable pub wind_top : ℕ → (List ℤ → ℤ) → List (Point (Wind ℤ)) → ℤ
unfolding is_zero
wind_top one max_of parsed =
    let max_val = max_of (map (λ (d : Point (Wind ℤ)). strongest d.v) parsed) in
    if is_zero max_val then pos (one * 11) else max_val *ℤ 11

-- The number of marks that the time axis asks for: one for each 80 pixels, at least two.
unfoldable pub tick_count : ℤ → ℕ
tick_count (pos w) = max 2 (w / 80)
tick_count _ = 2

-- The width of a bar of rain, in tenths of a pixel: four fifths of the way between the first two
-- points, at least two pixels, and four if there is one point.
unfoldable pub bar_width {ℓ} : {V : Type ℓ} → (ℕ → ℤ) → List (Point V) → ℤ
bar_width x_scale (p ∷ q ∷ qs) = max_ℤ (pos 20) ((x_scale q.t -ℤ x_scale p.t) *ℤ 8)
bar_width x_scale _ = pos 40
