-- ===== src/Charts/Segments.antt =====
-- The gaps of a chart (GAP_MS, getNoDataRegions, splitIntoSegments and renderNoDataRegions of
-- assets/js/hooks/d3_charts.js). A time is a number of milliseconds since 1970; the value of a point
-- is of any type.
pub mod Gaps
pub mod Outside
use voria.Prelude.{
  ℕ, suc, ◌+◌, ◌*◌, Bool, true, false, Option, none, some, List, [], ◌∷◌, ◌++◌, ltb, if◌then◌else◌,
  refl, ◌≡◌,
}
use voria.Prelude.Int.{ℤ, pos, ◌+ℤ◌, ◌-ℤ◌, ◌*ℤ◌, max_ℤ, leb_ℤ, ltb_ℤ}
use voria.Prelude.Text.{Text, codes}

pub record Point {ℓ} (V : Type ℓ) : Type ℓ where
  pub t : ℕ
  pub v : V

abbrev pub gap_ms : ℕ
gap_ms = 5 * 60 * 1000

-- `b - a > GAP_MS`
unfoldable pub is_gap : ℕ → ℕ → Bool
is_gap a b = ltb (a + gap_ms) b

pub record Region : Type 0 where
  pub start : ℕ
  pub end : ℕ

module _ {ℓ} {V : Type ℓ} where
  -- The loop over the neighbours.
  unfoldable pub inner_regions : Point V → List (Point V) → List Region
  inner_regions p [] = []
  inner_regions p (q ∷ qs) =
      let rest = inner_regions q qs in
      if is_gap p.t q.t then record { start = p.t; end = q.t } ∷ rest else rest

  -- `parsed[parsed.length - 1]`
  unfoldable pub last_point : Point V → List (Point V) → Point V
  last_point p [] = p
  last_point p (q ∷ qs) = last_point q qs

  unfoldable pub get_no_data_regions : List (Point V) → ℕ → ℕ → List Region
  get_no_data_regions [] from to = record { start = from; end = to } ∷ []
  get_no_data_regions (p ∷ ps) from to =
      let z = last_point p ps in
      (if is_gap from p.t then record { start = from; end = p.t } ∷ [] else [])
      ++ (inner_regions p ps
          ++ (if is_gap z.t to then record { start = z.t; end = to } ∷ [] else []))

  -- `segments[segments.length - 1].push(p)`; there is always a segment.
  unfoldable pub push_last : List (List (Point V)) → Point V → List (List (Point V))
  push_last [] p = []
  push_last (s ∷ []) p = (s ++ p ∷ []) ∷ []
  push_last (s ∷ u ∷ ss) p = s ∷ push_last (u ∷ ss) p

  -- The loop, behind a point.
  unfoldable pub split_loop :
      List (List (Point V)) → Point V → List (Point V) → List (List (Point V))
  split_loop segments p [] = segments
  split_loop segments p (q ∷ qs) =
      split_loop (push_last (if is_gap p.t q.t then segments ++ [] ∷ [] else segments) q) q qs

  -- `segments.filter((s) => s.length > 0)`
  unfoldable pub non_empty : List (List (Point V)) → List (List (Point V))
  non_empty [] = []
  non_empty ([] ∷ ss) = non_empty ss
  non_empty ((p ∷ ps) ∷ ss) = (p ∷ ps) ∷ non_empty ss

  unfoldable pub split_into_segments : List (Point V) → List (List (Point V))
  split_into_segments [] = []
  split_into_segments (p ∷ ps) = non_empty (split_loop ((p ∷ []) ∷ []) p ps)

-- What is drawn for a region; the coordinates of a label are doubled.
pub data Shape : Type 0 where
  rect : (x y width height : ℤ) (fill : Text) → Shape
  label : (twice_x twice_y : ℤ) (fill : Text) → Shape

module _ (x_scale : ℕ → ℤ) (inner_h : ℤ) (no_data : Text) (dark : Bool) where
  unfoldable pub region_shapes : ℤ → ℤ → List Shape
  region_shapes x1 w =
      if leb_ℤ w (pos 0)
      then []
      else rect x1 (pos 0) w inner_h no_data
        ∷ (if ltb_ℤ (pos 64) w
            then label (x1 *ℤ 2 +ℤ w) inner_h
                (codes (if dark then "rgba(255,255,255,0.22)" else "rgba(0,0,0,0.18)"))
              ∷ []
            else [])

  -- All that was drawn before is taken away first.
  unfoldable pub render_no_data_regions : List Region → List Shape
  unfolding region_shapes
  render_no_data_regions [] = []
  render_no_data_regions (r ∷ rs) =
      let x1 = x_scale r.start in
      region_shapes x1 (max_ℤ (pos 0) (x_scale r.end -ℤ x1)) ++ render_no_data_regions rs
