-- ===== src/Charts/Tests.antt =====
-- The theorems on the charts at concrete inputs.
mod Drawing
mod Rendering
use voria.Prelude.{ℕ, ◌≤◌, ◌≡◌, none, some, [], ◌∷◌, ◌++◌, List, arith, length}
use voria.Prelude.Text.{codes}
use voria.Charts.Segments.{Point, inner_regions, get_no_data_regions, split_into_segments}
use voria.Charts.Segments.Gaps.{
  joined, joined-split_into_segments, AllUnbroken, split_into_segments-AllUnbroken, between,
  between-split_into_segments,
}
use voria.Charts.Segments.Outside.{AllOutside, AllOutside-get_no_data_regions}
use voria.Charts.Data.{append_point, max_points}
use voria.Charts.Data.Bounds.{IsWindow, append_point-IsWindow}
use voria.Charts.Multi.{MultiLineChart, multi_line_chart_append}
use voria.Charts.Multi.Bounds.{AllBounded, ids, AllBounded-multi_line_chart_append}

-- Two points a minute apart, and one an hour later.
abbrev pub early : Point ℕ
early = record { t = 60000; v = 20 }

abbrev pub later : List (Point ℕ)
later = record { t = 120000; v = 21 } ∷ record { t = 3720000; v = 19 } ∷ []

abbrev pub points : List (Point ℕ)
points = early ∷ later

abbrev newest : Point ℕ
newest = record { t = 3780000; v = 18 }

joined-split_into_segments_example : joined (split_into_segments points) ≡ points
joined-split_into_segments_example = joined-split_into_segments points

split_into_segments-AllUnbroken_example : AllUnbroken (split_into_segments points)
split_into_segments-AllUnbroken_example = split_into_segments-AllUnbroken points

between-split_into_segments_example :
    between (split_into_segments (early ∷ later)) ≡ inner_regions early later
between-split_into_segments_example = between-split_into_segments early later

AllOutside-get_no_data_regions_example : AllOutside points (get_no_data_regions points 0 4000000)
AllOutside-get_no_data_regions_example =
    AllOutside-get_no_data_regions points 0 4000000 (omega arith, (omega arith, tt))

abbrev pub chart : MultiLineChart ℕ
chart = record {
  series =
      record { id = codes "a"; name = codes "A"; data_ = points; color = codes "red" }
      ∷ record { id = codes "b"; name = codes "B"; data_ = []; color = codes "blue" }
      ∷ [];
  unit = codes "mm";
  from = none;
  to = none;
  renders = 0;
}
