-- ===== src/Charts/Multi.antt =====
-- The comparison of several stations (MultiLineChart of assets/js/hooks/d3_charts.js). `renders`
-- counts the calls of render.
pub mod Bounds
pub mod Render
pub mod Live
use voria.Prelude.{
  ℕ, ◌+◌, Bool, true, false, ◌||◌, ◌≡◌, refl, Option, none, some, List, [], ◌∷◌, ◌++◌, map, length,
  if◌then◌else◌, with_value,
}
use voria.Prelude.Text.{Text, text_eq}
use voria.Charts.Segments.{Point}
use voria.Charts.Data.{since, trim, slid}

pub record Series {ℓ} (V : Type ℓ) : Type ℓ where
  pub id : Text
  pub name : Text
  pub data_ : List (Point V)
  pub color : Text

pub record MultiLineChart {ℓ} (V : Type ℓ) : Type ℓ where
  pub series : List (Series V)
  pub unit : Text
  pub from : Option ℕ
  pub to : Option ℕ
  pub renders : ℕ

module _ {ℓ} {V : Type ℓ} where
  unfoldable pub multi_line_chart_data :
      MultiLineChart V → List (Series V) → Text → Option ℕ → Option ℕ → MultiLineChart V
  multi_line_chart_data c series unit from to = record {
    series = series;
    unit = unit;
    from = from;
    to = to;
    renders = c.renders + 1;
  }

  -- `this.series.find((s) => s.id === id)`, with the point pushed to the series that is found.
  unfoldable pub push_to : Text → Point V → List (Series V) → Option (List (Series V))
  push_to id p [] = none
  push_to id p (s ∷ ss) =
      let rest = push_to id p ss in
      if text_eq s.id id
      then some (record s { data_ = s.data_ ++ p ∷ [] } ∷ ss)
      else with_value rest (λ found. some (s ∷ found)) none

  unfoldable pub since_series : Option ℕ → Series V → Series V
  since_series none s = s
  since_series (some from) s = record s { data_ = since from s.data_ }

  unfoldable pub trim_series : Series V → Series V
  trim_series s = record s { data_ = trim s.data_ }

  -- A point of an unknown series changes nothing.
  unfoldable pub multi_line_chart_append :
      MultiLineChart V → Text → Point V → Option ℕ → Option ℕ → MultiLineChart V
  unfolding since_series trim_series
  multi_line_chart_append c id p from to =
      with_value (push_to id p c.series)
        (λ pushed. record c {
          series = map trim_series (map (since_series from) pushed);
          from = slid from from c.from;
          to = slid from to c.to;
          renders = c.renders + 1;
        })
        c
