-- ===== src/Charts/Data.antt =====
-- The data of the charts: what LineChart, WindChart, RainChart and MultiLineChart of
-- assets/js/hooks/d3_charts.js do with the messages of the server. `renders` counts the calls of
-- render. A field of a message may be missing.
pub mod Bounds
use voria.Prelude.{
  ℕ, ◌+◌, Bool, true, false, not, Option, none, some, List, [], ◌∷◌, ◌++◌, ltb, leb, length,
  if◌then◌else◌,
}
use voria.Prelude.Text.{Text, text_eq}
use voria.Charts.Segments.{Point}

abbrev pub max_points : ℕ
max_points = 10000

module _ {ℓ} {V : Type ℓ} where
  -- `data.filter((d) => d.t >= from)`
  unfoldable pub since : ℕ → List (Point V) → List (Point V)
  since from [] = []
  since from (p ∷ ps) = let rest = since from ps in if leb from p.t then p ∷ rest else rest

  -- `data.shift()`
  unfoldable pub shift : List (Point V) → List (Point V)
  shift [] = []
  shift (p ∷ ps) = ps

  -- `if (data.length > 10000) data.shift()`
  unfoldable pub trim : List (Point V) → List (Point V)
  trim ps = if ltb max_points (length ps) then shift ps else ps

  since_start : Option ℕ → List (Point V) → List (Point V)
  since_start none ps = ps
  since_start (some from) ps = since from ps

  -- The points of a chart after one more: with a start, those before it go; then one if there are too
  -- many.
  unfoldable pub append_point : List (Point V) → Point V → Option ℕ → List (Point V)
  unfolding since_start
  append_point ps p from = trim (since_start from (ps ++ p ∷ []))

-- A start that is sent comes with an end; without a start, both stay.
unfoldable pub slid : Option ℕ → Option ℕ → Option ℕ → Option ℕ
slid none new old = old
slid (some from) new old = new

pub record LineChart {ℓ} (V : Type ℓ) : Type ℓ where
  pub id : Text
  pub data_ : List (Point V)
  pub unit : Text
  pub label : Text
  pub from : Option ℕ
  pub to : Option ℕ
  pub renders : ℕ

module _ {ℓ} {V : Type ℓ} where
  -- A message for another chart changes nothing.
  unfoldable pub line_chart_data :
      LineChart V → Text → List (Point V) → Text → Text → Option ℕ → Option ℕ → LineChart V
  line_chart_data c id points unit label from to = if not (text_eq id c.id) then c else record {
    id = c.id;
    data_ = points;
    unit = unit;
    label = label;
    from = from;
    to = to;
    renders = c.renders + 1;
  }

  unfoldable pub line_chart_append :
      LineChart V → Text → Point V → Option ℕ → Option ℕ → LineChart V
  line_chart_append c id p from to = if not (text_eq id c.id) then c else record c {
    data_ = append_point c.data_ p from;
    from = slid from from c.from;
    to = slid from to c.to;
    renders = c.renders + 1;
  }

-- `rose` is the distribution of the wind's directions.
pub record WindChart {ℓ κ} (V : Type ℓ) (Rose : Type κ) : Type (ℓ ⊔ κ) where
  pub data_ : List (Point V)
  pub rose : List Rose
  pub unit : Text
  pub from : Option ℕ
  pub to : Option ℕ
  pub renders : ℕ

or_old {ℓ} : {A : Type ℓ} → Option A → A → A
or_old none a = a
or_old (some b) a = b

module _ {ℓ κ} {V : Type ℓ} {Rose : Type κ} where
  unfoldable pub wind_chart_data :
      WindChart V Rose
      → List (Point V)
      → Text
      → Option (List Rose)
      → Option ℕ
      → Option ℕ
      → WindChart V Rose
  unfolding or_old
  wind_chart_data c points unit rose from to = record {
    data_ = points;
    rose = or_old rose [];
    unit = unit;
    from = from;
    to = to;
    renders = c.renders + 1;
  }

  unfoldable pub wind_chart_append :
      WindChart V Rose → Point V → Option (List Rose) → Option ℕ → Option ℕ → WindChart V Rose
  unfolding or_old
  wind_chart_append c p rose from to = record c {
    data_ = append_point c.data_ p from;
    rose = or_old rose c.rose;
    from = slid from from c.from;
    to = slid from to c.to;
    renders = c.renders + 1;
  }

pub record RainChart {ℓ} (V : Type ℓ) : Type ℓ where
  pub data_ : List (Point V)
  pub unit : Text
  pub from : Option ℕ
  pub to : Option ℕ
  pub renders : ℕ

module _ {ℓ} {V : Type ℓ} where
  unfoldable pub rain_chart_data :
      RainChart V → List (Point V) → Text → Option ℕ → Option ℕ → RainChart V
  rain_chart_data c points unit from to = record {
    data_ = points;
    unit = unit;
    from = from;
    to = to;
    renders = c.renders + 1;
  }

  unfoldable pub rain_chart_append : RainChart V → Point V → Option ℕ → Option ℕ → RainChart V
  rain_chart_append c p from to = record c {
    data_ = append_point c.data_ p from;
    from = slid from from c.from;
    to = slid from to c.to;
    renders = c.renders + 1;
  }
