-- ===== src/Charts/Theme.antt =====
-- The colours of the charts and the labels of their time axis (isDark, themeColors, xTickFormat and
-- formatTime of assets/js/hooks/d3_charts.js).
use voria.Prelude.{ℕ, Bool, not, ◌&&◌, ◌||◌, ◌∷◌, ◌++◌, ◌==◌, if◌then◌else◌}
use voria.Prelude.Text.{Text, codes, text_eq, decimal, pad_start}

-- The page's theme attribute, and whether the system prefers dark colours.
unfoldable pub is_dark : Text → Bool → Bool
is_dark theme prefers_dark =
    text_eq theme (codes "dark") || (not (text_eq theme (codes "light")) && prefers_dark)

pub record Colors : Type 0 where
  pub line : Text
  pub area : Text
  pub gust : Text
  pub rain : Text
  pub grid : Text
  pub axis : Text
  pub tooltip_bg : Text
  pub tooltip_border : Text
  pub rose_fill : Text
  pub rose_stroke : Text
  pub speed_line : Text
  pub no_data : Text

unfoldable pub theme_colors : Bool → Colors
theme_colors dark = record {
  line = codes (if dark then "#818cf8" else "#6366f1");
  area = codes (if dark then "rgba(99,102,241,0.12)" else "rgba(99,102,241,0.08)");
  gust = codes (if dark then "#f97316" else "#ea580c");
  rain = codes (if dark then "#38bdf8" else "#0284c7");
  grid = codes (if dark then "rgba(255,255,255,0.07)" else "rgba(0,0,0,0.06)");
  axis = codes (if dark then "rgba(255,255,255,0.45)" else "rgba(0,0,0,0.45)");
  tooltip_bg = codes (if dark then "#1e1e2e" else "#ffffff");
  tooltip_border = codes (if dark then "#3f3f5a" else "#e2e8f0");
  rose_fill = codes (if dark then "rgba(99,102,241,0.65)" else "rgba(99,102,241,0.55)");
  rose_stroke = codes (if dark then "#818cf8" else "#6366f1");
  speed_line = codes (if dark then "#34d399" else "#059669");
  no_data = codes (if dark then "rgba(255,255,255,0.06)" else "rgba(0,0,0,0.05)");
}

-- What the methods of a `Date` give in the local time zone; `month` is its short name.
pub record LocalDate : Type 0 where
  pub hours : ℕ
  pub minutes : ℕ
  pub day : ℕ
  pub month : Text

clock : LocalDate → Text
clock d = pad_start 2 b'0' (decimal d.hours) ++ b':' ∷ pad_start 2 b'0' (decimal d.minutes)

unfoldable pub format_time : LocalDate → Text
unfolding clock
format_time d = decimal d.day ++ b' ' ∷ d.month ++ b' ' ∷ clock d

unfoldable pub x_tick_format : LocalDate → Text
unfolding clock
x_tick_format d =
    if d.hours == 0 && d.minutes == 0 then decimal d.day ++ b' ' ∷ d.month else clock d
