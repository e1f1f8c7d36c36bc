-- ===== src/Charts/Pointer.antt =====
-- The tooltip at the pointer (the "mousemove" and "mouseleave" handlers of the four charts,
-- makeTooltip and positionTooltip of assets/js/hooks/d3_charts.js). `bisect` is the left bisector of
-- d3 by the points' times, from an index on, and `invert` the instant that the axis has at a pixel.
pub mod Nearest
pub mod Lines
use voria.Prelude.{
  ℕ, ◌-◌, Bool, true, false, Option, none, some, List, [], ◌∷◌, ◌++◌, ltb, min, length, get_elem?,
  if◌then◌else◌, with_value,
}
use voria.Prelude.Int.{ℤ, pos, ◌+ℤ◌, ◌-ℤ◌}
use voria.Prelude.Text.{Text, codes}
use voria.Charts.Segments.{Point}
use voria.Charts.Theme.{Colors, LocalDate, format_time}
use voria.Charts.Multi.{Series}

-- The line under the pointer and the tooltip.
pub record Hover : Type 0 where
  pub line_x : ℤ
  pub line_shown : Bool
  pub tip_shown : Bool
  pub background : Text
  pub border : Text
  pub html : Text
  pub left : ℤ
  pub top : ℤ

-- What render makes: nothing is shown, and the tooltip has no text and no place yet.
unfoldable pub make_tooltip : Hover
make_tooltip = record {
  line_x = pos 0;
  line_shown = false;
  tip_shown = false;
  background = [];
  border = [];
  html = [];
  left = pos 0;
  top = pos 0;
}

-- A "mousemove": the pointer on the drawing (d3.pointer) and in the window, and where the chart's
-- element begins there.
pub record Pointer : Type 0 where
  pub mx : ℤ
  pub client_x : ℤ
  pub client_y : ℤ
  pub rect_left : ℤ
  pub rect_top : ℤ

unfoldable pub position_tooltip : Hover → Pointer → Hover
position_tooltip h e = record h {
  left = (e.client_x -ℤ e.rect_left) +ℤ pos 14;
  top = (e.client_y -ℤ e.rect_top) -ℤ pos 28;
}

-- The line and the tooltip with its text.
unfoldable pub show_tooltip : Colors → Text → Pointer → Hover → Hover
show_tooltip c html e h =
    position_tooltip
      (record h {
        line_x = e.mx;
        line_shown = true;
        tip_shown = true;
        background = c.tooltip_bg;
        border = codes "1px solid " ++ c.tooltip_border;
        html = html;
      })
      e

unfoldable pub hide_tooltip : Hover → Hover
hide_tooltip h = record h { tip_shown = false; line_shown = false }

-- The left margin of the drawing.
abbrev pub margin_left : ℕ
margin_left = 72

-- What a tooltip shows of a value, which the number's conversion to text is a parameter of.
pub record Wind {ℓ} (R : Type ℓ) : Type ℓ where
  pub speed : R
  pub gust : Option R

module _ {ℓ} {R : Type ℓ} (number : R → Text) (local : ℕ → LocalDate) (unit : Text) where
  tip : Text → ℕ → Text
  tip bold t =
      codes "<strong>"
      ++ (bold
          ++ (codes "</strong><br/><span style=\"opacity:0.65\">"
              ++ (format_time (local t) ++ codes "</span>")))

  unfoldable pub value_html : Point R → Text
  unfolding tip
  value_html d = tip (number d.v ++ b' ' ∷ unit) d.t

  gust_str : Option R → Text
  gust_str none = []
  gust_str (some gust) = codes " / gust " ++ (number gust ++ b' ' ∷ unit)

  unfoldable pub wind_html : Point (Wind R) → Text
  unfolding tip gust_str
  wind_html d = tip (number d.v.speed ++ (b' ' ∷ unit ++ gust_str d.v.gust)) d.t

module _ {ℓ} {V : Type ℓ} (bisect : List (Point V) → ℕ → ℕ → ℕ) where
  -- `parsed[Math.min(bisect(parsed, x0, 1), parsed.length - 1)]`
  unfoldable pub hovered : List (Point V) → ℕ → Option (Point V)
  hovered parsed x0 = get_elem? parsed (min (bisect parsed x0 1) (length parsed - 1))

  module _ (invert : ℤ → ℕ) where
    -- What the handlers of the charts with one line share.
    unfoldable pub pointer_moved :
        Colors → (Point V → Text) → List (Point V) → Pointer → Hover → Hover
    pointer_moved c html parsed e h =
        with_value (hovered parsed (invert (e.mx -ℤ pos margin_left)))
          (λ d. show_tooltip c (html d) e h) h

-- The handlers of the charts with one line each.
module _ {ℓ} {R : Type ℓ} (invert : ℤ → ℕ) (number : R → Text) (local : ℕ → LocalDate) (unit : Text)
    (c : Colors) where
  unfoldable pub line_pointer_moved :
      (List (Point R) → ℕ → ℕ → ℕ) → List (Point R) → Pointer → Hover → Hover
  line_pointer_moved bisect parsed e h =
      pointer_moved bisect invert c (value_html number local unit) parsed e h

  unfoldable pub wind_pointer_moved :
      (List (Point (Wind R)) → ℕ → ℕ → ℕ) → List (Point (Wind R)) → Pointer → Hover → Hover
  wind_pointer_moved bisect parsed e h =
      pointer_moved bisect invert c (wind_html number local unit) parsed e h

  unfoldable pub rain_pointer_moved :
      (List (Point R) → ℕ → ℕ → ℕ) → List (Point R) → Pointer → Hover → Hover
  rain_pointer_moved bisect parsed e h =
      pointer_moved bisect invert c (value_html number local unit) parsed e h

-- An element of `tooltipData`.
pub record Entry {ℓ} (V : Type ℓ) : Type ℓ where
  pub name : Text
  pub value : V
  pub color : Text
  pub t : ℕ

unfoldable pub entry_of {ℓ} : {V : Type ℓ} → Series V → Point V → Entry V
entry_of s d = record { name = s.name; value = d.v; color = s.color; t = d.t }

module _ {ℓ} {V : Type ℓ} (bisect : List (Point V) → ℕ → ℕ → ℕ) where
  -- The loop over the series of the chart with several lines.
  unfoldable pub tooltip_data : List (Series V) → ℕ → List (Entry V)
  tooltip_data [] x0 = []
  tooltip_data (s ∷ ss) x0 =
      let rest = tooltip_data ss x0 in
      if ltb 0 (length s.data_)
      then with_value (hovered bisect s.data_ x0) (λ d. entry_of s d ∷ rest) rest
      else rest

module _ {ℓ} {V : Type ℓ} (number : V → Text) (local : ℕ → LocalDate) (unit : Text) where
  entry_html : Entry V → Text
  entry_html d =
      codes
        "<div style=\"display:flex;align-items:center;gap:6px;margin-bottom:4px;\">\n                <div style=\"width:10px;height:10px;border-radius:50%;background-color:"
      ++ (d.color
          ++ (codes ";flex-shrink:0;\"></div>\n                <div>\n                  <strong>"
              ++ (number d.value
                  ++ (b' ' ∷ unit
                      ++ (codes
                            "</strong>\n                  <br/>\n                  <span style=\"opacity:0.65;font-size:11px;\">"
                          ++ (d.name
                              ++ codes "</span>\n                </div>\n              </div>"))))))

  entries_html : List (Entry V) → Text
  entries_html [] = []
  entries_html (d ∷ ds) = entry_html d ++ entries_html ds

  -- The text for the entries; there is a first one.
  unfoldable pub multi_html : Entry V → List (Entry V) → Text
  unfolding entry_html entries_html
  multi_html d ds =
      entries_html (d ∷ ds)
      ++ (codes "<div style=\"margin-top:4px;font-size:10px;opacity:0.65;\">"
          ++ (format_time (local d.t) ++ codes "</div>"))

module _ {ℓ} {V : Type ℓ} (bisect : List (Point V) → ℕ → ℕ → ℕ) (invert : ℤ → ℕ) (number : V → Text)
    (local : ℕ → LocalDate) where
  shown_entries : Colors → Text → List (Entry V) → Pointer → Hover → Hover
  shown_entries c unit [] e h = h
  shown_entries c unit (d ∷ ds) e h = show_tooltip c (multi_html number local unit d ds) e h

  -- The handler of the chart with several lines.
  unfoldable pub multi_pointer_moved : Colors → Text → List (Series V) → Pointer → Hover → Hover
  unfolding shown_entries
  multi_pointer_moved c unit series e h =
      shown_entries c unit (tooltip_data bisect series (invert (e.mx -ℤ pos margin_left))) e h
