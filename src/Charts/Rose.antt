-- ===== src/Charts/Rose.antt =====
-- The wind rose (SECTORS_ORDER and _renderRose of WindChart in assets/js/hooks/d3_charts.js). Pixels
-- are whole; lengths are doubled, since the centre and the radius are halves of whole numbers. An
-- angle is in hundredths of a sixteenth of a turn. A share of the wind is a whole multiple of a small
-- unit, of which `one` make a percent. `max_of` is d3's max of a list.
pub mod Within
use voria.Prelude.{
  ℕ, suc, ◌+◌, ◌*◌, ◌==◌, Bool, true, false, Option, none, some, List, [], ◌∷◌, map, min, length,
  if◌then◌else◌, with_value,
}
use voria.Prelude.Int.{ℤ, pos, sub_ℕ, ◌+ℤ◌, ◌-ℤ◌, ◌*ℤ◌}
use voria.Prelude.Text.{Text, codes}
use voria.Entries.{get, set_entry}
use voria.Charts.Layout.{Size}

pub record Share : Type 0 where
  pub sector : Text
  pub pct : ℕ

abbrev pub sectors_order : List Text
sectors_order =
    codes "N"
    ∷ codes "NNE"
    ∷ codes "NE"
    ∷ codes "ENE"
    ∷ codes "E"
    ∷ codes "ESE"
    ∷ codes "SE"
    ∷ codes "SSE"
    ∷ codes "S"
    ∷ codes "SSW"
    ∷ codes "SW"
    ∷ codes "WSW"
    ∷ codes "W"
    ∷ codes "WNW"
    ∷ codes "NW"
    ∷ codes "NNW"
    ∷ []

-- A sector's bar: its radius is `twice_radius / (2 * parts)`.
pub record Bar : Type 0 where
  pub twice_radius : ℤ
  pub parts : ℕ
  pub start_angle : ℤ
  pub end_angle : ℤ

-- The middle of a name of the compass, from the middle of the drawing.
pub record Mark : Type 0 where
  pub name : Text
  pub twice_x : ℤ
  pub twice_y : ℤ

-- The rings have a radius of `twice_radius / 200`.
pub record Rose : Type 0 where
  pub rings : List ℤ
  pub calm : Bool
  pub bars : List Bar
  pub marks : List Mark

-- `size / 2 - 28`, doubled.
unfoldable pub twice_max_r : Size → ℤ
twice_max_r s = sub_ℕ (min s.width s.height) 56

-- `Object.fromEntries`: the last of several entries for a name stays.
unfoldable pub by_name : List (Text × ℕ) → List Share → List (Text × ℕ)
by_name entries [] = entries
by_name entries (d ∷ ds) = by_name (set_entry d.sector d.pct entries) ds

-- `d3.max(this.rose, (d) => d.pct) || 1`
unfoldable pub max_pct : ℕ → (List ℕ → Option ℕ) → List Share → ℕ
max_pct one max_of rose =
    let top = with_value (max_of (map (λ (d : Share). d.pct) rose)) (λ m. m) 0 in
    if top == 0 then one else top

-- The bar of the sector of this index.
unfoldable pub bar : ℤ → ℕ → List (Text × ℕ) → ℕ → Text → Bar
bar twice_r max_p entries i name =
    let pct = with_value (get name entries) (λ p. p) 0 in
    let angle = pos (i * 100) -ℤ pos 400 in
    record {
      twice_radius = twice_r *ℤ pct;
      parts = max_p;
      start_angle = angle -ℤ pos 38;
      end_angle = angle +ℤ pos 38;
    }

unfoldable pub bars_from : ℤ → ℕ → List (Text × ℕ) → ℕ → List Text → List Bar
bars_from twice_r max_p entries i [] = []
bars_from twice_r max_p entries i (name ∷ names) =
    bar twice_r max_p entries i name ∷ bars_from twice_r max_p entries (suc i) names

-- The names at N, E, S and W: the middle of each lies 14 pixels outside of the greatest radius, and the
-- text four pixels below.
unfoldable pub marks : ℤ → List Mark
marks twice_r =
    let r = twice_r +ℤ pos 28 in
    record { name = codes "N"; twice_x = pos 0; twice_y = pos 8 -ℤ r }
    ∷ record { name = codes "E"; twice_x = r; twice_y = pos 8 }
    ∷ record { name = codes "S"; twice_x = pos 0; twice_y = r +ℤ pos 8 }
    ∷ record { name = codes "W"; twice_x = pos 0 -ℤ r; twice_y = pos 8 }
    ∷ []

unfoldable pub render_rose : ℕ → (List ℕ → Option ℕ) → Size → List Share → Rose
render_rose one max_of size rose =
    let twice_r = twice_max_r size in
    record {
      rings = map (λ pct. twice_r *ℤ pct) (25 ∷ 50 ∷ 75 ∷ 100 ∷ []);
      calm = length rose == 0;
      bars =
          if length rose == 0
          then []
          else bars_from twice_r (max_pct one max_of rose) (by_name [] rose) 0 sectors_order;
      marks = marks twice_r;
    }
