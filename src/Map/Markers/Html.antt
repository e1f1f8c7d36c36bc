-- ===== src/Map/Markers/Html.antt =====
-- The text of a marker (buildHtml and esc of assets/js/hooks/maplibre_map.js).
use voria.Prelude.{ℕ, Bool, Option, none, some, [], ◌∷◌, ◌++◌, ◌==◌, if◌then◌else◌}
use voria.Prelude.Int.{ℤ}
use voria.Prelude.Text.{Text, codes, is_empty}

-- `value` and `value_at` may be missing.
pub record MarkerData : Type 0 where
  pub id : Text
  pub lng : ℤ
  pub lat : ℤ
  pub value : Option Text
  pub value_at : Option Text
  pub has_webcam : Bool
  pub has_fault : Bool

-- `s.replace(/c/g, t)`
unfoldable pub replace_all : ℕ → Text → Text → Text
replace_all c t [] = []
replace_all c t (d ∷ s) = let rest = replace_all c t s in if d == c then t ++ rest else d ∷ rest

unfoldable pub escape : Text → Text
escape s = replace_all b'"' (codes "&quot;") (
    replace_all b'>' (codes "&gt;")
      (replace_all b'<' (codes "&lt;") (replace_all b'&' (codes "&amp;") s)))

-- The em dash.
abbrev pub dash : Text
dash = 0x2014 ∷ []

-- A missing or an empty text is shown as a dash.
unfoldable pub esc : Option Text → Text
esc none = dash
esc (some s) = if is_empty s then dash else escape s

webcam_icon : Text
webcam_icon =
    codes
      "<span class=\"map-marker-webcam\" title=\"Webcam\"><svg width=\"10\" height=\"10\" viewBox=\"0 0 24 24\" fill=\"currentColor\"><path d=\"M17 10.5V7a1 1 0 00-1-1H4a1 1 0 00-1 1v10a1 1 0 001 1h12a1 1 0 001-1v-3.5l4 4v-11l-4 4z\"/></svg></span>"

fault_icon : Text
fault_icon =
    codes
      "<span class=\"map-marker-fault\" title=\"Active fault\"><svg width=\"10\" height=\"10\" viewBox=\"0 0 24 24\" fill=\"currentColor\"><path d=\"M1 21h22L12 2 1 21zm12-3h-2v-2h2v2zm0-4h-2v-4h2v4z\"/></svg></span>"

value_at_html : (Text → Text) → Option Text → Text
value_at_html clock none = []
value_at_html clock (some t) =
    if is_empty t
    then []
    else codes "<span class=\"map-marker-at\">" ++ (clock t ++ codes "</span>")

-- `clock` is `new Date(t).toLocaleTimeString(…)`, the time of day of a text that names an instant.
unfoldable pub build_html : (Text → Text) → MarkerData → Text
unfolding webcam_icon fault_icon value_at_html
build_html clock d =
    codes "<div class=\"map-marker\">"
    ++ (esc d.value
        ++ (value_at_html clock d.value_at
            ++ ((if d.has_webcam then webcam_icon else [])
                ++ ((if d.has_fault then fault_icon else []) ++ codes "</div>"))))
