-- ===== src/Map/Markers.antt =====
-- The markers of the map (updateMarkers, extendBounds, boundsToArray, fitToMarkers,
-- cameraForMarkers, fitPadding, buildHtml and esc of assets/js/hooks/maplibre_map.js). Coordinates
-- are whole multiples of a small unit, such as a millionth of a degree.
pub mod Html
pub mod Links
pub mod Escape
pub mod Tags
pub mod Update
use voria.Prelude.{
  ℕ, ◌+◌, ◌*◌, ◌<◌, ◌≤◌, Bool, true, false, not, ◌&&◌, ◌≡◌, refl, Option, none, some, List, [], ◌∷◌,
  ◌++◌, map, arith, ltb, min, max, if◌then◌else◌, length,
}
use voria.Prelude.Int.{ℤ, pos, pos_part, min_ℤ, max_ℤ, round_div}
use voria.Prelude.Text.{Text, text_eq}
use voria.Entries.{get, set_entry, has_key}
pub use Html.{MarkerData}
unfoldable pub use Html.{build_html, esc}

pub record Bounds : Type 0 where
  pub west : ℤ
  pub south : ℤ
  pub east : ℤ
  pub north : ℤ

unfoldable pub extend_bounds : Option Bounds → ℤ → ℤ → Bounds
extend_bounds none lng lat = record { west = lng; south = lat; east = lng; north = lat }
extend_bounds (some b) lng lat = record {
  west = min_ℤ b.west lng;
  south = min_ℤ b.south lat;
  east = max_ℤ b.east lng;
  north = max_ℤ b.north lat;
}

-- A marker stays where it was put; its element's text is written anew.
pub record Marker : Type 0 where
  pub lng : ℤ
  pub lat : ℤ
  pub html : Text

-- `fits` counts the calls of fitToMarkers.
pub record Markers : Type 0 where
  pub markers : List (Text × Marker)
  pub bounds_set : Bool
  pub marker_bounds : Option Bounds
  pub fits : ℕ

-- `seenIds.has(id)`
unfoldable pub seen : Text → List MarkerData → Bool
seen id [] = false
seen id (d ∷ ds) = if text_eq d.id id then true else seen id ds

-- The markers whose installation is gone are taken off.
unfoldable pub keep_seen : List MarkerData → List (Text × Marker) → List (Text × Marker)
keep_seen ds [] = []
keep_seen ds ((id, m) ∷ ms) =
    let rest = keep_seen ds ms in if seen id ds then (id, m) ∷ rest else rest

unfoldable pub bounds_of : Option Bounds → List MarkerData → Option Bounds
bounds_of b [] = b
bounds_of b (d ∷ ds) = bounds_of (some (extend_bounds b d.lng d.lat)) ds

module _ (clock : Text → Text) where
  unfoldable pub put_at : List (Text × Marker) → MarkerData → Option Marker → List (Text × Marker)
  put_at ms d (some m) = set_entry d.id (record m { html = build_html clock d }) ms
  put_at ms d none =
      set_entry d.id (record { lng = d.lng; lat = d.lat; html = build_html clock d }) ms

  -- One round of the loop over the list: a marker that is there gets its new text, another is made.
  unfoldable pub put_marker : List (Text × Marker) → MarkerData → List (Text × Marker)
  unfolding put_at
  put_marker ms d = put_at ms d (get d.id ms)

  unfoldable pub put_markers : List (Text × Marker) → List MarkerData → List (Text × Marker)
  put_markers ms [] = ms
  put_markers ms (d ∷ ds) = put_markers (put_marker ms d) ds

  -- The view is fitted once, when the first markers are there.
  unfoldable pub update_markers : Markers → List MarkerData → Markers
  update_markers s ds =
      let ms = put_markers (keep_seen ds s.markers) ds in
      let updated = record s { markers = ms; marker_bounds = bounds_of none ds } in
      if not s.bounds_set && ltb 0 (length ms)
      then record updated { bounds_set = true; fits = s.fits + 1 }
      else updated

-- `boundsToArray`
unfoldable pub bounds_to_array : Bounds → List (List ℤ)
bounds_to_array b = (b.west ∷ b.south ∷ []) ∷ (b.east ∷ b.north ∷ []) ∷ []

-- A sixth of the shorter side, and at least 40 pixels.
unfoldable pub fit_padding : ℕ → ℕ → ℕ
fit_padding width height = max 40 (pos_part (round_div (pos (min width height)) 6))

-- What the map is asked for a camera with, if there are bounds.
unfoldable pub camera_for_markers : Markers → ℕ → ℕ → Option (List (List ℤ) × ℕ)
camera_for_markers s width height = elim s.marker_bounds [
  | none ↦ none
  | some b ↦ some (bounds_to_array b, fit_padding width height)
]
