-- ===== src/Map/Markers/Update.antt =====
-- What an update of the markers leaves on the map (updateMarkers of
-- assets/js/hooks/maplibre_map.js).
use voria.Prelude.{
  ◌≤◌, ◌≡◌, refl, ◌∙◌, false, not, ◌&&◌, ◌||◌, Option, none, some, List, [], ◌∷◌, arith, ltb,
  length, if◌then◌else◌, if_both, if_cases,
}
use voria.Prelude.Int.{ℤ, ◌≤ℤ◌, min_ℤ-le_left, min_ℤ-le_right, max_ℤ-ge_left, max_ℤ-ge_right}
use voria.Prelude.Text.{Text, text_eq, text_eq_sound}
use voria.Entries.{get, has_key, has_key-set_entry}
use voria.Map.Markers.{
  MarkerData, Marker, Markers, Bounds, extend_bounds, seen, keep_seen, put_at, put_marker,
  put_markers, bounds_of, update_markers,
}

has_key-keep_seen :
    (id : Text) (ds : List MarkerData) (ms : List (Text × Marker))
    → has_key id (keep_seen ds ms) ≡ (has_key id ms && seen id ds)
unfolding has_key keep_seen
has_key-keep_seen id ds [] = refl
has_key-keep_seen id ds ((u, m) ∷ ms) =
    ground (arith, text_eq_sound u id, has_key-keep_seen id ds ms)

module _ (clock : Text → Text) where
  has_key-put_at :
      (id : Text) (ms : List (Text × Marker)) (d : MarkerData) (o : Option Marker)
      → has_key id (put_at clock ms d o) ≡ (text_eq d.id id || has_key id ms)
  unfolding put_at
  has_key-put_at id ms d none = has_key-set_entry id d.id _ ms
  has_key-put_at id ms d (some m) = has_key-set_entry id d.id _ ms

  has_key-put_markers :
      (id : Text) (ms : List (Text × Marker)) (ds : List MarkerData)
      → has_key id (put_markers clock ms ds) ≡ (has_key id ms || seen id ds)
  unfolding put_markers put_marker seen
  has_key-put_markers id ms [] = ground arith
  has_key-put_markers id ms (d ∷ ds) =
      let h = has_key-put_at id ms d (get d.id ms) in
      has_key-put_markers id (put_marker clock ms d) ds ∙ ground (arith, h)

  -- After an update there is a marker for an installation exactly if the list names it: the others are
  -- taken off, and none is missing.
  pub has_key-update_markers :
      (s : Markers) (ds : List MarkerData) (id : Text)
      → has_key id (update_markers clock s ds).markers ≡ seen id ds
  unfolding update_markers
  has_key-update_markers s ds id =
      let h = has_key-put_markers id (keep_seen ds s.markers) ds in
      let k = has_key-keep_seen id ds s.markers in
      if_both (λ (m : Markers). has_key id m.markers ≡ seen id ds)
        (not s.bounds_set && ltb 0 (length (put_markers clock (keep_seen ds s.markers) ds)))
        (ground (arith, h, k)) (ground (arith, h, k))

-- A point inside of bounds.
abbrev pub Inside : Bounds → ℤ → ℤ → Type 0
Inside b lng lat = (b.west ≤ℤ lng) × (lng ≤ℤ b.east) × (b.south ≤ℤ lat) × (lat ≤ℤ b.north)

-- A point inside of the bounds, which are there.
abbrev pub InsideSome : Option Bounds → ℤ → ℤ → Type 0
InsideSome none lng lat = ⊥
InsideSome (some b) lng lat = Inside b lng lat

abbrev pub InsideAll : Option Bounds → List MarkerData → Type 0
InsideAll o [] = Unit {0}
InsideAll o (d ∷ ds) = InsideSome o d.lng d.lat × InsideAll o ds

Inside-extend_bounds : (o : Option Bounds) (lng lat : ℤ) → Inside (extend_bounds o lng lat) lng lat
unfolding extend_bounds
Inside-extend_bounds none lng lat = (omega arith, omega arith, omega arith, omega arith)
Inside-extend_bounds (some b) lng lat = (
  min_ℤ-le_right b.west lng,
  max_ℤ-ge_right b.east lng,
  min_ℤ-le_right b.south lat,
  max_ℤ-ge_right b.north lat,
)

Inside-extend_bounds_old :
    (b : Bounds) (lng lat x y : ℤ) → Inside b x y → Inside (extend_bounds (some b) lng lat) x y
unfolding extend_bounds
Inside-extend_bounds_old b lng lat x y (w, e, s, n) = (
  omega (arith, w, min_ℤ-le_left b.west lng),
  omega (arith, e, max_ℤ-ge_left b.east lng),
  omega (arith, s, min_ℤ-le_left b.south lat),
  omega (arith, n, max_ℤ-ge_left b.north lat),
)

InsideSome-bounds_of :
    (b : Bounds) (ds : List MarkerData) (x y : ℤ)
    → Inside b x y
    → InsideSome (bounds_of (some b) ds) x y
unfolding bounds_of
InsideSome-bounds_of b [] x y h = h
InsideSome-bounds_of b (d ∷ ds) x y h =
    InsideSome-bounds_of (extend_bounds (some b) d.lng d.lat) ds x y
      (Inside-extend_bounds_old b d.lng d.lat x y h)

InsideAll-bounds_of : (o : Option Bounds) (ds : List MarkerData) → InsideAll (bounds_of o ds) ds
unfolding bounds_of
InsideAll-bounds_of o [] = tt
InsideAll-bounds_of o (d ∷ ds) = (
  InsideSome-bounds_of (extend_bounds o d.lng d.lat) ds d.lng d.lat
      (Inside-extend_bounds o d.lng d.lat),
  InsideAll-bounds_of (some (extend_bounds o d.lng d.lat)) ds,
)

-- The bounds that the map is fitted to hold every installation of the list.
pub InsideAll-update_markers :
    (clock : Text → Text) (s : Markers) (ds : List MarkerData)
    → InsideAll (update_markers clock s ds).marker_bounds ds
unfolding update_markers
InsideAll-update_markers clock s ds =
    let h = InsideAll-bounds_of none ds in
    if_both (λ (m : Markers). InsideAll m.marker_bounds ds)
      (not s.bounds_set && ltb 0 (length (put_markers clock (keep_seen ds s.markers) ds))) h h

-- Updates with one list after the other.
unfoldable pub run_updates : (Text → Text) → Markers → List (List MarkerData) → Markers
run_updates clock s [] = s
run_updates clock s (ds ∷ rest) = run_updates clock (update_markers clock s ds) rest

IsFitted : Markers → Type 0
IsFitted s = s.fits ≡ (if s.bounds_set then 1 else 0)

IsFitted-update_markers :
    (clock : Text → Text) (s : Markers) (ds : List MarkerData)
    → IsFitted s
    → IsFitted (update_markers clock s ds)
unfolding update_markers IsFitted
IsFitted-update_markers clock s ds h =
    if_cases IsFitted
      (not s.bounds_set && ltb 0 (length (put_markers clock (keep_seen ds s.markers) ds)))
      (λ first. ground (arith, h, first)) (λ _. h)

IsFitted-run_updates :
    (clock : Text → Text) (s : Markers) (lists : List (List MarkerData))
    → IsFitted s
    → IsFitted (run_updates clock s lists)
unfolding run_updates
IsFitted-run_updates clock s [] h = h
IsFitted-run_updates clock s (ds ∷ rest) h =
    IsFitted-run_updates clock (update_markers clock s ds) rest
      (IsFitted-update_markers clock s ds h)

abbrev pub no_markers : Markers
no_markers = record { markers = []; bounds_set = false; marker_bounds = none; fits = 0 }

-- The view is fitted to the markers at most once, however often they are updated.
fits-run_updates :
    (clock : Text → Text) (lists : List (List MarkerData))
    → (run_updates clock no_markers lists).fits ≤ 1
unfolding IsFitted
fits-run_updates clock lists = ground (arith, IsFitted-run_updates clock no_markers lists refl)
