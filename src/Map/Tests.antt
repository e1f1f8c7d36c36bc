-- ===== src/Map/Tests.antt =====
-- The theorems on the map at concrete inputs.
use voria.Prelude.{
  ℕ, ◌+◌, ◌≤◌, ◌==◌, Bool, ap, arith, if◌then◌else◌, Option, map, true, false, ◌≡◌, refl, none,
  some, [], ◌∷◌, ◌++◌, List,
}
use mathlib.Core.List.{append-nil}
use voria.Prelude.Int.{pos}
use voria.Prelude.Text.{Text, codes, contains, text_eq, decimal, is_empty}
use voria.Entries.{has_key}
use voria.Map.TileCache
use voria.Map.TileCache.{
  Cache, fetch_colorized_tile, loaded, running, from_cache, fetch, load, break, settle,
}
use voria.Map.TileCache.Valid
use voria.Map.TileCache.Valid.{fetch-hit, tiles-loaded, empty, open_requests}
use voria.Map.Overlay
use voria.Radar.Url.{Fills, tile_url, raw_tile_url}
use voria.Map.Life
use voria.Map.TileCache.Content.{
  failed, answered, Moment, called, came, over, event_of, requested_url, made, bitmap_of, AllTiles,
  IsMade, run_events-AllMade, made-tile_url,
}
use voria.Map.Life.{Site}
use voria.Map.Life.Listening.{IsFollowed, looks, run_events-IsFollowed}
use voria.Map.Overlay.{StyleLayer, IsConsistent}
use voria.Map.Markers.{MarkerData, update_markers, seen}
use voria.Map.Markers.Html.{build_html}
use voria.Map.Markers.Tags.{markup, markup-build_html}
use voria.Map.Markers.Update.{
  no_markers, has_key-update_markers, InsideAll, InsideAll-update_markers,
}

abbrev url : Text
url = codes "tile"

abbrev calls : List (TileCache.Event ℕ)
calls = fetch url ∷ load url 7 ∷ settle url ∷ fetch url ∷ []

tile_cache-IsValid_example :
    TileCache.IsValid (TileCache.run_events (empty ℕ) calls)
    × (open_requests (empty ℕ) url 0 calls ≤ 1)
tile_cache-IsValid_example = Valid.run_events-IsValid calls url

-- A library of maps that walks a template, and writes the number of a part for its name in braces.
part : ℕ → ℕ → ℕ → ℕ → Text
part z x y c =
    if c == b'z'
    then decimal z
    else if c == b'x'
    then decimal x
    else if c == b'y'
    then decimal y
    else []

fill : Bool → ℕ → ℕ → ℕ → Text → Text
unfolding part
fill inside z x y [] = []
fill true z x y (c ∷ s) =
    let within = fill true z x y s in
    let behind = fill false z x y s in if c == b'}' then behind else part z x y c ++ within
fill false z x y (c ∷ s) =
    let within = fill true z x y s in
    let behind = fill false z x y s in if c == b'{' then within else c ∷ behind

Fills-fill : Fills (fill false)
unfolding fill contains
Fills-fill z x y [] h =
    ap (λ r. b'/' ∷ (decimal z ++ b'/' ∷ (decimal x ++ b'/' ∷ r))) (append-nil (decimal y))
Fills-fill z x y (c ∷ s) h = ground (arith, Fills-fill z x y s)

abbrev filled : Text
filled = fill false 7 68 47 (tile_url (codes "SRI") 5)

-- Images are numbers, and so are coloured ones: one more for the product "SRI".
abbrev recolor : Text → ℕ → Option ℕ
recolor id n = if text_eq id (codes "SRI") then some (n + 1) else none

abbrev tile_moments : List (Moment recolor)
tile_moments =
    called filled
    ∷ came filled (answered true (some 4))
    ∷ over filled
    ∷ called url
    ∷ came url failed
    ∷ []

run_events-AllMade_example :
    AllTiles
      (IsMade recolor tile_moments)
      (TileCache.run_events (empty ℕ) (map (event_of recolor) tile_moments))
run_events-AllMade_example = run_events-AllMade recolor tile_moments

made-tile_url_example :
    (requested_url filled
      ≡ some (
          raw_tile_url (record {
            product_id = codes "SRI";
            time_ms = some 5;
            z = decimal 7;
            x = decimal 68;
            y = decimal 47;
          })))
    × (made recolor filled (answered true (some 4)) ≡ recolor (codes "SRI") 4)
unfolding is_empty contains bitmap_of
made-tile_url_example =
    made-tile_url recolor (fill false) (codes "SRI") 5 7 68 47 (answered true (some 4)) Fills-fill
      refl refl refl

abbrev overlay_events : List Overlay.Event
overlay_events =
    Overlay.style_loaded
    ∷ Overlay.state true (some (codes "SRI")) (some 60)
    ∷ Overlay.frame (some 1709251500000)
    ∷ Overlay.style_set
    ∷ Overlay.style_loaded
    ∷ []

run_events-IsConsistent_example :
    IsConsistent (Overlay.run_events [] (Overlay.start true) overlay_events)
run_events-IsConsistent_example = Overlay.run_events-IsConsistent [] true overlay_events

-- A page whose theme is that of the system, and an encoder of texts without special characters.
abbrev plain_page : Site
plain_page = record { theme = none; prefers_dark = true; key_content = none }

abbrev dark_page : Site
dark_page = record {
  theme = some (codes "dark");
  prefers_dark = true;
  key_content = some (codes "k1");
}

abbrev as_it_is : Text → Text
as_it_is t = t

abbrev no_clock : Text → Text
no_clock t = t

abbrev station : MarkerData
station = record {
  id = codes "1";
  lng = pos 9;
  lat = pos 45;
  value = some (codes "<21>");
  value_at = none;
  has_webcam = false;
  has_fault = true;
}

-- Before the first style is loaded: a product is chosen, but there is no instant yet.
abbrev early_events : List (Life.Event × Site)
early_events = (Life.server true (some (codes "VMI")) (some 70), plain_page) ∷ []

-- What happens after the first style was loaded.
abbrev hook_events : List (Life.Event × Site)
hook_events =
    (Life.marked (station ∷ []), plain_page)
    ∷ (Life.server true (some (codes "SRI")) (some 60), plain_page)
    ∷ (Life.frame (some 1709251500000), plain_page)
    ∷ (Life.theme_set, dark_page)
    ∷ (Life.style_loaded, dark_page)
    ∷ []

abbrev hook_after : Life.MapHook
hook_after =
    Life.run_events as_it_is no_clock [] (Life.mounted as_it_is plain_page true)
      ((Life.style_loaded, plain_page) ∷ hook_events)

-- The radar is wanted before the first style is loaded: the handler throws, and when the style is loaded
-- nothing adds the radar.
abbrev early : Life.MapHook
early = Life.run_events as_it_is no_clock [] (Life.mounted as_it_is plain_page true) (
    (Life.server true (some (codes "SRI")) (some 60), plain_page)
    ∷ (Life.frame (some 1709251500000), plain_page)
    ∷ (Life.style_loaded, plain_page)
    ∷ [])

early_frame :
    (early.overlay.loaded ≡ true)
    × (early.overlay.source ≡ none)
    × (early.faults ≡ Life.style_not_loaded ∷ [])
unfolding Life.run_event Life.mounted Life.on_style_load Life.on_markers Life.on_radar_state
    Overlay.radar_state Overlay.style_load Overlay.loaded_times Overlay.add_radar_layer
    Overlay.chosen Life.on_frame Overlay.frame_at Overlay.add_at Life.update_style Overlay.set_style
    Life.with_radar Overlay.wants_radar
early_frame = (refl, refl, refl)

-- A frame before the first style is loaded, the end of the hook, and a change of the theme.
abbrev whole_life : List (Life.Event × Site)
whole_life =
    (Life.server true (some (codes "SRI")) (some 60), plain_page)
      ∷ (Life.frame (some 1709251500000), plain_page)
      ∷ (Life.style_loaded, plain_page)
      ∷ hook_events
    ++ (Life.removed, dark_page) ∷ (Life.theme_set, plain_page) ∷ []

run_events-IsFollowed_example :
    IsFollowed as_it_is
      (Life.run_events as_it_is no_clock [] (Life.mounted as_it_is plain_page true) whole_life)
      (looks plain_page whole_life)
run_events-IsFollowed_example =
    run_events-IsFollowed as_it_is no_clock [] true plain_page whole_life tt

has_key-update_markers_example :
    has_key (codes "1") (update_markers no_clock no_markers (station ∷ [])).markers
    ≡ seen (codes "1") (station ∷ [])
has_key-update_markers_example =
    has_key-update_markers no_clock no_markers (station ∷ []) (codes "1")

InsideAll-update_markers_example :
    InsideAll (update_markers no_clock no_markers (station ∷ [])).marker_bounds (station ∷ [])
InsideAll-update_markers_example = InsideAll-update_markers no_clock no_markers (station ∷ [])

markup-build_html_example :
    markup (build_html no_clock station)
    ≡ markup (build_html no_clock (record station { value = none }))
markup-build_html_example = markup-build_html no_clock station
