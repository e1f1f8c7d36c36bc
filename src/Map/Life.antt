-- ===== src/Map/Life.antt =====
-- The life of the map's hook: its style, what it listens to, and its end (cartoKey, withKey,
-- currentStyleUrl, mounted, _updateStyle, _onStorage and destroyed of assets/js/hooks/maplibre_map.js).
-- The map is MapLibre's; what the hook holds of it is whether it is there, its style, its radar and its
-- markers. A handler that throws leaves what it changed before, and a fault.
pub mod Listening
pub mod Painted
use voria.Prelude.{
  ℕ, zero, suc, ◌+◌, Bool, true, false, not, ◌&&◌, ◌≡◌, refl, Option, none, some, List, [], ◌∷◌,
  ◌++◌, if◌then◌else◌, with_value, with_both, ltb,
}
use voria.Prelude.Text.{Text, codes, text_eq, is_empty}
use voria.Map.Overlay.{
  Overlay, start, StyleLayer, has, set_radar, wants_radar, radar_state, frame_at, set_style,
  style_load,
}
use voria.Map.Markers.{MarkerData, Markers, update_markers}
use voria.Map.Markers.Update.{no_markers}

-- What the page says of its looks: `data-theme`, the preference of the system, and the content of the
-- meta element with the key, if there is one.
pub record Site : Type 0 where
  pub theme : Option Text
  pub prefers_dark : Bool
  pub key_content : Option Text

abbrev pub light_style : Text
light_style = codes "https://basemaps.cartocdn.com/gl/positron-gl-style/style.json"

abbrev pub dark_style : Text
dark_style = codes "https://basemaps.cartocdn.com/gl/dark-matter-gl-style/style.json"

unfoldable pub carto_key : Site → Text
carto_key site = with_value site.key_content (λ k. k) []

-- `encode` is `encodeURIComponent`.
module _ (encode : Text → Text) where
  unfoldable pub with_key : Site → Text → Text
  unfolding carto_key
  with_key site url =
      if is_empty (carto_key site) then url else url ++ (codes "?key=" ++ encode (carto_key site))

  unfoldable pub preferred : Site → Text
  preferred site = with_key site (if site.prefers_dark then dark_style else light_style)

  unfoldable pub themed : Site → Text → Text
  unfolding preferred
  themed site theme =
      if text_eq theme (codes "dark")
      then with_key site dark_style
      else if text_eq theme (codes "light")
      then with_key site light_style
      else preferred site

  unfoldable pub current_style_url : Site → Text
  current_style_url site = with_value site.theme (themed site) (preferred site)

-- The map. The radar on it, and whether its style is loaded, are in the overlay.
pub record MapState : Type 0 where
  pub style : Text

-- What a handler threw: it used a map that is `null`, or added a source or a layer to a map whose style
-- is not loaded.
pub data Fault : Type 0 where
  no_map style_not_loaded : Fault

-- `alive` is whether LiveView still calls the hook's handlers of the server's messages; `faults` is
-- what was thrown, the newest first.
pub record MapHook : Type 0 where
  pub map_ : Option MapState
  pub overlay : Overlay
  pub placed : Markers
  pub hears_frames : Bool
  pub hears_theme : Bool
  pub hears_storage : Bool
  pub hears_scheme : Bool
  pub alive : Bool
  pub faults : List Fault

-- The server's `update_markers` and `radar_state`, a frame of the timeline, the page's "phx:set-theme" and
-- "storage" events, a change of the system's preference, MapLibre's "style.load", and the end of the hook.
pub data Event : Type 0 where
  marked : List MarkerData → Event
  server : Bool → Option Text → Option ℕ → Event
  frame : Option ℕ → Event
  theme_set : Event
  stored : Text → Event
  scheme_changed : Event
  style_loaded : Event
  removed : Event

abbrev pub throw : Fault → MapHook → MapHook
throw f h = record h { faults = f ∷ h.faults }

-- The first style is still to be loaded.
unfoldable pub mounted : (Text → Text) → Site → Bool → MapHook
mounted encode site set_tiles = record {
  map_ = some (record { style = current_style_url encode site });
  overlay = start set_tiles;
  placed = no_markers;
  hears_frames = true;
  hears_theme = true;
  hears_storage = true;
  hears_scheme = true;
  alive = true;
  faults = [];
}

module _ (encode : Text → Text) where
  unfoldable pub update_style : MapHook → Site → MapHook
  update_style h site =
      with_value h.map_
        (λ m. record h {
          map_ = some (record { style = current_style_url encode site });
          overlay = set_style h.overlay;
        })
        (throw no_map h)

  unfoldable pub on_storage : MapHook → Site → Text → MapHook
  unfolding update_style
  on_storage h site key = if text_eq key (codes "phx:theme") then update_style h site else h

-- Without a map, the handler of `update_markers` throws at its first use of it; what it changed until
-- then is not kept here.
unfoldable pub on_markers : (Text → Text) → MapHook → List MarkerData → MapHook
on_markers clock h ds =
    with_value h.map_ (λ m. record h { placed = update_markers clock h.placed ds }) (throw no_map h)

-- The radar after a handler, which has thrown if the radar is wanted, and still missing because the
-- style is not loaded.
unfoldable pub with_radar : MapHook → Overlay → MapHook
unfolding wants_radar
with_radar h o =
    let done = record h { overlay = o } in
    if wants_radar o && (not o.loaded && not (has o.layer))
    then throw style_not_loaded done
    else done

module _ (style : List StyleLayer) where
  -- The callbacks of "style.load", which use the map if the radar is wanted.
  unfoldable pub on_style_load : MapHook → MapHook
  unfolding wants_radar
  on_style_load h =
      with_value h.map_ (λ m. record h { overlay = style_load style h.overlay })
        (if ltb 0 h.overlay.waiting && wants_radar h.overlay then throw no_map h else h)

  -- Without an instant, or while the radar is off, a frame does not need the map.
  unfoldable pub on_frame : MapHook → Option ℕ → MapHook
  unfolding with_radar
  on_frame h none = h
  on_frame h (some time) =
      let noted = record h {
        overlay = record h.overlay { radar = record h.overlay.radar { time = some time } };
      } in
      if h.overlay.radar.enabled
      then with_value h.map_ (λ m. with_radar h (frame_at style h.overlay time))
          (throw no_map noted)
      else noted

  unfoldable pub on_radar_state : MapHook → Bool → Option Text → Option ℕ → MapHook
  unfolding with_radar
  on_radar_state h enabled product opacity =
      with_value h.map_ (λ m. with_radar h (radar_state style h.overlay enabled product opacity))
        (throw no_map (record h { overlay = set_radar h.overlay enabled product opacity }))

unfoldable pub destroyed : MapHook → MapHook
destroyed h = record h {
  map_ = none;
  hears_frames = false;
  hears_theme = false;
  hears_storage = false;
  hears_scheme = false;
  alive = false;
}

module _ (encode clock : Text → Text) (style : List StyleLayer) where
  -- An event, and the page as it is then.
  unfoldable pub run_event : MapHook → Event → Site → MapHook
  run_event h (marked ds) site = if h.alive then on_markers clock h ds else h
  run_event h (server enabled product opacity) site =
      if h.alive then on_radar_state style h enabled product opacity else h
  run_event h (frame time) site = if h.hears_frames then on_frame style h time else h
  run_event h theme_set site = if h.hears_theme then update_style encode h site else h
  run_event h (stored key) site = if h.hears_storage then on_storage encode h site key else h
  run_event h scheme_changed site = if h.hears_scheme then update_style encode h site else h
  run_event h style_loaded site = on_style_load style h
  run_event h removed site = destroyed h

  abbrev pub run_events : MapHook → List (Event × Site) → MapHook
  run_events h [] = h
  run_events h ((e, site) ∷ es) = run_events (run_event h e site) es
