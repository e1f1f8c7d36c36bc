-- ===== src/Map/Life/Listening.antt =====
-- What the hook of the map listens to, the style of its map, and what its handlers throw.
use voria.Prelude.{
  Bool, true, false, ◌≡◌, refl, Option, none, some, List, [], ◌∷◌, arith, if◌then◌else◌, if_both,
}
use voria.Prelude.Text.{Text, codes, text_eq}
use voria.Map.Overlay.{Overlay, StyleLayer}
use voria.Map.Life.{
  Site, current_style_url, MapState, Fault, no_map, style_not_loaded, MapHook, Event, marked,
  server, frame, theme_set, stored, scheme_changed, style_loaded, removed, mounted, update_style,
  on_storage, on_markers, with_radar, on_style_load, on_frame, on_radar_state, destroyed, run_event,
  run_events,
}

-- The page as it was at the last event that says that its looks changed.
abbrev pub looks_after : Site → Event → Site → Site
looks_after old theme_set new = new
looks_after old (stored key) new = if text_eq key (codes "phx:theme") then new else old
looks_after old scheme_changed new = new
looks_after old e new = old

abbrev pub looks : Site → List (Event × Site) → Site
looks site [] = site
looks site ((e, new) ∷ es) = looks (looks_after site e new) es

-- A map loads no style after its end (`map.remove()`).
abbrev pub NoLoadAfter : Bool → List (Event × Site) → Type 0
NoLoadAfter gone [] = Unit {0}
NoLoadAfter gone ((removed, site) ∷ es) = NoLoadAfter true es
NoLoadAfter true ((style_loaded, site) ∷ es) = ⊥
NoLoadAfter false ((style_loaded, site) ∷ es) = NoLoadAfter false es
NoLoadAfter gone ((e, site) ∷ es) = NoLoadAfter gone es

-- No handler used a map that was not there.
abbrev pub NoneWithoutMap : List Fault → Type 0
NoneWithoutMap [] = Unit {0}
NoneWithoutMap (no_map ∷ fs) = ⊥
NoneWithoutMap (style_not_loaded ∷ fs) = NoneWithoutMap fs

module _ (encode : Text → Text) where
  -- A hook with a map listens to everything and its map has the style of the page; one whose map is gone
  -- listens to nothing.
  abbrev pub HasStyle : MapHook → Site → Option MapState → Type 0
  HasStyle h site none =
      (h.hears_frames ≡ false)
      × (h.hears_theme ≡ false)
      × (h.hears_storage ≡ false)
      × (h.hears_scheme ≡ false)
      × (h.alive ≡ false)
  HasStyle h site (some m) =
      (h.hears_frames ≡ true)
      × (h.hears_theme ≡ true)
      × (h.hears_storage ≡ true)
      × (h.hears_scheme ≡ true)
      × (h.alive ≡ true)
      × (m.style ≡ current_style_url encode site)

  abbrev pub IsFollowed : MapHook → Site → Type 0
  IsFollowed h site = HasStyle h site h.map_ × NoneWithoutMap h.faults

  -- Whether the map is gone.
  abbrev gone_map : Option MapState → Bool
  gone_map none = true
  gone_map (some m) = false

  IsFollowed-with_radar :
      (h : MapHook) (site : Site) (o : Overlay)
      → IsFollowed h site
      → IsFollowed (with_radar h o) site
  unfolding with_radar
  IsFollowed-with_radar h site o f = if_both (λ g. IsFollowed g site) _ f f

  module _ (clock : Text → Text) (style : List StyleLayer) where
    -- An event that is not the loading of a style after the end.
    IsFollowed-run_event :
        (h : MapHook) (old new : Site) (e : Event) (es : List (Event × Site))
        → IsFollowed h old
        → NoLoadAfter (gone_map h.map_) ((e, new) ∷ es)
        → IsFollowed (run_event encode clock style h e new) (looks_after old e new)
          × NoLoadAfter (gone_map (run_event encode clock style h e new).map_) es
    unfolding run_event on_radar_state on_markers on_frame update_style on_storage on_style_load
        destroyed with_radar
    IsFollowed-run_event h old new (marked ds) es f q = ground (arith, f, q)
    IsFollowed-run_event h old new (server enabled product opacity) es f q = ground (arith, f, q)
    IsFollowed-run_event h old new (frame none) es f q = ground (arith, f, q)
    IsFollowed-run_event h old new (frame (some t)) es f q = ground (arith, f, q)
    IsFollowed-run_event h old new theme_set es f q = ground (arith, f, q)
    IsFollowed-run_event h old new (stored key) es f q = ground (arith, f, q)
    IsFollowed-run_event h old new scheme_changed es f q = ground (arith, f, q)
    IsFollowed-run_event h old new style_loaded es f q = ground (arith, f, q)
    IsFollowed-run_event h old new removed es f q = ground (arith, f, q)

    IsFollowed-run_events :
        (h : MapHook) (site : Site) (es : List (Event × Site))
        → IsFollowed h site
        → NoLoadAfter (gone_map h.map_) es
        → IsFollowed (run_events encode clock style h es) (looks site es)
    IsFollowed-run_events h site [] f q = f
    IsFollowed-run_events h site ((e, new) ∷ es) f q =
        let (g, r) = IsFollowed-run_event h site new e es f q in
        IsFollowed-run_events (run_event encode clock style h e new) (looks_after site e new) es g r

    -- No handler of the map's hook ever uses a map that is not there: after any events since it was
    -- mounted, also after its end, but that a map loads no style after its end, every error that a handler
    -- has thrown is that of a style that was not loaded; the map that is there has the style of the page
    -- at the last event that told of its looks, and its hook listens to everything; and a hook without a
    -- map listens to nothing.
    pub run_events-IsFollowed :
        (set_tiles : Bool) (site : Site) (es : List (Event × Site))
        → NoLoadAfter false es
        → IsFollowed
            (run_events encode clock style (mounted encode site set_tiles) es)
            (looks site es)
    unfolding mounted
    run_events-IsFollowed set_tiles site es q =
        IsFollowed-run_events (mounted encode site set_tiles) site es
          ((refl, refl, refl, refl, refl, refl), tt) q
