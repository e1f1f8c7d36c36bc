-- ===== src/Map/Overlay.antt =====
-- The radar overlay of the map (the handler of `radar_state`, applyRadarFrame, addRadarLayer,
-- removeRadar, updateRadarTiles, radarBeforeLayerId and _updateStyle).
pub mod Present
use voria.Prelude.{
  ℕ, zero, suc, ◌+◌, Bool, true, false, not, ◌&&◌, ◌||◌, ◌≡◌, refl, ap, Option, none, some, List,
  [], ◌∷◌, arith, if◌then◌else◌, with_value, with_both,
}
use voria.Prelude.Text.{Text, text_eq, text_eq_sound, text_eq_refl, is_empty}
use voria.Radar.Url.{tile_url}

-- `_radar`. An opacity is in hundredths.
pub record Radar : Type 0 where
  pub enabled : Bool
  pub product : Option Text
  pub opacity : ℕ
  pub time : Option ℕ

-- The map's radar source, by its tiles, and its radar layer, by its opacity and the layer that it is
-- put before. `loaded` is whether the map's style is loaded: until then adding a source or a layer throws;
-- `waiting` is how many callbacks wait for its next "style.load". `set_tiles` is whether sources of
-- this MapLibre have `setTiles`.
pub record Overlay : Type 0 where
  pub radar : Radar
  pub source : Option Text
  pub layer : Option ℕ
  pub before : Option Text
  pub set_tiles : Bool
  pub loaded : Bool
  pub waiting : ℕ

abbrev pub start : Bool → Overlay
start set_tiles = record {
  radar = record { enabled = false; product = none; opacity = 85; time = none };
  source = none;
  layer = none;
  before = none;
  set_tiles = set_tiles;
  loaded = false;
  waiting = 0;
}

-- The layers of the map's style: their ids, and whether they are of type `symbol`.
pub record StyleLayer : Type 0 where
  pub id : Text
  pub is_symbol : Bool

-- The first layer of symbols.
unfoldable pub radar_before_layer_id : List StyleLayer → Option Text
radar_before_layer_id [] = none
radar_before_layer_id (l ∷ ls) = if l.is_symbol then some l.id else radar_before_layer_id ls

unfoldable pub has {ℓ} : {A : Type ℓ} → Option A → Bool
has none = false
has (some a) = true

-- With a product and an instant: the source and the layer are added where they are missing. While the
-- style is not loaded the first of them throws, and nothing is added; both are missing then.
unfoldable pub add_at : List StyleLayer → Overlay → Text → ℕ → Overlay
unfolding has
add_at style o product time =
    let sourced = if has o.source then o else record o { source = some (tile_url product time) } in
    if not o.loaded
    then o
    else if has o.layer
    then sourced
    else record sourced { layer = some o.radar.opacity; before = radar_before_layer_id style }

-- addRadarLayer gets past its first line.
unfoldable pub wants_radar : Overlay → Bool
wants_radar o = o.radar.enabled && with_both o.radar.product o.radar.time (λ p t. true) false

unfoldable pub add_radar_layer : List StyleLayer → Overlay → Overlay
add_radar_layer style o =
    if o.radar.enabled then with_both o.radar.product o.radar.time (add_at style o) o else o

unfoldable pub remove_radar : Overlay → Overlay
remove_radar o = record o { source = none; layer = none }

-- The tiles of the source, for the product and the instant. `tileUrl` is called where both are
-- there: the callers see to it.
unfoldable pub update_at : List StyleLayer → Overlay → Text → ℕ → Overlay
unfolding has remove_radar
update_at style o product time =
    if not (has o.source)
    then o
    else if o.set_tiles
    then record o { source = some (tile_url product time) }
    else add_radar_layer style (remove_radar o)

unfoldable pub update_radar_tiles : List StyleLayer → Overlay → Overlay
update_radar_tiles style o = with_both o.radar.product o.radar.time (update_at style o) o

same_product : Option Text → Option Text → Bool
same_product none none = true
same_product (some p) (some q) = text_eq p q
same_product _ _ = false

-- `if (product) …`, and an opacity that is `none` where it is no finite number.
unfoldable pub chosen : Option Text → Option Text → Option Text
unfolding is_empty
chosen old none = old
chosen old (some new) = if is_empty new then old else some new

abbrev pub or_old : ℕ → Option ℕ → ℕ
or_old old none = old
or_old old (some new) = new

-- What the handler of `radar_state` notes before it looks at the map.
abbrev pub set_radar : Overlay → Bool → Option Text → Option ℕ → Overlay
set_radar o enabled product opacity = record o {
  radar = record o.radar {
    enabled = enabled;
    product = chosen o.radar.product product;
    opacity = or_old o.radar.opacity opacity;
  };
}

-- The handler of `radar_state`.
unfoldable pub radar_state : List StyleLayer → Overlay → Bool → Option Text → Option ℕ → Overlay
unfolding same_product has
radar_state style o enabled product opacity =
    let set = set_radar o enabled product opacity in
    let painted = record set { layer = some set.radar.opacity } in
    if enabled
    then (if not (has set.layer)
        then add_radar_layer style set
        else if not (same_product o.radar.product set.radar.product) && has set.radar.time
        then update_radar_tiles style painted
        else painted)
    else if has set.layer || has set.source
    then remove_radar set
    else set

-- `applyRadarFrame(time)`
unfoldable pub frame_at : List StyleLayer → Overlay → ℕ → Overlay
unfolding has
frame_at style o time =
    let set = record o { radar = record o.radar { time = some time } } in
    if not set.radar.enabled
    then set
    else if not (has set.layer)
    then add_radar_layer style set
    else update_radar_tiles style set

unfoldable pub apply_radar_frame : List StyleLayer → Overlay → Option ℕ → Overlay
apply_radar_frame style o time = with_value time (frame_at style o) o

-- Another style takes all sources and layers with it; when it is loaded the overlay is added anew.
unfoldable pub set_style : Overlay → Overlay
unfolding remove_radar
set_style o = record (remove_radar o) { loaded = false; waiting = o.waiting + 1 }

-- The callbacks of "style.load", one for each style that was set since the last.
unfoldable pub loaded_times : List StyleLayer → ℕ → Overlay → Overlay
loaded_times style zero o = o
loaded_times style (suc n) o = loaded_times style n (add_radar_layer style o)

-- The style is loaded. For the first one of the map, no callback waits.
unfoldable pub style_load : List StyleLayer → Overlay → Overlay
style_load style o = loaded_times style o.waiting (record o { loaded = true; waiting = 0 })

-- Events, in any order.
pub data Event : Type 0 where
  state : Bool → Option Text → Option ℕ → Event
  frame : Option ℕ → Event
  style_set : Event
  style_loaded : Event

unfoldable pub run_event : List StyleLayer → Overlay → Event → Overlay
run_event style o (state enabled product opacity) = radar_state style o enabled product opacity
run_event style o (frame time) = apply_radar_frame style o time
run_event style o style_set = set_style o
run_event style o style_loaded = style_load style o

abbrev pub run_events : List StyleLayer → Overlay → List Event → Overlay
run_events style o [] = o
run_events style o (e ∷ es) = run_events style (run_event style o e) es

-- What the map must show: nothing while the radar is off or has no product or no instant yet, and
-- otherwise, if it shows something, the tiles of the product at the instant.
abbrev pub Shows : Option Text → Option Text → Option ℕ → Type 0
Shows none product time = Unit {0}
Shows (some tiles) (some product) (some time) = tiles ≡ tile_url product time
Shows (some tiles) (some product) none = ⊥
Shows (some tiles) none time = ⊥

abbrev pub Together : Option Text → Option ℕ → Type 0
Together none none = Unit {0}
Together none (some opacity) = ⊥
Together (some tiles) none = ⊥
Together (some tiles) (some opacity) = Unit {0}

abbrev pub Painted : Option ℕ → ℕ → Type 0
Painted none opacity = Unit {0}
Painted (some painted) opacity = painted ≡ opacity

pub record IsConsistent (o : Overlay) : Type 0 where
  pub tiles : Shows o.source o.radar.product o.radar.time
  pub both : Together o.source o.layer
  pub painted : Painted o.layer o.radar.opacity
  pub off : o.radar.enabled ≡ false → o.source ≡ none

same_product-eq : (old new : Option Text) → same_product old new ≡ true → old ≡ new
unfolding same_product
same_product-eq none none h = refl
same_product-eq none (some q) h = cc
same_product-eq (some p) none h = cc
same_product-eq (some p) (some q) h = ap some (text_eq_sound p q h)

same_product_refl : (old : Option Text) → same_product old old ≡ true
unfolding same_product
same_product_refl none = refl
same_product_refl (some p) = text_eq_refl p

module _ (style : List StyleLayer) (o : Overlay) (c : IsConsistent o) where
  pub IsConsistent-add_radar_layer : IsConsistent (add_radar_layer style o)
  unfolding add_radar_layer add_at
  IsConsistent-add_radar_layer = ground arith

  pub IsConsistent-set_style : IsConsistent (set_style o)
  unfolding set_style
  IsConsistent-set_style = ground arith

  pub IsConsistent-frame_at : (t : ℕ) → IsConsistent (frame_at style o t)
  unfolding frame_at update_radar_tiles update_at add_radar_layer add_at
  IsConsistent-frame_at t = ground arith

  -- Off: the overlay goes. On, with a layer: its opacity, and its tiles if the product is another.
  pub IsConsistent-radar_state :
      (enabled : Bool) (product : Option Text) (opacity : Option ℕ)
      → IsConsistent (radar_state style o enabled product opacity)
  unfolding radar_state update_radar_tiles update_at add_radar_layer add_at chosen
  IsConsistent-radar_state false product opacity = ground arith
  IsConsistent-radar_state true none opacity = ground (arith, same_product_refl o.radar.product)
  IsConsistent-radar_state true (some p) opacity =
      ground (arith, same_product_refl o.radar.product, same_product-eq o.radar.product (some p))

pub IsConsistent-loaded_times :
    (style : List StyleLayer) (n : ℕ) (o : Overlay)
    → IsConsistent o
    → IsConsistent (loaded_times style n o)
unfolding loaded_times
IsConsistent-loaded_times style zero o c = c
IsConsistent-loaded_times style (suc n) o c =
    IsConsistent-loaded_times style n (add_radar_layer style o)
      (IsConsistent-add_radar_layer style o c)

pub IsConsistent-style_load :
    (style : List StyleLayer) (o : Overlay) → IsConsistent o → IsConsistent (style_load style o)
unfolding style_load
IsConsistent-style_load style o c =
    IsConsistent-loaded_times style o.waiting (record o { loaded = true; waiting = 0 })
      (record { tiles = c.tiles; both = c.both; painted = c.painted; off = c.off })

pub IsConsistent-run_event :
    (style : List StyleLayer) (o : Overlay) (e : Event)
    → IsConsistent o
    → IsConsistent (run_event style o e)
unfolding run_event apply_radar_frame
IsConsistent-run_event style o (state enabled product opacity) c =
    IsConsistent-radar_state style o c enabled product opacity
IsConsistent-run_event style o (frame none) c = c
IsConsistent-run_event style o (frame (some t)) c = IsConsistent-frame_at style o c t
IsConsistent-run_event style o style_set c = IsConsistent-set_style style o c
IsConsistent-run_event style o style_loaded c = IsConsistent-style_load style o c

IsConsistent-run_events :
    (style : List StyleLayer) (o : Overlay) (es : List Event)
    → IsConsistent o
    → IsConsistent (run_events style o es)
IsConsistent-run_events style o [] c = c
IsConsistent-run_events style o (e ∷ es) c =
    IsConsistent-run_events style (run_event style o e) es (IsConsistent-run_event style o e c)

-- After any events since the start, the source shows the tiles of the chosen product at the chosen
-- instant, there is a layer exactly if there is a source, it has the chosen opacity, and there is
-- none of them while the radar is off.
pub run_events-IsConsistent :
    (style : List StyleLayer) (set_tiles : Bool) (es : List Event)
    → IsConsistent (run_events style (start set_tiles) es)
run_events-IsConsistent style set_tiles es =
    IsConsistent-run_events style (start set_tiles) es
      (record { tiles = tt; both = tt; painted = tt; off = λ _. refl })
