-- ===== src/Map/Overlay/Present.antt =====
-- When the radar is on the map.
use voria.Prelude.{
  ℕ, zero, suc, ◌≤◌, Bool, true, false, ◌≡◌, refl, sym, false-true, ◌∙◌, Option, none, some, List,
  arith,
}
use voria.Prelude.Text.{Text}
use voria.Radar.Url.{tile_url}
use voria.Map.Overlay.{
  Overlay, wants_radar, StyleLayer, add_at, add_radar_layer, update_at, update_radar_tiles,
  radar_state, frame_at, IsConsistent, same_product-eq, same_product_refl, chosen, set_style,
  loaded_times, style_load, IsConsistent-add_radar_layer, IsConsistent-set_style,
  IsConsistent-frame_at, IsConsistent-radar_state, IsConsistent-style_load,
}

-- With the style loaded, the radar on, a product and an instant, the source has their tiles.
abbrev pub IsShown : Overlay → Type 0
IsShown o =
    (product : Text) (time : ℕ)
    → o.loaded ≡ true
    → o.radar.enabled ≡ true
    → o.radar.product ≡ some product
    → o.radar.time ≡ some time
    → o.source ≡ some (tile_url product time)

module _ (style : List StyleLayer) (o : Overlay) (c : IsConsistent o) where
  IsShown-add_radar_layer : IsShown (add_radar_layer style o)
  unfolding add_radar_layer add_at
  IsShown-add_radar_layer product time l on p t = ground (arith, l, on, p, t)

  IsShown-frame_at : (t : ℕ) → IsShown o → IsShown (frame_at style o t)
  unfolding frame_at update_radar_tiles update_at add_radar_layer add_at
  IsShown-frame_at t shown product time l on p e = ground (arith, l, on, p, e)

  IsShown-radar_state :
      (enabled : Bool) (product : Option Text) (opacity : Option ℕ)
      → IsShown o
      → IsShown (radar_state style o enabled product opacity)
  unfolding radar_state update_radar_tiles update_at add_radar_layer add_at chosen
  IsShown-radar_state false product opacity shown p t l on e f = ground (arith, on)
  IsShown-radar_state true none opacity shown p t l on e f =
      ground (arith, same_product_refl o.radar.product, l, e, f)
  IsShown-radar_state true (some q) opacity shown p t l on e f =
      ground (
        arith,
        same_product_refl o.radar.product,
        same_product-eq o.radar.product (some q),
        l,
        e,
        f,
      )

  keeps-add_radar_layer :
      ((add_radar_layer style o).loaded ≡ o.loaded)
      × ((add_radar_layer style o).waiting ≡ o.waiting)
  unfolding add_radar_layer add_at
  keeps-add_radar_layer = ground arith

  keeps-frame_at :
      (t : ℕ)
      → ((frame_at style o t).loaded ≡ o.loaded) × ((frame_at style o t).waiting ≡ o.waiting)
  unfolding frame_at update_radar_tiles update_at add_radar_layer add_at
  keeps-frame_at t = ground arith

  keeps-radar_state :
      (enabled : Bool) (product : Option Text) (opacity : Option ℕ)
      → ((radar_state style o enabled product opacity).loaded ≡ o.loaded)
        × ((radar_state style o enabled product opacity).waiting ≡ o.waiting)
  unfolding radar_state update_radar_tiles update_at add_radar_layer add_at
  keeps-radar_state enabled product opacity = ground arith

-- The callbacks of a style that is loaded show the radar, if there is one, or it was shown before.
IsShown-loaded_times :
    (style : List StyleLayer) (n : ℕ) (o : Overlay)
    → IsConsistent o
    → (n ≡ 0 → IsShown o)
    → IsShown (loaded_times style n o)
unfolding loaded_times
IsShown-loaded_times style zero o c s = s refl
IsShown-loaded_times style (suc n) o c s =
    IsShown-loaded_times style n (add_radar_layer style o) (IsConsistent-add_radar_layer style o c)
      (λ _. IsShown-add_radar_layer style o c)

loaded-loaded_times :
    (style : List StyleLayer) (n : ℕ) (o : Overlay)
    → IsConsistent o
    → (loaded_times style n o).loaded ≡ o.loaded
unfolding loaded_times
loaded-loaded_times style zero o c = refl
loaded-loaded_times style (suc n) o c =
    loaded-loaded_times style n (add_radar_layer style o) (IsConsistent-add_radar_layer style o c)
    ∙ (keeps-add_radar_layer style o c).0

-- The overlay of a map whose first style was loaded: the radar is shown once the style is loaded, and
-- while another one is not, a callback waits for it.
pub record IsReady (o : Overlay) : Type 0 where
  pub consistent : IsConsistent o
  pub shown : IsShown o
  pub awaited : o.loaded ≡ false → 1 ≤ o.waiting

module _ (style : List StyleLayer) (o : Overlay) (r : IsReady o) where
  pub IsReady-frame_at : (t : ℕ) → IsReady (frame_at style o t)
  IsReady-frame_at t =
      let k = keeps-frame_at style o r.consistent t in
      record {
        consistent = IsConsistent-frame_at style o r.consistent t;
        shown = IsShown-frame_at style o r.consistent t r.shown;
        awaited = λ e. rw k.1 (r.awaited (sym k.0 ∙ e));
      }

  pub IsReady-radar_state :
      (enabled : Bool) (product : Option Text) (opacity : Option ℕ)
      → IsReady (radar_state style o enabled product opacity)
  IsReady-radar_state enabled product opacity =
      let k = keeps-radar_state style o r.consistent enabled product opacity in
      record {
        consistent = IsConsistent-radar_state style o r.consistent enabled product opacity;
        shown = IsShown-radar_state style o r.consistent enabled product opacity r.shown;
        awaited = λ e. rw k.1 (r.awaited (sym k.0 ∙ e));
      }

  pub IsReady-set_style : IsReady (set_style o)
  unfolding set_style
  IsReady-set_style = record {
    consistent = IsConsistent-set_style style o r.consistent;
    shown = λ product time l on p t. absurd (false-true l);
    awaited = λ _. omega arith;
  }

  pub IsReady-style_load : IsReady (style_load style o)
  unfolding style_load
  IsReady-style_load =
      let here : Overlay = record o { loaded = true; waiting = 0 } in
      let c : IsConsistent here = record {
        tiles = r.consistent.tiles;
        both = r.consistent.both;
        painted = r.consistent.painted;
        off = r.consistent.off;
      } in
      record {
        consistent = IsConsistent-style_load style o r.consistent;
        shown = IsShown-loaded_times style o.waiting here c (λ none_waits product time l on p t.
            ground (arith, r.awaited, none_waits, r.shown product time, on, p, t));
        awaited = λ e. absurd (false-true (sym e ∙ loaded-loaded_times style o.waiting here c));
      }

-- The first style of the map is loaded while no radar is wanted yet.
pub IsReady-first_load :
    (style : List StyleLayer) (o : Overlay)
    → IsConsistent o
    → wants_radar o ≡ false
    → IsReady (style_load style o)
unfolding style_load wants_radar
IsReady-first_load style o r idle =
    let here : Overlay = record o { loaded = true; waiting = 0 } in
    let c : IsConsistent here = record {
      tiles = r.tiles;
      both = r.both;
      painted = r.painted;
      off = r.off;
    } in
    record {
      consistent = IsConsistent-style_load style o r;
      shown =
          IsShown-loaded_times style o.waiting here c
            (λ none_waits product time l on p t. ground (arith, idle, on, p, t));
      awaited = λ e. absurd (false-true (sym e ∙ loaded-loaded_times style o.waiting here c));
    }

-- What every operation on the overlay keeps.
pub record IsKept (style : List StyleLayer) (P : Overlay → Type 0) : Type 0 where
  pub framed : (o : Overlay) → P o → (t : ℕ) → P (frame_at style o t)
  pub stated :
      (o : Overlay)
      → P o
      → (enabled : Bool) (product : Option Text) (opacity : Option ℕ)
      → P (radar_state style o enabled product opacity)
  pub styled : (o : Overlay) → P o → P (set_style o)
  pub loaded : (o : Overlay) → P o → P (style_load style o)

pub IsKept-IsConsistent : (style : List StyleLayer) → IsKept style IsConsistent
IsKept-IsConsistent style = record {
  framed = IsConsistent-frame_at style;
  stated = IsConsistent-radar_state style;
  styled = IsConsistent-set_style style;
  loaded = IsConsistent-style_load style;
}

pub IsKept-IsReady : (style : List StyleLayer) → IsKept style IsReady
IsKept-IsReady style = record {
  framed = IsReady-frame_at style;
  stated = IsReady-radar_state style;
  styled = IsReady-set_style style;
  loaded = IsReady-style_load style;
}
