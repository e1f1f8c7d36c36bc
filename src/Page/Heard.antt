-- ===== src/Page/Heard.antt =====
-- What the map keeps of its radar when it hears frames and the server's state.
use voria.Prelude.{
  ℕ, zero, suc, true, ◌≡◌, refl, sym, ◌∙◌, subst, Bool, Option, some, List, [], ◌∷◌, ◌++◌, arith,
}
use voria.Prelude.Int.{pos_part}
use voria.Prelude.Text.{Text}
use voria.Timeline.State.{Timeline, mounted, Label, instant, Effect}
use voria.Timeline.State
use voria.Map.Overlay.{
  Overlay, StyleLayer, start, IsConsistent, IsConsistent-run_event, radar_state, apply_radar_frame,
  frame_at, loaded_times, style_load, add_radar_layer, set_style, update_radar_tiles, update_at,
  add_at, chosen,
}
use voria.Map.Overlay
use voria.Page.{fresh, heard, deliver}
use voria.Page.Log.{last_frame, Says-append, fresh-append}
use voria.Page.Tells.{Says}

module _ (style : List StyleLayer) (o : Overlay) where
  pub radar-add_radar_layer : (add_radar_layer style o).radar ≡ o.radar
  unfolding add_radar_layer add_at
  radar-add_radar_layer = ground arith

  radar-frame_at :
      (t : ℕ)
      → ((frame_at style o t).radar.time ≡ some t)
        × ((frame_at style o t).radar.product ≡ o.radar.product)
  unfolding frame_at update_radar_tiles update_at add_radar_layer add_at
  radar-frame_at t = ground arith

  pub radar-radar_state :
      (enabled : Bool) (product : Option Text) (opacity : Option ℕ)
      → ((radar_state style o enabled product opacity).radar.time ≡ o.radar.time)
        × ((radar_state style o enabled product opacity).radar.product
            ≡ chosen o.radar.product product)
  unfolding radar_state update_radar_tiles update_at add_radar_layer add_at
  radar-radar_state enabled product opacity = ground arith

pub radar-loaded_times :
    (style : List StyleLayer) (n : ℕ) (o : Overlay) → (loaded_times style n o).radar ≡ o.radar
unfolding loaded_times
radar-loaded_times style zero o = refl
radar-loaded_times style (suc n) o =
    radar-loaded_times style n (add_radar_layer style o) ∙ radar-add_radar_layer style o

pub radar-style_load :
    (style : List StyleLayer) (o : Overlay) → (style_load style o).radar ≡ o.radar
unfolding style_load
radar-style_load style o =
    radar-loaded_times style o.waiting (record o { loaded = true; waiting = 0 })

module _ (style : List StyleLayer) where
  -- What the map keeps of its radar when it hears frames.
  pub record Heard (o u : Overlay) (a b : List Effect) : Type 0 where
    pub consistent : IsConsistent o → IsConsistent u
    pub time : o.radar.time ≡ last_frame a → u.radar.time ≡ last_frame b
    pub product : u.radar.product ≡ o.radar.product

  Heard-heard : (o : Overlay) (e : Effect) (a : List Effect) → Heard o (heard style o e) a (e ∷ a)
  unfolding heard apply_radar_frame Overlay.run_event
  Heard-heard o (State.frame t live product) a = record {
    consistent = IsConsistent-run_event style o (Overlay.frame (some (pos_part t)));
    time = λ h. (radar-frame_at style o (pos_part t)).0;
    product = (radar-frame_at style o (pos_part t)).1;
  }
  Heard-heard o _ a = record { consistent = λ c. c; time = λ h. h; product = refl }

  Heard-deliver : (o : Overlay) (es a : List Effect) → Heard o (deliver style o es) a (es ++ a)
  unfolding deliver
  Heard-deliver o [] a = record { consistent = λ c. c; time = λ h. h; product = refl }
  Heard-deliver o (e ∷ es) a =
      let rest = Heard-deliver o es a in
      let first = Heard-heard (deliver style o es) e (es ++ a) in
      record {
        consistent = λ c. first.consistent (rest.consistent c);
        time = λ h. first.time (rest.time h);
        product = first.product ∙ rest.product;
      }

  pub Heard-fresh :
      (o : Overlay) {l m : Label} {a b : List Effect}
      → Says l a m b
      → Heard o (deliver style o (fresh a b)) a b
  Heard-fresh o {a = a} says =
      let (es, grown) = Says-append says in
      subst (λ b. Heard o (deliver style o (fresh a b)) a b) (sym grown)
        (subst (λ new. Heard o (deliver style o new) a (es ++ a)) (sym (fresh-append es a))
          (Heard-deliver o es a))
