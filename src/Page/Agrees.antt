-- ===== src/Page/Agrees.antt =====
-- The map shows what the timeline says.
use voria.Prelude.{
  ℕ, ◌≡◌, refl, sym, ap, ◌∙◌, subst, Bool, true, false, ◌⊎◌, inl, Option, none, some, List, [], ◌∷◌,
  arith,
}
use voria.Prelude.Int.{ℤ, pos_part}
use voria.Prelude.Text.{Text}
use voria.Timeline.State.{Timeline, mounted, instant}
use voria.Timeline.Grid.{Calendar}
use voria.Timeline.Step
use voria.Timeline.Controls.{chosen_product, apply_state}
use voria.Map.Overlay.{
  Overlay, StyleLayer, start, IsConsistent, IsConsistent-run_event, radar_state, apply_radar_frame,
  frame_at, add_radar_layer, set_style, update_radar_tiles, update_at, add_at, chosen,
}
use voria.Map.Overlay
use voria.Radar.Url.{tile_url}
use voria.Page.{
  Page, Event, timeline_event, style_set, style_loaded, state, advanced, run_event, run_events,
}
use voria.Page.Log.{last_frame, Shown, Shown-Says}
use voria.Page.Tells.{Says}
use voria.Page.Heard.{radar-style_load, radar-radar_state, Heard-fresh}
use voria.Page.Steps.{Tells-run_event, Tells-apply_state}

-- The map is consistent, has the instant of the last frame, and the timeline shows that one.
pub record IsTold (p : Page) : Type 0 where
  pub consistent : IsConsistent p.overlay
  pub time : p.overlay.radar.time ≡ last_frame p.timeline.log
  pub shown : Shown p.timeline.view.time_label p.timeline.log

-- The map has no product yet, or the timeline's.
abbrev pub SameProduct : Option Text → Text → Type 0
SameProduct o product = (o ≡ none) ⊎ (o ≡ some product)

SameProduct-chosen :
    (o : Option Text) (old : Text) (new : Option Text)
    → SameProduct o old
    → SameProduct (chosen o new) (chosen_product old new)
unfolding chosen chosen_product
SameProduct-chosen o old none h = h
SameProduct-chosen o old (some new) h = ground (arith, h)

module _ (c : Calendar) (style : List StyleLayer) (p : Page) where
  IsTold-advanced :
      (t : Timeline)
      → Says p.timeline.view.time_label p.timeline.log t.view.time_label t.log
      → IsTold p
      → IsTold (advanced c style p t)
  unfolding advanced
  IsTold-advanced t says told =
      let h = Heard-fresh style p.overlay says in
      record {
        consistent = h.consistent told.consistent;
        time = h.time told.time;
        shown = Shown-Says says told.shown;
      }

  IsTold-radar_state :
      (enabled : Bool) (product : Option Text) (opacity : Option ℕ)
      → IsTold p
      → IsTold (record p { overlay = radar_state style p.overlay enabled product opacity })
  unfolding Overlay.run_event
  IsTold-radar_state enabled product opacity told = record {
    consistent =
        IsConsistent-run_event style p.overlay (Overlay.state enabled product opacity)
          told.consistent;
    time = (radar-radar_state style p.overlay enabled product opacity).0 ∙ told.time;
    shown = told.shown;
  }

pub record Agrees (p : Page) : Type 0 where
  pub told : IsTold p
  pub product : SameProduct p.overlay.radar.product p.timeline.product

module _ (c : Calendar) (style : List StyleLayer) where
  Agrees-advanced :
      (p : Page) (t : Timeline)
      → Says p.timeline.view.time_label p.timeline.log t.view.time_label t.log
      → IsTold p
      → SameProduct p.overlay.radar.product t.product
      → Agrees (advanced c style p t)
  unfolding advanced
  Agrees-advanced p t says told same = record {
    told = IsTold-advanced c style p t says told;
    product =
        subst (λ o. SameProduct o t.product) (sym (Heard-fresh style p.overlay says).product) same;
  }

  Agrees-style_set : (p : Page) → Agrees p → Agrees (run_event c style p style_set)
  unfolding run_event set_style Overlay.run_event
  Agrees-style_set p a = record {
    told = record {
      consistent = IsConsistent-run_event style p.overlay Overlay.style_set a.told.consistent;
      time = a.told.time;
      shown = a.told.shown;
    };
    product = a.product;
  }

  Agrees-style_loaded : (p : Page) → Agrees p → Agrees (run_event c style p style_loaded)
  unfolding run_event Overlay.run_event
  Agrees-style_loaded p a =
      let e = radar-style_load style p.overlay in
      record {
        told = record {
          consistent =
              IsConsistent-run_event style p.overlay Overlay.style_loaded a.told.consistent;
          time = rw e a.told.time;
          shown = a.told.shown;
        };
        product = rw e a.product;
      }

  Agrees-timeline_first :
      (p : Page) (enabled : Bool) (product : Option Text) (opacity : Option ℕ)
      → Agrees p
      → Agrees (run_event c style p (state true enabled product opacity))
  unfolding run_event advanced
  Agrees-timeline_first p enabled product opacity a =
      let (says, named) = Tells-apply_state p.timeline enabled product in
      let t = apply_state p.timeline enabled product in
      let q = advanced c style p t in
      let h = Heard-fresh style p.overlay says in
      let r = radar-radar_state style q.overlay enabled product opacity in
      record {
        told =
            IsTold-radar_state c style q enabled product opacity
              (IsTold-advanced c style p t says a.told);
        product =
            subst (λ o. SameProduct o t.product) (sym (r.1 ∙ ap (λ o. chosen o product) h.product))
              (subst (SameProduct (chosen p.overlay.radar.product product)) (sym named)
                (SameProduct-chosen p.overlay.radar.product p.timeline.product product a.product));
      }

  Agrees-map_first :
      (p : Page) (enabled : Bool) (product : Option Text) (opacity : Option ℕ)
      → Agrees p
      → Agrees (run_event c style p (state false enabled product opacity))
  unfolding run_event
  Agrees-map_first p enabled product opacity a =
      let (says, named) = Tells-apply_state p.timeline enabled product in
      let t = apply_state p.timeline enabled product in
      let o = radar_state style p.overlay enabled product opacity in
      let r = radar-radar_state style p.overlay enabled product opacity in
      Agrees-advanced (record p { overlay = o }) t says
        (IsTold-radar_state c style p enabled product opacity a.told)
        (subst (λ o. SameProduct o t.product) (sym r.1)
          (subst (SameProduct (chosen p.overlay.radar.product product)) (sym named)
            (SameProduct-chosen p.overlay.radar.product p.timeline.product product a.product)))

  pub Agrees-run_event : (p : Page) (e : Event) → Agrees p → Agrees (run_event c style p e)
  unfolding run_event
  Agrees-run_event p (timeline_event e own) a =
      let (says, named) = Tells-run_event p.timeline c e own in
      Agrees-advanced p (Step.run_event c p.timeline e) says a.told
        (subst (SameProduct p.overlay.radar.product) (sym named) a.product)
  Agrees-run_event p style_set a = Agrees-style_set p a
  Agrees-run_event p style_loaded a = Agrees-style_loaded p a
  Agrees-run_event p (state true enabled product opacity) a =
      Agrees-timeline_first p enabled product opacity a
  Agrees-run_event p (state false enabled product opacity) a =
      Agrees-map_first p enabled product opacity a

  pub Agrees-run_events : (p : Page) (es : List Event) → Agrees p → Agrees (run_events c style p es)
  Agrees-run_events p [] a = a
  Agrees-run_events p (e ∷ es) a =
      Agrees-run_events (run_event c style p e) es (Agrees-run_event p e a)

-- The page when both are mounted.
abbrev pub mounted_page : Bool → Bool → Bool → Page
mounted_page has_legend hidden set_tiles = record {
  timeline = mounted has_legend hidden;
  overlay = start set_tiles;
}

pub Agrees-mounted_page :
    (has_legend hidden set_tiles : Bool) → Agrees (mounted_page has_legend hidden set_tiles)
unfolding mounted
Agrees-mounted_page has_legend hidden set_tiles = record {
  told = record {
    consistent = record { tiles = tt; both = tt; painted = tt; off = λ _. refl };
    time = refl;
    shown = tt;
  };
  product = inl refl;
}

tiles-Shows :
    (source product : Option Text) (time : Option ℕ) (tiles name : Text) (n : ℕ)
    → Overlay.Shows source product time
    → source ≡ some tiles
    → SameProduct product name
    → time ≡ some n
    → tiles ≡ tile_url name n
tiles-Shows none product time tiles name n h e s t = cc
tiles-Shows (some u) none time tiles name n h e s t = elim h [ ]
tiles-Shows (some u) (some p) none tiles name n h e s t = elim h [ ]
tiles-Shows (some u) (some p) (some k) tiles name n h e s t = ground (arith, h, e, s, t)

-- What the page is after events since both were mounted.
abbrev pub reached : Calendar → List StyleLayer → Bool → Bool → Bool → List Event → Page
reached c style has_legend hidden set_tiles es =
    run_events c style (mounted_page has_legend hidden set_tiles) es

-- The map shows what the timeline says: after any events of the page since both were mounted, in
-- whatever order the two hear the server, if the timeline shows an instant and the map has a radar
-- source, then its tiles are those of the timeline's product at that instant.
pub reached-tiles :
    (c : Calendar) (style : List StyleLayer) (has_legend hidden set_tiles : Bool) (es : List Event)
    (t : ℤ) (tiles : Text)
    → (reached c style has_legend hidden set_tiles es).timeline.view.time_label ≡ instant t
    → (reached c style has_legend hidden set_tiles es).overlay.source ≡ some tiles
    → tiles
      ≡ tile_url (reached c style has_legend hidden set_tiles es).timeline.product (pos_part t)
reached-tiles c style has_legend hidden set_tiles es t tiles label source =
    let p = reached c style has_legend hidden set_tiles es in
    let a =
      Agrees-run_events c style (mounted_page has_legend hidden set_tiles) es
        (Agrees-mounted_page has_legend hidden set_tiles) in
    let shown : last_frame p.timeline.log ≡ some (pos_part t) =
      subst (λ l. Shown l p.timeline.log) label a.told.shown in
    tiles-Shows p.overlay.source p.overlay.radar.product p.overlay.radar.time tiles
      p.timeline.product (pos_part t) a.told.consistent.tiles source a.product (a.told.time ∙ shown)
