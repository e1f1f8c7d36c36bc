-- ===== src/Page.antt =====
-- The page: the timeline and the map together. The timeline's frames reach the map at once, by
-- emitFrame and onFrame of assets/js/radar.js, and both hear the server's `radar_state`. An instant
-- before 1970, which no frame has, would reach the map as 0. A listener that throws, as the map's does
-- while its style is not loaded, stops neither the timeline nor the other listeners (dispatchEvent).
pub mod Log
pub mod Tells
pub mod Steps
pub mod Heard
pub mod Agrees
pub mod Shows
mod Tests
use voria.Prelude.{
  ℕ, ◌-◌, Bool, true, false, ◌≡◌, Option, none, some, List, [], ◌∷◌, length, take, if◌then◌else◌,
}
use voria.Prelude.Int.{ℤ, pos_part}
use voria.Prelude.Text.{Text}
use voria.Timeline.State.{Timeline, Effect, frame}
use voria.Timeline.State
use voria.Timeline.Grid.{Calendar}
use voria.Timeline.Step
use voria.Timeline.Controls.{apply_state}
use voria.Map.Overlay.{
  Overlay, StyleLayer, start, radar_state, apply_radar_frame, set_style, style_load,
}

pub record Page : Type 0 where
  pub timeline : Timeline
  pub overlay : Overlay

-- What was sent since an earlier log; the newest stands first.
unfoldable pub fresh : List Effect → List Effect → List Effect
fresh before after = take (length after - length before) after

-- `emitFrame` calls the map's listener, `onFrame(({time}) => this.applyRadarFrame(time))`.
unfoldable pub heard : List StyleLayer → Overlay → Effect → Overlay
heard style o (frame time live product) = apply_radar_frame style o (some (pos_part time))
heard style o e = o

unfoldable pub deliver : List StyleLayer → Overlay → List Effect → Overlay
deliver style o [] = o
deliver style o (e ∷ es) = heard style (deliver style o es) e

-- An event that reaches the timeline alone.
abbrev pub IsOwn : Step.Event → Type 0
IsOwn (Step.radar_state enabled product) = ⊥
IsOwn _ = Unit {0}

-- The events that reach one of the two, and `radar_state`, which reaches both: the timeline first, or
-- the map first.
pub data Event : Type 0 where
  timeline_event : (e : Step.Event) → IsOwn e → Event
  style_set : Event
  style_loaded : Event
  state :
      (timeline_first : Bool) (enabled : Bool) (product : Option Text) (opacity : Option ℕ) → Event

module _ (c : Calendar) (style : List StyleLayer) where
  -- The timeline goes on, and the map hears its frames.
  unfoldable pub advanced : Page → Timeline → Page
  advanced p t = record {
    timeline = t;
    overlay = deliver style p.overlay (fresh p.timeline.log t.log);
  }

  map_state : Page → Bool → Option Text → Option ℕ → Page
  map_state p enabled product opacity = record p {
    overlay = radar_state style p.overlay enabled product opacity;
  }

  timeline_state : Page → Bool → Option Text → Page
  timeline_state p enabled product = advanced p (apply_state p.timeline enabled product)

  unfoldable pub run_event : Page → Event → Page
  unfolding map_state timeline_state
  run_event p (timeline_event e own) = advanced p (Step.run_event c p.timeline e)
  run_event p style_set = record p { overlay = set_style p.overlay }
  run_event p style_loaded = record p { overlay = style_load style p.overlay }
  run_event p (state first enabled product opacity) =
      if first
      then map_state (timeline_state p enabled product) enabled product opacity
      else timeline_state (map_state p enabled product opacity) enabled product

  abbrev pub run_events : Page → List Event → Page
  run_events p [] = p
  run_events p (e ∷ es) = run_events (run_event p e) es
