-- ===== src/Page/Tests.antt =====
-- The theorem on the page at a session: the radar is switched on, its newest frame is answered.
use voria.Prelude.{◌≡◌, refl, none, some, [], ◌∷◌, List, true, false}
use voria.Prelude.Int.{pos}
use voria.Prelude.Text.{codes}
use voria.Radar.Latest.{answered}
use voria.Radar.Url.{tile_url}
use voria.Timeline.Grid.{Calendar}
use voria.Timeline.Step
use voria.Page.{Event, timeline_event, style_set, style_loaded, state}
use voria.Timeline.State.{mounted}
use voria.Timeline.Publish.{publish_frame, update_legend}
use voria.Timeline.Connection.{open_socket}
use voria.Timeline.Sync.{resync, resync_with, synced, synced_time}
use voria.Timeline.Controls.{apply_state, chosen_product}
use voria.Radar.Latest.{fetch_latest}
use voria.Radar.Floor.{floor_to_period}
use voria.Radar.Period.{parse_period}
use voria.Radar.Product.{product_by_id, find_product}
use voria.Prelude.Int.{floor_div, ◌*ℤ◌}
use voria.Prelude.Text.{text_eq, is_empty}
use voria.Page.{run_event, advanced, fresh, deliver, heard}
use voria.Map.Overlay.{
  radar_state, apply_radar_frame, frame_at, wants_radar, add_radar_layer, add_at, chosen, set_style,
  style_load, loaded_times,
}
use voria.Page.Agrees.{reached, reached-tiles}

abbrev midnight : Calendar
midnight = record { hour_of = λ t. 0; day_of = λ t. codes "Monday" }

-- The server's state comes before the first style is loaded, and the answer after that.
abbrev early : List Event
early = state true true (some (codes "SRI")) (some 70) ∷ []

abbrev later : List Event
later =
    timeline_event
      (Step.answer
        (answered true (some (some (record { time = some (pos 612345); period = none }) ∷ []))))
      tt
    ∷ style_set
    ∷ style_loaded
    ∷ []

abbrev session : List Event
session = state true true (some (codes "SRI")) (some 70) ∷ style_loaded ∷ later

reached-tiles_example :
    tile_url (codes "SRI") 600000
    ≡ tile_url (reached midnight [] true false true session).timeline.product 600000
unfolding run_event advanced mounted apply_state resync open_socket update_legend Step.run_event
    resync_with fetch_latest synced synced_time publish_frame floor_to_period floor_div ◌*ℤ◌
    chosen_product is_empty parse_period product_by_id find_product text_eq fresh deliver heard
    radar_state apply_radar_frame frame_at add_radar_layer add_at chosen set_style style_load
    loaded_times wants_radar
reached-tiles_example =
    reached-tiles midnight [] true false true session (pos 600000) (tile_url (codes "SRI") 600000)
      refl refl
