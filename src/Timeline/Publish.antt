-- ===== src/Timeline/Publish.antt =====
-- Showing and sending the frame (publishFrame, schedulePublish, setTime, updateLegend).
use voria.Prelude.{Bool, true, false, not, ◌&&◌, ◌∷◌, Option, none, some, if◌then◌else◌}
use voria.Prelude.Int.{ℤ, leb_ℤ}
use voria.Prelude.Text.{Text, text_eq}
use voria.Timeline.State.{Timeline, instant, frame, time_changed}
use voria.Timeline.Grid.{pos_for, percent}

-- The texts, the handle, the LIVE button and the frame event for the instant that is shown, and the
-- timer that tells the server.
unfoldable pub show_frame : Timeline → ℤ → ℤ → Bool → Timeline
show_frame s latest time live = record s {
  time = some time;
  live = live;
  sync_timer = true;
  view = record s.view {
    time_label = instant time;
    sub_label = instant time;
    handle = pos_for latest time;
    value_now = percent (pos_for latest time);
    live_shown = live;
  };
  log = frame time live s.product ∷ s.log;
}

-- An instant at the newest frame or after it is the newest frame, live.
unfoldable pub publish_at : Timeline → Bool → Option ℤ → Option ℤ → Timeline
publish_at s true (some time) (some latest) =
    if leb_ℤ latest time then show_frame s latest latest true else show_frame s latest time false
publish_at s _ _ _ = s

unfoldable pub publish_frame : Timeline → Timeline
unfolding publish_at show_frame
publish_frame s = publish_at s s.enabled s.time s.latest

unfoldable pub schedule_publish : Timeline → Timeline
schedule_publish s = if s.publish_raf then s else record s { publish_raf = true }

-- The frame callback of schedulePublish.
unfoldable pub raf_fires : Timeline → Timeline
raf_fires s = publish_frame (record s { publish_raf = false })

-- The callback of the server's timer.
unfoldable pub sync_fires : Timeline → Timeline
sync_fires s = record s { sync_timer = false; log = time_changed s.time s.live ∷ s.log }

-- `time === this._time`
unfoldable pub is_time : Option ℤ → ℤ → Bool
is_time none t = false
is_time (some u) t = leb_ℤ u t && leb_ℤ t u

unfoldable pub set_time : Timeline → ℤ → Timeline
set_time s time =
    if is_time s.time time then publish_frame s else publish_frame (record s { time = some time })

is_shown : Option Text → Text → Bool
is_shown none product = false
is_shown (some shown) product = text_eq shown product

unfoldable pub update_legend : Timeline → Timeline
unfolding is_shown
update_legend s =
    if not s.view.has_legend
    then s
    else if s.enabled
    then record s {
      view = record s.view {
        legend_on = true;
        legend_product =
            if is_shown s.view.legend_product s.product
            then s.view.legend_product
            else some s.product;
      };
    }
    else record s { view = record s.view { legend_on = false } }

-- The image of the legend does not load. No other operation depends on it, and Step leaves it out.
unfoldable pub legend_error : Timeline → Timeline
legend_error s =
    if s.view.has_legend then record s { view = record s.view { legend_on = false } } else s
