-- ===== src/Timeline/State.antt =====
-- The fields of the hook `RadarTimeline` (mounted), what it shows, and what it sends.
use voria.Prelude.{ℕ, Bool, true, false, List, [], Option, none}
use voria.Prelude.Int.{ℤ, pos}
use voria.Prelude.Text.{Text, codes}

-- A text of the page: a dash, dots while a request runs, or an instant written out.
pub data Label : Type 0 where
  dash dots : Label
  instant : ℤ → Label

-- A mark on the track: a day begins after this hour (with the day's name), or a third hour.
pub data Tick : Type 0 where
  day_tick : ℤ → Text → Tick
  hour_tick : ℤ → Tick

pub data Effect : Type 0 where
  -- `emitFrame({time, live, product})`
  frame : ℤ → Bool → Text → Effect
  -- `pushEvent("radar_go_live")` and `pushEvent("radar_time_changed", …)`
  went_live : Effect
  time_changed : Option ℤ → Bool → Effect
  -- A request of `fetchLatest`, a socket that was opened, and one that was closed.
  requested : Text → Effect
  socket_opened : Effect
  socket_closed : Effect

-- What the elements show. The handle stands at `handle` milliseconds of the window.
pub record View : Type 0 where
  pub visible : Bool
  pub time_label : Label
  pub sub_label : Label
  pub handle : ℕ
  pub value_now : ℤ
  pub live_shown : Bool
  pub pause_shown : Bool
  pub drag_shown : Bool
  pub ticks : List Tick
  pub has_legend : Bool
  pub legend_on : Bool
  pub legend_product : Option Text

-- A timer is kept as whether it is pending, that of the reconnection with its delay; the socket as
-- whether it is there. `hidden` is `document.hidden`; `log` is what was sent, the newest first.
pub record Timeline : Type 0 where
  pub enabled : Bool
  pub product : Text
  pub latest : Option ℤ
  pub period : Option ℕ
  pub time : Option ℤ
  pub live : Bool
  pub playing : Bool
  pub dragging : Bool
  pub ws : Bool
  pub ws_timer : Option ℕ
  pub ws_delay : ℕ
  pub play_timer : Bool
  pub play_hold : Bool
  pub play_from : Option ℤ
  pub sync_timer : Bool
  pub publish_raf : Bool
  pub syncing : Bool
  pub hidden : Bool
  pub view : View
  pub log : List Effect

abbrev pub play_frame_ms : ℕ
play_frame_ms = 500

abbrev pub play_window_ms : ℕ
play_window_ms = 10800000

abbrev pub play_min_frames : ℕ
play_min_frames = 12

abbrev pub ws_reconnect_min_ms : ℕ
ws_reconnect_min_ms = 1000

abbrev pub ws_reconnect_max_ms : ℕ
ws_reconnect_max_ms = 60000

-- The state after `mounted`, on a page with or without the legend.
unfoldable pub mounted : Bool → Bool → Timeline
mounted has_legend hidden = record {
  enabled = false;
  product = codes "VMI";
  latest = none;
  period = none;
  time = none;
  live = true;
  playing = false;
  dragging = false;
  ws = false;
  ws_timer = none;
  ws_delay = ws_reconnect_min_ms;
  play_timer = false;
  play_hold = false;
  play_from = none;
  sync_timer = false;
  publish_raf = false;
  syncing = false;
  hidden = hidden;
  view = record {
    visible = false;
    time_label = dash;
    sub_label = dash;
    handle = 0;
    value_now = pos 100;
    live_shown = false;
    pause_shown = false;
    drag_shown = false;
    ticks = [];
    has_legend = has_legend;
    legend_on = false;
    legend_product = none;
  };
  log = [];
}
