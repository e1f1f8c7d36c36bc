-- ===== src/Timeline/Controls.antt =====
-- What the page and the user do (applyState, the visibility of the page, step, goLive, dragTo, the
-- pointer and the keys on the track, destroyed).
use voria.Prelude.{
  ℕ, ◌==◌, Bool, true, false, not, ◌&&◌, ◌||◌, ◌∷◌, Option, none, some, max, leb, if◌then◌else◌,
  with_both, with_value,
}
use voria.Prelude.Int.{ℤ, pos, negsuc, pos_part, sub_ℕ, ◌+ℤ◌, ◌*ℤ◌, min_ℤ, max_ℤ, round_div}
use voria.Prelude.Text.{Text, text_eq, is_empty}
use voria.Radar.Product.{hour_ms}
use voria.Timeline.State.{Timeline, went_live}
use voria.Timeline.Grid.{oldest_time, drag_time}
use voria.Timeline.Publish.{publish_frame, schedule_publish, is_time, set_time, update_legend}
use voria.Timeline.Play.{or_zero, stop_play}
use voria.Timeline.Connection.{open_socket, close_socket}
use voria.Timeline.Sync.{resync}

-- `product && product !== this._product`: a missing or an empty name changes nothing.
unfoldable pub chosen_product : Text → Option Text → Text
chosen_product old none = old
chosen_product old (some new) = if is_empty new then old else new

is_none : {A : Type 0} → Option A → Bool
is_none none = true
is_none (some a) = false

unfoldable pub apply_state : Timeline → Bool → Option Text → Timeline
unfolding is_none
apply_state s enabled product =
    let set = update_legend (record s {
      enabled = enabled;
      product = chosen_product s.product product;
      view = record s.view { visible = enabled };
    }) in
    if enabled
    then (let open_ = open_socket set in
        if is_none s.latest || not (text_eq s.product (chosen_product s.product product))
        then resync open_
        else publish_frame open_)
    else close_socket (stop_play set)

-- The page was hidden, or shown again.
unfoldable pub visibility_change : Timeline → Bool → Timeline
visibility_change s true = close_socket (stop_play (record s { hidden = true }))
visibility_change s false =
    let seen = record s { hidden = false } in if s.enabled then open_socket seen else seen

unfoldable pub step_at : Timeline → ℤ → ℕ → ℤ → Timeline
step_at s latest period frames =
    let next = or_zero s.time +ℤ frames *ℤ period in
    set_time (stop_play s) (min_ℤ (max_ℤ next (oldest_time latest period)) latest)

-- `step(frames)`
unfoldable pub step : Timeline → ℤ → Timeline
step s frames = with_both s.latest s.period (λ l p. step_at s l p frames) s

unfoldable pub go_live_at : Timeline → ℤ → Timeline
go_live_at s latest =
    let shown = set_time (stop_play s) latest in record shown { log = went_live ∷ shown.log }

unfoldable pub go_live : Timeline → Timeline
go_live s = with_value s.latest (go_live_at s) s

-- Where the track lies on the page (getBoundingClientRect).
pub record Rect : Type 0 where
  pub left : ℤ
  pub width : ℕ

unfoldable pub drag_at : Timeline → ℤ → ℕ → ℤ → Rect → Timeline
drag_at s latest period x r =
    let time = drag_time latest period x r.left r.width in
    if r.width == 0 || is_time s.time time
    then s
    else schedule_publish (record s { time = some time; live = false })

unfoldable pub drag_to : Timeline → ℤ → Rect → Timeline
drag_to s x r = with_both s.latest s.period (λ l p. drag_at s l p x r) s

-- `!this._enabled || this._latest == null || this._period == null`, negated.
unfoldable pub is_ready : Timeline → Bool
unfolding is_none
is_ready s = s.enabled && not (is_none s.latest) && not (is_none s.period)

unfoldable pub track_down : Timeline → ℤ → Rect → Timeline
track_down s x r =
    let stopped = stop_play s in
    if is_ready s
    then drag_to
        (record stopped { dragging = true; view = record stopped.view { drag_shown = true } }) x r
    else s

unfoldable pub track_move : Timeline → ℤ → Rect → Timeline
track_move s x r = if s.dragging then drag_to s x r else s

unfoldable pub track_up : Timeline → Timeline
track_up s =
    if s.dragging
    then publish_frame (record s { dragging = false; view = record s.view { drag_shown = false } })
    else s

pub data Key : Type 0 where
  arrow_left arrow_right home end other_key : Key

-- The frames of an hour, at least one.
unfoldable pub hour_frames : ℕ → ℕ
hour_frames period =
    if leb hour_ms period then 1 else max 1 (pos_part (round_div (pos hour_ms) period))

unfoldable pub key_at : Timeline → ℤ → ℕ → Key → Bool → Timeline
key_at s latest period arrow_left shift =
    step s (if shift then sub_ℕ 0 (hour_frames period) else negsuc 0)
key_at s latest period arrow_right shift =
    step s (if shift then pos (hour_frames period) else pos 1)
key_at s latest period home shift = set_time s (oldest_time latest period)
key_at s latest period end shift = go_live s
key_at s latest period other_key shift = s

unfoldable pub handle_key : Timeline → Key → Bool → Timeline
handle_key s key shift =
    if s.enabled then with_both s.latest s.period (λ l p. key_at s l p key shift) s else s

unfoldable pub destroyed : Timeline → Timeline
destroyed s = record (close_socket (stop_play s)) { sync_timer = false; publish_raf = false }
