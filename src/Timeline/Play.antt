-- ===== src/Timeline/Play.antt =====
-- Playback (startPlay, advancePlay, stopPlay, togglePlay).
use voria.Prelude.{
  ℕ, ◌+◌, ◌-◌, ◌*◌, true, false, Option, none, some, min, max, if◌then◌else◌, with_both,
}
use voria.Prelude.Int.{ℤ, pos, pos_part, ◌+ℤ◌, ◌-ℤ◌, leb_ℤ, round_div}
use voria.Timeline.State.{Timeline, play_window_ms, play_min_frames}
use voria.Timeline.Grid.{max_idx}
use voria.Timeline.Publish.{publish_frame}

-- Three hours of frames, but at least twelve, and at most those of the window.
unfoldable pub frame_count : ℕ → ℕ
frame_count period =
    min (max (pos_part (round_div (pos play_window_ms) period)) play_min_frames)
      (max_idx period + 1)

unfoldable pub start_at : Timeline → ℤ → ℕ → Timeline
start_at s latest period =
    let from = latest -ℤ pos ((frame_count period - 1) * period) in
    let shown = publish_frame (record s {
      play_from = some from;
      playing = true;
      time = some from;
      view = record s.view { pause_shown = true };
    }) in
    record shown { play_timer = true }

unfoldable pub start_play : Timeline → Timeline
start_play s = if s.enabled then with_both s.latest s.period (start_at s) s else s

-- `null` counts as 0 in a sum.
abbrev pub or_zero : Option ℤ → ℤ
or_zero none = pos 0
or_zero (some t) = t

-- One tick of the interval. At the newest frame the interval ends and the pause before the next
-- round begins.
unfoldable pub advance_at : Timeline → ℤ → ℕ → Timeline
advance_at s latest period =
    let next = or_zero s.time +ℤ pos period in
    if leb_ℤ latest next
    then (let shown = publish_frame (record s { time = some latest }) in
        record shown { play_timer = false; play_hold = true })
    else publish_frame (record s { time = some next })

-- While the interval runs there are a newest frame and a period.
unfoldable pub advance_play : Timeline → Timeline
advance_play s = with_both s.latest s.period (advance_at s) s

-- The pause is over: the round begins again.
unfoldable pub hold_fires : Timeline → Timeline
hold_fires s =
    let over = record s { play_hold = false } in
    if s.playing
    then (let shown = publish_frame (record over { time = s.play_from }) in
        record shown { play_timer = true })
    else over

unfoldable pub stop_play : Timeline → Timeline
stop_play s = record s {
  playing = false;
  play_timer = false;
  play_hold = false;
  view = record s.view { pause_shown = false };
}

unfoldable pub toggle_play : Timeline → Timeline
toggle_play s = if s.playing then stop_play s else start_play s
