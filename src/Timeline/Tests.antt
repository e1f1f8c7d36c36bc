-- ===== src/Timeline/Tests.antt =====
-- The theorems on the timeline at concrete inputs: a calendar in which it is always Monday, midnight,
-- and sessions in which the radar is switched on, answered, told of a newer frame, played and stepped.
use voria.Prelude.{none, ◌-◌, suc, true, false, ◌≡◌, refl, some, [], ◌∷◌, List, arith}
use voria.Prelude.Int.{pos, round_div}
use voria.Prelude.Text.{codes, text_eq}
use voria.Timeline.State.{Timeline, mounted}
use voria.Timeline.Grid.{Calendar}
use voria.Timeline.Connection.{schedule_reconnect}
use voria.Timeline.Play.{frame_count, start_play}
use voria.Timeline.Step.{
  Event, radar_state, play_click, prev_click, play_tick, sync_over, socket_lost, reconnect, answer,
  news, run_event, run_events,
}
use voria.Radar.Latest.{Response, failed, answered, fetch_latest}
use voria.Timeline.Faults.{
  no_answer, no_message, foreign, no_more, one_more, KeepsAll, run_events-AllFaults, newest_of,
  CaughtUp, run_events-CaughtUp,
}
use voria.Timeline.Wired.{IsWired, run_events-IsWired}
use voria.Timeline.Aligned.{IsAligned}
use voria.Timeline.Aligned.Run.{run_events-IsAligned}
use voria.Timeline.Playback.{
  play_ticks, AtFrame, RoundOver, play_ticks-start_play, RoundOver-start_play,
}
use voria.Timeline.Controls.{destroyed}
use voria.Timeline.Life.{run_events-destroyed}
use voria.Timeline.Backoff.{losses, backoff, ws_timer-losses}

abbrev midnight : Calendar
midnight = record { hour_of = λ t. 0; day_of = λ t. codes "Monday" }

abbrev body : Response
body =
    answered true
      (some (some (record { time = some (pos 1709251812345); period = some (codes "PT5M") }) ∷ []))

abbrev session : List Event
session =
    radar_state true (some (codes "SRI"))
    ∷ play_click
    ∷ play_tick
    ∷ prev_click
    ∷ socket_lost
    ∷ reconnect
    ∷ []

run_events-IsWired_example : IsWired (run_events midnight (mounted true false) session)
run_events-IsWired_example = run_events-IsWired midnight true false session

-- The radar of the rain is switched on, the service answers, a newer frame is out, and playback runs.
abbrev played : List Event
played =
    radar_state true (some (codes "SRI"))
    ∷ answer body
    ∷ news (some (record { product_type = codes "SRI"; time = some (pos 1709252112345) }))
    ∷ prev_click
    ∷ play_click
    ∷ play_tick
    ∷ []

run_events-IsAligned_example : IsAligned (run_events midnight (mounted true false) played)
unfolding voria.Timeline.Step.run_event voria.Timeline.Controls.apply_state mounted
    voria.Timeline.Sync.resync voria.Timeline.Connection.open_socket
    voria.Timeline.Publish.update_legend
run_events-IsAligned_example =
    run_events-IsAligned midnight true false played (tt, (refl, (tt, (tt, (tt, (tt, tt))))))

-- The radar is on, and its newest frame is known.
abbrev live_radar : Timeline
live_radar = record (mounted true false) {
  enabled = true;
  latest = some (pos 1709251500000);
  period = some 300000;
}

play_ticks-start_play_example :
    AtFrame (pos 1709251500000) 300000 (suc 30) (play_ticks 4 (start_play live_radar))
unfolding frame_count mounted round_div
play_ticks-start_play_example =
    play_ticks-start_play live_radar (pos 1709251500000) 300000 refl refl refl (omega arith)
      (omega arith) 4 30 refl

RoundOver-start_play_example :
    RoundOver (pos 1709251500000) (play_ticks (frame_count 300000 - 1) (start_play live_radar))
unfolding mounted
RoundOver-start_play_example =
    RoundOver-start_play live_radar (pos 1709251500000) 300000 refl refl refl (omega arith)
      (omega arith)

-- The radar is switched on, and its socket is lost twice and reconnected; between, playback runs.
abbrev unsteady : List Event
unsteady =
    radar_state true (some (codes "SRI"))
    ∷ socket_lost
    ∷ reconnect
    ∷ play_click
    ∷ socket_lost
    ∷ reconnect
    ∷ news none
    ∷ []

ws_timer-losses_example :
    (run_event midnight (run_events midnight (mounted true false) unsteady) socket_lost).ws_timer
    ≡ some (backoff (losses midnight (mounted true false) 0 unsteady))
unfolding mounted run_event voria.Timeline.Play.toggle_play voria.Timeline.Controls.apply_state
    voria.Timeline.Sync.resync voria.Timeline.Connection.open_socket
    voria.Timeline.Publish.update_legend schedule_reconnect voria.Timeline.Sync.reconnect_fires
    start_play voria.Timeline.Sync.on_socket_message
ws_timer-losses_example = ws_timer-losses midnight true false unsteady refl

-- The radar with its socket.
abbrev connected : Timeline
connected = record live_radar { ws = true }

failed_none : fetch_latest failed ≡ none
unfolding fetch_latest
failed_none = refl

run_events-AllFaults_example : KeepsAll connected (
    run_events midnight connected (
      answer failed
      ∷ news none
      ∷ news (some (record { product_type = codes "SRI"; time = some (pos 1) }))
      ∷ []))
unfolding mounted text_eq
run_events-AllFaults_example =
    run_events-AllFaults midnight connected _
      (one_more (no_answer failed_none) (one_more no_message (one_more (foreign refl) no_more)))

run_events-CaughtUp_example :
    CaughtUp
      (newest_of (codes "VMI") (record { time = pos 1709251812345; period = some (codes "PT5M") }))
      (run_events midnight connected (socket_lost ∷ reconnect ∷ answer body ∷ []))
unfolding mounted fetch_latest
run_events-CaughtUp_example =
    run_events-CaughtUp midnight connected body
      (record { time = pos 1709251812345; period = some (codes "PT5M") }) refl refl refl refl refl

run_events-destroyed_example :
    run_events midnight
      (destroyed live_radar)
      (play_tick ∷ socket_lost ∷ reconnect ∷ sync_over ∷ [])
    ≡ destroyed live_radar
unfolding mounted
run_events-destroyed_example =
    run_events-destroyed midnight live_radar (play_tick ∷ socket_lost ∷ reconnect ∷ sync_over ∷ [])
      refl (tt, (tt, (tt, (tt, tt))))
