-- ===== src/Timeline/Aligned/Run.antt =====
-- The grid in every state that the timeline reaches.
use voria.Prelude.{
  ◌&&◌, not, with_value_both, if_both, if_cases, Option-cases, ℕ, ◌<◌, Bool, true, false, ◌≡◌, inl,
  inr, Option, none, some, arith, List, [], ◌∷◌,
}
use voria.Prelude.Int.{ℤ, ◌≤ℤ◌}
use voria.Prelude.Text.{Text}
use voria.Radar.Floor.{IsMultiple, floor_to_period, floor_to_period_bounds}
use voria.Radar.Period.{parse_period, parse_period-minutes}
use voria.Radar.Product.{period_pos}
use voria.Radar.Latest.{LastProduct, fetch_latest}
use voria.Timeline.State.{Timeline, mounted}
use voria.Timeline.Grid.{Calendar}
use voria.Timeline.Publish.{raf_fires, sync_fires}
use voria.Timeline.Sync.{
  Message, or_default, synced, synced_time, resync_with, is_newer, frame_out, on_socket_message,
}
use voria.Timeline.Step.{
  Event, radar_state, visibility, answer, news, socket_lost, play_click, prev_click, next_click,
  live_click, pointer_down, pointer_move, pointer_up, key, play_tick, hold_over, raf, sync_over,
  reconnect, run_event,
}
use voria.Timeline.Aligned.{
  OnGrid, NotAfter, IsPositive, IsAligned, AlignedAt, AlignedAt-move, IsAligned-publish_frame,
  snap_to_grid-IsMultiple,
}
use voria.Timeline.Aligned.Steps.{
  IsAligned-toggle_play, IsAligned-advance_play, IsAligned-hold_fires, IsAligned-step,
  IsAligned-go_live, IsAligned-track_down, IsAligned-track_move, IsAligned-track_up,
  IsAligned-handle_key, IsAligned-schedule_reconnect, IsAligned-reconnect_fires,
  IsAligned-visibility_change, IsAligned-apply_state,
}
use voria.Timeline.Step.{run_events}

or_default-pos : (iso : Option Text) (product : Text) → 0 < or_default (parse_period iso) product
or_default-pos iso product = elim (Option-cases (parse_period iso)) [
  | inl missing ↦ rw missing (period_pos product)
  | inr (p, found) ↦ rw found (parse_period-minutes iso found).0
]

synced_time-IsMultiple :
    (live : Bool) (o : Option ℤ) (l : ℤ) (p : ℕ)
    → IsMultiple p l
    → IsMultiple p (synced_time live o l p) × (synced_time live o l p ≤ℤ l)
unfolding synced_time
synced_time-IsMultiple live none l p m = (m, omega arith)
synced_time-IsMultiple true (some t) l p m = (m, omega arith)
synced_time-IsMultiple false (some t) l p m = snap_to_grid-IsMultiple l p t m

IsAligned-synced :
    (c : Calendar) (s : Timeline) (l : ℤ) (p : ℕ)
    → 0 < p
    → IsMultiple p l
    → s.playing ≡ false
    → IsAligned (synced c s l p)
unfolding synced
IsAligned-synced c s l p positive m still =
    let (mt, le) = synced_time-IsMultiple s.live s.time l p m in
    IsAligned-publish_frame _ (record {
      period_positive = positive;
      latest_on = m;
      time_on = mt;
      time_not_after = le;
      from_on = λ runs. cc;
    })

IsAligned-resync_with :
    (c : Calendar) (s : Timeline) (o : Option LastProduct)
    → s.playing ≡ false
    → IsAligned s
    → IsAligned (resync_with c s o)
unfolding resync_with
IsAligned-resync_with c s none still a = a
IsAligned-resync_with c s (some last) still a =
    let positive = or_default-pos last.period s.product in
    IsAligned-synced c s _ _ positive (floor_to_period_bounds last.time _ positive).0 still

-- What is not after the newest frame is not after a newer one.
NotAfter-newer : (u o : Option ℤ) (t : ℤ) → is_newer o t ≡ true → NotAfter u o → NotAfter u (some t)
unfolding is_newer
NotAfter-newer none o t newer h = tt
NotAfter-newer (some u) none t newer h = elim h [ ]
NotAfter-newer (some u) (some l) t newer h = ground arith

IsAligned-frame_out :
    (c : Calendar) (s : Timeline) (t : ℤ)
    → OnGrid s.period (some t)
    → IsAligned s
    → IsAligned (frame_out c s t)
unfolding frame_out
IsAligned-frame_out c s t on a =
    if_cases IsAligned (is_newer s.latest t)
      (λ newer.
        let kept : AlignedAt s.period (some t) s.time s.play_from s.playing = record {
          period_positive = a.period_positive;
          latest_on = on;
          time_on = a.time_on;
          time_not_after = NotAfter-newer s.time s.latest t newer a.time_not_after;
          from_on = λ runs.
              ((a.from_on runs).0, NotAfter-newer s.play_from s.latest t newer (a.from_on runs).1);
        } in
        if_both IsAligned (s.live && not s.playing)
          (IsAligned-publish_frame _ (AlignedAt-move t on (omega arith) kept)) kept)
      (λ older. a)

floor-OnGrid :
    (o : Option ℕ) (product : Text) (t : ℤ)
    → IsPositive o
    → OnGrid o (some (floor_to_period t (or_default o product)))
floor-OnGrid none product t h = tt
floor-OnGrid (some p) product t h = (floor_to_period_bounds t p h).0

IsAligned-on_socket_message :
    (c : Calendar) (s : Timeline) (m : Option Message)
    → IsAligned s
    → IsAligned (on_socket_message c s m)
unfolding on_socket_message
IsAligned-on_socket_message c s none a = a
IsAligned-on_socket_message c s (some m) a =
    with_value_both IsAligned m.time
      (λ time _.
        if_both IsAligned _
          (IsAligned-frame_out c s _ (floor-OnGrid s.period s.product time a.period_positive) a) a)
      a

-- The answer to a request may change the period, and playback keeps its start on the old grid: such
-- an answer is left out.
abbrev pub KeepsPlay : Timeline → Event → Type 0
KeepsPlay s (answer r) = s.playing ≡ false
KeepsPlay s _ = Unit {0}

pub IsAligned-run_event :
    (c : Calendar) (s : Timeline) (e : Event)
    → KeepsPlay s e
    → IsAligned s
    → IsAligned (run_event c s e)
unfolding run_event raf_fires sync_fires
IsAligned-run_event c s (radar_state enabled product) k a =
    IsAligned-apply_state s enabled product a
IsAligned-run_event c s (visibility hidden) k a = IsAligned-visibility_change s hidden a
IsAligned-run_event c s (answer r) k a =
    if_both IsAligned s.syncing (IsAligned-resync_with c s (fetch_latest r) k a) a
IsAligned-run_event c s (news m) k a =
    if_both IsAligned s.ws (IsAligned-on_socket_message c s m a) a
IsAligned-run_event c s socket_lost k a =
    if_both IsAligned s.ws (IsAligned-schedule_reconnect s a) a
IsAligned-run_event c s play_click k a = IsAligned-toggle_play s a
IsAligned-run_event c s prev_click k a = IsAligned-step s a _
IsAligned-run_event c s next_click k a = IsAligned-step s a _
IsAligned-run_event c s live_click k a = IsAligned-go_live s a
IsAligned-run_event c s (pointer_down x r) k a = IsAligned-track_down s x r a
IsAligned-run_event c s (pointer_move x r) k a = IsAligned-track_move s x r a
IsAligned-run_event c s pointer_up k a = IsAligned-track_up s a
IsAligned-run_event c s (key k' shift) k a = IsAligned-handle_key s k' shift a
IsAligned-run_event c s play_tick k a =
    if_both IsAligned s.play_timer (IsAligned-advance_play s a) a
IsAligned-run_event c s hold_over k a = if_both IsAligned s.play_hold (IsAligned-hold_fires s a) a
IsAligned-run_event c s raf k a =
    if_both IsAligned s.publish_raf (IsAligned-publish_frame (record s { publish_raf = false }) a) a
IsAligned-run_event c s sync_over k a = if_both IsAligned s.sync_timer a a
IsAligned-run_event c s reconnect k a =
    with_value_both IsAligned s.ws_timer (λ _ _. IsAligned-reconnect_fires s a) a

-- Along a sequence of events no answer arrives while playback runs.
abbrev pub NoAnswerInPlay : Calendar → Timeline → List Event → Type 0
NoAnswerInPlay c s [] = Unit {0}
NoAnswerInPlay c s (e ∷ es) = KeepsPlay s e × NoAnswerInPlay c (run_event c s e) es

IsAligned-run_events :
    (c : Calendar) (s : Timeline) (es : List Event)
    → NoAnswerInPlay c s es
    → IsAligned s
    → IsAligned (run_events c s es)
IsAligned-run_events c s [] k a = a
IsAligned-run_events c s (e ∷ es) (k, ks) a =
    IsAligned-run_events c (run_event c s e) es ks (IsAligned-run_event c s e k a)

IsAligned-mounted : (has_legend hidden : Bool) → IsAligned (mounted has_legend hidden)
unfolding mounted
IsAligned-mounted has_legend hidden = record {
  period_positive = tt;
  latest_on = tt;
  time_on = tt;
  time_not_after = tt;
  from_on = λ runs. cc;
}

-- In every state that the timeline reaches after it was mounted, if no answer of the service arrives
-- while playback runs, the newest frame and the instant that is shown are multiples of the period,
-- which is positive, and the instant is not after the newest frame; so is the start of a playback
-- that runs.
pub run_events-IsAligned :
    (c : Calendar) (has_legend hidden : Bool) (es : List Event)
    → NoAnswerInPlay c (mounted has_legend hidden) es
    → IsAligned (run_events c (mounted has_legend hidden) es)
run_events-IsAligned c has_legend hidden es k =
    IsAligned-run_events c _ es k (IsAligned-mounted has_legend hidden)
