-- ===== src/Timeline/Aligned.antt =====
-- The instants of the timeline lie on the grid of its product's frames, and not after the newest.
pub mod Steps
pub mod Run
use voria.Prelude.{
  if_both, Option-cases, subst, ◌-◌, ◌+◌, ℕ, ◌*◌, ◌<◌, Bool, true, false, ◌≡◌, refl, ◌⊎◌, inl, inr,
  Option, none, some, arith, Bool-cases, List, [], ◌∷◌, min,
}
use voria.Prelude.Int.{
  ℤ, pos, ◌≤ℤ◌, ◌-ℤ◌, ◌+ℤ◌, ◌*ℤ◌, int_laws, leb_ℤ, min_ℤ, max_ℤ, min_ℤ-closed, max_ℤ-closed,
  min_ℤ-le_right,
}
use voria.Prelude.Text.{Text}
use voria.Radar.Floor.{
  IsMultiple, floor_to_period, floor_to_period_bounds, IsMultiple-sub, IsMultiple-add,
  IsMultiple-next, IsMultiple-zero,
}
use voria.Radar.Period.{parse_period, parse_period-minutes}
use voria.Radar.Product.{product_by_id, period_pos}
use voria.Radar.Latest.{LastProduct, fetch_latest}
use voria.Timeline.State.{Timeline, View, mounted}
use voria.Timeline.Grid.{Calendar, build_ticks, oldest_time, snap_to_grid, drag_time, max_idx}
use voria.Timeline.Publish.{
  publish_frame, publish_at, show_frame, set_time, schedule_publish, raf_fires, sync_fires, is_time,
  update_legend,
}
use voria.Timeline.Play.{
  start_at, start_play, advance_at, advance_play, hold_fires, stop_play, toggle_play, frame_count,
  or_zero,
}
use voria.Timeline.Connection.{open_socket, schedule_reconnect, close_socket}
use voria.Timeline.Sync.{
  Message, or_default, resync, synced, synced_time, resync_with, frame_out, on_socket_message,
  reconnect_fires,
}
use voria.Timeline.Controls.{
  chosen_product, apply_state, visibility_change, step_at, step, go_live_at, go_live, Rect, Key,
  key_at, drag_at, drag_to, track_down, track_move, track_up, handle_key,
}
use voria.Timeline.Step.{
  Event, radar_state, visibility, answer, news, socket_lost, play_click, prev_click, next_click,
  live_click, pointer_down, pointer_move, pointer_up, key, play_tick, hold_over, raf, sync_over,
  reconnect, run_event,
}

-- On the grid, where there is a period and an instant.
abbrev pub OnGrid : Option ℕ → Option ℤ → Type 0
OnGrid none t = Unit {0}
OnGrid (some p) none = Unit {0}
OnGrid (some p) (some t) = IsMultiple p t

abbrev pub NotAfter : Option ℤ → Option ℤ → Type 0
NotAfter (some t) (some latest) = t ≤ℤ latest
NotAfter (some t) none = ⊥
NotAfter none latest = Unit {0}

abbrev pub IsPositive : Option ℕ → Type 0
IsPositive none = Unit {0}
IsPositive (some p) = 0 < p

-- Of the five fields that matter: the period, the newest frame, the instant, the start of playback
-- and whether it runs.
pub record AlignedAt (period : Option ℕ) (latest time from : Option ℤ) (playing : Bool)
    : Type 0 where
  pub period_positive : IsPositive period
  pub latest_on : OnGrid period latest
  pub time_on : OnGrid period time
  pub time_not_after : NotAfter time latest
  pub from_on : playing ≡ true → OnGrid period from × NotAfter from latest

-- The period is positive; the newest frame, the instant and, in playback, its start are multiples of
-- it, and neither of these two is after the newest frame.
abbrev pub IsAligned : Timeline → Type 0
IsAligned s = AlignedAt s.period s.latest s.time s.play_from s.playing

-- `publishFrame` keeps all of it: it moves the instant to the newest frame, or not at all.
IsAligned-publish_frame : (s : Timeline) → IsAligned s → IsAligned (publish_frame s)
unfolding publish_frame
IsAligned-publish_frame s a = ground arith

-- Another instant that is on the grid and not after the newest frame may be taken.
AlignedAt-move :
    {period : Option ℕ} {latest time from : Option ℤ} {playing : Bool} (t : ℤ)
    → OnGrid period (some t)
    → NotAfter (some t) latest
    → AlignedAt period latest time from playing
    → AlignedAt period latest (some t) from playing
AlignedAt-move t on le a = record {
  period_positive = a.period_positive;
  latest_on = a.latest_on;
  time_on = on;
  time_not_after = le;
  from_on = a.from_on;
}

-- While playback does not run its start does not matter.
AlignedAt-still :
    {period : Option ℕ} {latest time from : Option ℤ} {playing : Bool}
    → AlignedAt period latest time from playing
    → AlignedAt period latest time from false
AlignedAt-still a = record {
  period_positive = a.period_positive;
  latest_on = a.latest_on;
  time_on = a.time_on;
  time_not_after = a.time_not_after;
  from_on = λ e. cc;
}

OnGrid-of : (o : Option ℕ) (p : ℕ) (t : ℤ) → o ≡ some p → IsMultiple p t → OnGrid o (some t)
OnGrid-of o p t e m = rw e m

IsMultiple-of_OnGrid :
    (o : Option ℕ) (p : ℕ) (u : Option ℤ) (t : ℤ)
    → o ≡ some p
    → u ≡ some t
    → OnGrid o u
    → IsMultiple p t
IsMultiple-of_OnGrid o p u t e e' m =
    subst (λ o'. OnGrid o' (some t)) e (subst (λ u'. OnGrid o u') e' m)

NotAfter-of : (o : Option ℤ) (l t : ℤ) → o ≡ some l → t ≤ℤ l → NotAfter (some t) o
NotAfter-of o l t e le = rw e le

drag_time-IsMultiple :
    (l : ℤ) (p : ℕ) (x left : ℤ) (w : ℕ)
    → IsMultiple p l
    → IsMultiple p (drag_time l p x left w) × (drag_time l p x left w ≤ℤ l)
unfolding drag_time
drag_time-IsMultiple l p x left w m = (IsMultiple-sub l _ p m, omega int_laws)

oldest_time-IsMultiple :
    (l : ℤ) (p : ℕ) → IsMultiple p l → IsMultiple p (oldest_time l p) × (oldest_time l p ≤ℤ l)
unfolding oldest_time
oldest_time-IsMultiple l p m = (IsMultiple-sub l _ p m, omega int_laws)

snap_to_grid-IsMultiple :
    (l : ℤ) (p : ℕ) (t : ℤ)
    → IsMultiple p l
    → IsMultiple p (snap_to_grid l p t) × (snap_to_grid l p t ≤ℤ l)
unfolding snap_to_grid
snap_to_grid-IsMultiple l p t m = (IsMultiple-sub l _ p m, omega int_laws)

-- The single operations.
IsAligned-stop_play : (s : Timeline) → IsAligned s → IsAligned (stop_play s)
unfolding stop_play
IsAligned-stop_play s a = AlignedAt-still a

IsAligned-set_time :
    (s : Timeline) (t : ℤ)
    → OnGrid s.period (some t)
    → NotAfter (some t) s.latest
    → IsAligned s
    → IsAligned (set_time s t)
unfolding set_time
IsAligned-set_time s t on le a =
    if_both IsAligned (is_time s.time t) (IsAligned-publish_frame s a)
      (IsAligned-publish_frame (record s { time = some t }) (AlignedAt-move t on le a))

-- The newest frame and the period, where the operation has found them.
module _ (s : Timeline) (l : ℤ) (p : ℕ) (hl : s.latest ≡ some l) (hp : s.period ≡ some p) where
  latest-IsMultiple : IsAligned s → IsMultiple p l
  latest-IsMultiple a = IsMultiple-of_OnGrid s.period p s.latest l hp hl a.latest_on

  -- The two conditions of an instant, for one that is given with them for `l` and `p`.
  allowed :
      (t : ℤ) → IsMultiple p t × (t ≤ℤ l) → OnGrid s.period (some t) × NotAfter (some t) s.latest
  allowed t (m, le) = (OnGrid-of s.period p t hp m, NotAfter-of s.latest l t hl le)

  IsAligned-move :
      (t : ℤ) → IsMultiple p t × (t ≤ℤ l) → IsAligned s → IsAligned (record s { time = some t })
  IsAligned-move t ok a = let (on, le) = allowed t ok in AlignedAt-move t on le a

  IsAligned-set_time_at :
      (t : ℤ) → IsMultiple p t × (t ≤ℤ l) → IsAligned s → IsAligned (set_time s t)
  IsAligned-set_time_at t ok a = let (on, le) = allowed t ok in IsAligned-set_time s t on le a

  IsAligned-start_at : IsAligned s → IsAligned (start_at s l p)
  unfolding start_at
  IsAligned-start_at a =
      let from = l -ℤ pos ((frame_count p - 1) * p) in
      let ok : IsMultiple p from × (from ≤ℤ l) =
        (IsMultiple-sub l (frame_count p - 1) p (latest-IsMultiple a), omega int_laws) in
      IsAligned-publish_frame _ (record {
        period_positive = a.period_positive;
        latest_on = a.latest_on;
        time_on = (allowed from ok).0;
        time_not_after = (allowed from ok).1;
        from_on = λ _. allowed from ok;
      })

  or_zero-IsMultiple : IsAligned s → IsMultiple p (or_zero s.time)
  or_zero-IsMultiple a = elim (Option-cases s.time) [
    | inl missing ↦ rw missing (IsMultiple-zero p)
    | inr (t, there) ↦ rw there (IsMultiple-of_OnGrid s.period p s.time t hp there a.time_on)
  ]

  IsAligned-advance_at : IsAligned s → IsAligned (advance_at s l p)
  unfolding advance_at
  IsAligned-advance_at a = elim (Bool-cases (leb_ℤ l (or_zero s.time +ℤ pos p))) [
    | inl over ↦ rw over (
        IsAligned-publish_frame (record s { time = some l })
          (IsAligned-move l (latest-IsMultiple a, omega arith) a))
    | inr more ↦
        let next = or_zero s.time +ℤ pos p in
        let ok : IsMultiple p next × (next ≤ℤ l) =
          (IsMultiple-next _ p (or_zero-IsMultiple a), ground arith) in
        rw more (IsAligned-publish_frame (record s { time = some next }) (IsAligned-move next ok a))
  ]

  -- A cut at the two ends of the window.
  cut-IsMultiple :
      (t : ℤ)
      → IsAligned s
      → IsMultiple p t
      → IsMultiple p (min_ℤ (max_ℤ t (oldest_time l p)) l)
        × (min_ℤ (max_ℤ t (oldest_time l p)) l ≤ℤ l)
  cut-IsMultiple t a m =
      let ml = latest-IsMultiple a in
      let (mo, _) = oldest_time-IsMultiple l p ml in
      (
        min_ℤ-closed (IsMultiple p) _ l (max_ℤ-closed (IsMultiple p) t _ m mo) ml,
        min_ℤ-le_right _ l,
      )

  IsAligned-drag_at : (x : ℤ) (r : Rect) → IsAligned s → IsAligned (drag_at s l p x r)
  unfolding drag_at schedule_publish
  IsAligned-drag_at x r a =
      let t = drag_time l p x r.left r.width in
      let moved =
        IsAligned-move t (drag_time-IsMultiple l p x r.left r.width (latest-IsMultiple a)) a in
      if_both IsAligned _ a (if_both IsAligned s.publish_raf moved moved)
