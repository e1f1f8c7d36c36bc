-- ===== src/Timeline/Playback.antt =====
-- A round of playback: from the frame where it starts to the newest one, frame by frame.
use native.Mathlib.Nat.{le-div_iff_mul-le}
use voria.Prelude.{
  ℕ, zero, suc, ◌+◌, ◌-◌, ◌*◌, ◌/◌, ◌≤◌, ◌<◌, true, false, ◌≡◌, refl, subst, Option, none, some,
  List, [], ◌∷◌, arith,
}
use voria.Prelude.Int.{ℤ, pos, ◌<ℤ◌, ◌-ℤ◌, ◌+ℤ◌, leb_ℤ, int_laws, eq_of_parts}
use voria.Timeline.State.{Timeline, Effect, frame, instant}
use voria.Timeline.Grid.{window_span}
use voria.Timeline.Publish.{publish_frame}
use voria.Timeline.Play.{frame_count, start_at, start_play, advance_at, advance_play}

-- The interval has fired n times.
pub play_ticks : ℕ → Timeline → Timeline
play_ticks zero s = s
play_ticks (suc n) s = play_ticks n (advance_play s)

-- The message sent last.
abbrev pub last_sent : List Effect → Option Effect
last_sent [] = none
last_sent (m ∷ ms) = some m

-- In playback, `left` frames before the newest: that frame is shown, and the map has been sent it.
pub record AtFrame (l : ℤ) (p left : ℕ) (s : Timeline) : Type 0 where
  pub enabled : s.enabled ≡ true
  pub latest : s.latest ≡ some l
  pub period : s.period ≡ some p
  pub time : s.time ≡ some (l -ℤ pos (left * p))
  pub live : s.live ≡ false
  pub shown : s.view.time_label ≡ instant (l -ℤ pos (left * p))
  pub sent : last_sent s.log ≡ some (frame (l -ℤ pos (left * p)) false s.product)
  pub playing : s.playing ≡ true
  pub timer : s.play_timer ≡ true

-- The newest frame is shown, live, the map has been sent it, and the pause before the next round runs.
pub record RoundOver (l : ℤ) (s : Timeline) : Type 0 where
  pub time : s.time ≡ some l
  pub live : s.live ≡ true
  pub shown : s.view.time_label ≡ instant l
  pub sent : last_sent s.log ≡ some (frame l true s.product)
  pub playing : s.playing ≡ true
  pub timer : s.play_timer ≡ false
  pub hold : s.play_hold ≡ true

next_frame : (l : ℤ) (p j : ℕ) → (l -ℤ pos (suc j * p)) +ℤ pos p ≡ l -ℤ pos (j * p)
next_frame l p j = eq_of_parts _ _ (omega int_laws)

earlier : (l : ℤ) (p j : ℕ) → 0 < p → leb_ℤ l (l -ℤ pos (suc j * p)) ≡ false
earlier l p j h = let e : (l -ℤ pos (suc j * p)) <ℤ l = omega int_laws in ground arith

last_frame : (l : ℤ) (p : ℕ) → l -ℤ pos (zero * p) ≡ l
last_frame l p = eq_of_parts _ _ (omega int_laws)

module _ (l : ℤ) (p : ℕ) (positive : 0 < p) where
  advance_more :
      (j : ℕ) (s : Timeline) → AtFrame l p (suc (suc j)) s → AtFrame l p (suc j) (advance_play s)
  unfolding advance_play advance_at publish_frame
  advance_more j s a = ground (arith, next_frame l p (suc j), earlier l p j positive)

  advance_last : (s : Timeline) → AtFrame l p 1 s → RoundOver l (advance_play s)
  unfolding advance_play advance_at publish_frame
  advance_last s a = ground (arith, next_frame l p 0, last_frame l p)

  play_ticks-AtFrame :
      (n j k : ℕ) (s : Timeline)
      → k ≡ n + suc j
      → AtFrame l p k s
      → AtFrame l p (suc j) (play_ticks n s)
  unfolding play_ticks
  play_ticks-AtFrame zero j k s e a =
      let e' : k ≡ suc j = omega arith in subst (λ i. AtFrame l p i s) e' a
  play_ticks-AtFrame (suc n) j k s e a =
      let e' : k ≡ suc (suc (n + j)) = omega arith in
      play_ticks-AtFrame n j (suc (n + j)) (advance_play s) (omega arith)
        (advance_more (n + j) s (subst (λ i. AtFrame l p i s) e' a))

  play_ticks-RoundOver :
      (j k : ℕ) (s : Timeline) → k ≡ suc j → AtFrame l p k s → RoundOver l (play_ticks k s)
  unfolding play_ticks
  play_ticks-RoundOver zero k s e a = rw e (advance_last s (subst (λ i. AtFrame l p i s) e a))
  play_ticks-RoundOver (suc j) k s e a = rw e (
      play_ticks-RoundOver j (suc j) (advance_play s) refl
        (advance_more j s (subst (λ i. AtFrame l p i s) e a)))

  AtFrame-start_at :
      (j : ℕ) (s : Timeline)
      → frame_count p - 1 ≡ suc j
      → s.enabled ≡ true
      → s.latest ≡ some l
      → s.period ≡ some p
      → AtFrame l p (suc j) (start_at s l p)
  unfolding start_at publish_frame
  AtFrame-start_at j s e on hl hp = ground (arith, earlier l p j positive)

-- A window of at least one period has at least two frames.
frame_count-ge_two : (p : ℕ) → 0 < p → p ≤ window_span → 2 ≤ frame_count p
unfolding frame_count
frame_count-ge_two p h le =
    let one : 1 ≤ window_span / p = (le-div_iff_mul-le h).1 (omega arith) in omega arith

module _ (s : Timeline) (l : ℤ) (p : ℕ) (on : s.enabled ≡ true) (hl : s.latest ≡ some l)
    (hp : s.period ≡ some p) (positive : 0 < p) (le : p ≤ window_span) where
  AtFrame-start_play : AtFrame l p (frame_count p - 1) (start_play s)
  unfolding start_play
  AtFrame-start_play =
      let two = frame_count-ge_two p positive le in
      let e : frame_count p - 1 ≡ suc (frame_count p - 2) = omega arith in
      ground (arith, AtFrame-start_at l p positive (frame_count p - 2) s e)

  -- When the radar is on, the newest frame is known, and the period is positive and fits the window:
  -- after n ticks of the interval, where n is less than the frames of the round but one, playback goes
  -- on and shows the frame n periods after the one where it began.
  pub play_ticks-start_play :
      (n j : ℕ) → frame_count p - 1 ≡ n + suc j → AtFrame l p (suc j) (play_ticks n (start_play s))
  play_ticks-start_play n j e =
      play_ticks-AtFrame l p positive n j _ (start_play s) e AtFrame-start_play

  -- When the radar is on, the newest frame is known, and the period is positive and fits the window,
  -- the interval reaches the newest frame after one tick less than the frames of the round, shows it live, ends, and the pause
  -- before the next round is pending.
  pub RoundOver-start_play : RoundOver l (play_ticks (frame_count p - 1) (start_play s))
  RoundOver-start_play =
      let two = frame_count-ge_two p positive le in
      play_ticks-RoundOver l p positive (frame_count p - 2) _ (start_play s) (omega arith)
        AtFrame-start_play
