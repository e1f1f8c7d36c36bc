-- ===== src/Radar/Relative.antt =====
-- The age of a frame in words (formatRelative of assets/js/radar.js). The result is what the
-- function hands to `Intl.RelativeTimeFormat`, an amount and a unit; instants are whole
-- milliseconds.
use voria.Prelude.{ℕ, ◌+◌, ◌≤◌, ◌<◌, arith, ltb, if◌then◌else◌}
use voria.Prelude.Int.{
  ℤ, pos, pos_part, neg_part, ◌-ℤ◌, round_div, round_div_bounds, ◌*ℤ◌, parts_apart, *ℤ_parts,
}

pub data TimeUnit : Type 0 where
  minute hour day : TimeUnit

abbrev pub unit_ms : TimeUnit → ℕ
unit_ms minute = 60000
unit_ms hour = 3600000
unit_ms day = 86400000

-- `Math.abs`
abbrev pub abs : ℤ → ℕ
abs a = pos_part a + neg_part a

unfoldable pub format_relative : ℤ → ℤ → ℤ × TimeUnit
format_relative ms now =
    let diff_min = round_div (ms -ℤ now) 60000 in
    let diff_h = round_div diff_min 60 in
    if ltb (abs diff_min) 1
    then (pos 0, minute)
    else if ltb (abs diff_min) 60
    then (diff_min, minute)
    else if ltb (abs diff_h) 24
    then (diff_h, hour)
    else (round_div diff_h 24, day)

-- The amounts that go with a unit: fewer than an hour of minutes, at least one hour and less than a
-- day of hours, at least one day.
abbrev pub FitsUnit : ℤ × TimeUnit → Type 0
FitsUnit (n, minute) = abs n < 60
FitsUnit (n, hour) = (1 ≤ abs n) × (abs n < 24)
FitsUnit (n, day) = 1 ≤ abs n

-- How far, at most, the words are from the difference in milliseconds.
abbrev pub tolerance : TimeUnit → ℕ
tolerance minute = 30000
tolerance hour = 1830000
tolerance day = 45030000

abbrev pub Within : ℕ → ℤ → ℤ → Type 0
Within e a b =
    (pos_part a + neg_part b ≤ pos_part b + neg_part a + e)
    × (pos_part b + neg_part a ≤ pos_part a + neg_part b + e)

format_relative-FitsUnit : (ms now : ℤ) → FitsUnit (format_relative ms now)
unfolding format_relative
format_relative-FitsUnit ms now =
    let m = round_div (ms -ℤ now) 60000 in
    let h = round_div m 60 in
    let bh = round_div_bounds m 60 (omega arith) in
    let bd = round_div_bounds h 24 (omega arith) in
    ground (arith, bh, bd, parts_apart m, parts_apart h)

format_relative-Within :
    (ms now : ℤ)
    → let r = format_relative ms now in Within (tolerance r.1) (r.0 *ℤ unit_ms r.1) (ms -ℤ now)
unfolding format_relative
format_relative-Within ms now =
    let d = ms -ℤ now in
    let m = round_div d 60000 in
    let h = round_div m 60 in
    let n = round_div h 24 in
    let bm = round_div_bounds d 60000 (omega arith) in
    let bh = round_div_bounds m 60 (omega arith) in
    let bd = round_div_bounds h 24 (omega arith) in
    ground (
      arith,
      bm,
      bh,
      bd,
      parts_apart m,
      *ℤ_parts (pos 0) 60000,
      *ℤ_parts m 60000,
      *ℤ_parts h 3600000,
      *ℤ_parts n 86400000,
    )

-- The words use the unit that fits: minutes below an hour, hours from one hour and below a day, and
-- days from one day; an amount of hours or days is never zero. The amount of the unit is within half of
-- the unit of the difference, but for what the earlier rounding to minutes and to hours adds: half a
-- minute, half an hour and half a minute.
pub format_relative_bounds :
    (ms now : ℤ)
    → let r = format_relative ms now in
      FitsUnit r × Within (tolerance r.1) (r.0 *ℤ unit_ms r.1) (ms -ℤ now)
format_relative_bounds ms now = (format_relative-FitsUnit ms now, format_relative-Within ms now)
