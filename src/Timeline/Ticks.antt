-- ===== src/Timeline/Ticks.antt =====
-- The loop of buildTicks comes to its end.
use voria.Prelude.{
  ℕ, zero, suc, ◌+◌, ◌*◌, ◌<◌, true, ◌≡◌, refl, Option, none, some, arith, Bool-cases, inl, inr,
}
use voria.Prelude.Int.{ℤ, pos, pos_part, neg_part, ◌-ℤ◌, leb_ℤ, int_laws}
use voria.Prelude.Text.{Text}
use voria.Radar.Floor.{floor_to_period, floor_to_period_bounds}
use voria.Radar.Product.{hour_ms}
use voria.Timeline.Grid.{Calendar, window_span, ticks_from, build_ticks}

-- The time is less than n hours after the window's start.
abbrev Reaches : ℕ → ℤ → ℤ → Type 0
Reaches n oldest t = pos_part t + neg_part oldest < pos_part oldest + neg_part t + n * hour_ms

Reaches-earlier :
    (n : ℕ) (oldest t : ℤ)
    → Reaches (suc n) oldest t
    → leb_ℤ oldest t ≡ true
    → Reaches n oldest (t -ℤ pos hour_ms)
Reaches-earlier n oldest t r h = omega int_laws

ticks_from-enough :
    (c : Calendar) (m n : ℕ) (oldest : ℤ) (last_day : Option Text) (t : ℤ)
    → Reaches m oldest t
    → Reaches n oldest t
    → ticks_from c m oldest last_day t ≡ ticks_from c n oldest last_day t
unfolding ticks_from
ticks_from-enough c zero zero oldest last_day t a b = refl
ticks_from-enough c zero (suc n) oldest last_day t a b = ground arith
ticks_from-enough c (suc m) zero oldest last_day t a b = ground arith
ticks_from-enough c (suc m) (suc n) oldest last_day t a b = elim (Bool-cases (leb_ℤ oldest t)) [
  | inl inside ↦
      rw
        (ticks_from-enough c m n oldest (some (c.day_of t)) (t -ℤ pos hour_ms)
          (Reaches-earlier m oldest t a inside) (Reaches-earlier n oldest t b inside))
        refl
  | inr outside ↦ rw outside refl
]

-- The rounds that the loop over the hours is given are enough: with any more of them the marks on the
-- track are the same.
pub build_ticks-enough :
    (c : Calendar) (latest : ℤ) (more : ℕ)
    → build_ticks c latest
      ≡ ticks_from c (170 + more) (latest -ℤ pos window_span) none (floor_to_period latest hour_ms)
unfolding build_ticks
build_ticks-enough c latest more =
    let (_, low, _) = floor_to_period_bounds latest hour_ms (omega arith) in
    ticks_from-enough c 170 (170 + more) (latest -ℤ pos window_span) none
      (floor_to_period latest hour_ms) (omega int_laws) (omega int_laws)
