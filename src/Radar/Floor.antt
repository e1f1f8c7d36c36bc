-- ===== src/Radar/Floor.antt =====
-- The frame that an instant belongs to (floorToPeriod of assets/js/radar.js).
use voria.Prelude.{ℕ, ◌*◌, ◌<◌, ◌≡◌, refl, ap, arith}
use voria.Prelude.Int.{
  ℤ, pos, ◌-ℤ◌, *ℤ-sub, *ℤ-add, ◌*ℤ◌, ◌+ℤ◌, ◌≤ℤ◌, ◌<ℤ◌, floor_div, floor_div_bounds,
  floor_div_unique, int_laws, le_of_mul, *ℤ_mono, eq_of_parts,
}

-- `Math.floor(ms / periodMs) * periodMs`
unfoldable pub floor_to_period : ℤ → ℕ → ℤ
floor_to_period ms period = floor_div ms period *ℤ period

-- The whole multiples of a period.
abbrev pub IsMultiple : ℕ → ℤ → Type 0
IsMultiple p t = (q : ℤ) × (t ≡ q *ℤ p)

-- The result is a multiple of the period, not after the instant, and less than a period before it.
pub floor_to_period_bounds :
    (ms : ℤ) (p : ℕ)
    → 0 < p
    → IsMultiple p (floor_to_period ms p)
      × (floor_to_period ms p ≤ℤ ms)
      × (ms <ℤ floor_to_period ms p +ℤ pos p)
unfolding floor_to_period
floor_to_period_bounds ms p h =
    let b = floor_div_bounds ms p h in ((floor_div ms p, refl), omega int_laws, omega int_laws)

-- A multiple of the period is its own floor.
pub floor_to_period_of_multiple : (t : ℤ) (p : ℕ) → 0 < p → IsMultiple p t → floor_to_period t p ≡ t
unfolding floor_to_period
floor_to_period_of_multiple t p h (q, e) =
    rw e (ap (λ k. k *ℤ p) (floor_div_unique (q *ℤ p) q p h (omega arith) (omega int_laws)))

pub floor_to_period_mono :
    (s t : ℤ) (p : ℕ) → 0 < p → s ≤ℤ t → floor_to_period s p ≤ℤ floor_to_period t p
unfolding floor_to_period
floor_to_period_mono s t p h le =
    let (_, low, _) = floor_to_period_bounds s p h in
    let (_, _, high) = floor_to_period_bounds t p h in
    *ℤ_mono (floor_div s p) (floor_div t p) p
      (le_of_mul (floor_div s p) (floor_div t p) p (omega int_laws))

-- Whole periods earlier, and any number of them later, is a multiple again.
pub IsMultiple-sub : (t : ℤ) (k p : ℕ) → IsMultiple p t → IsMultiple p (t -ℤ pos (k * p))
IsMultiple-sub t k p (q, e) = (q -ℤ pos k, rw (e, *ℤ-sub q k p))

pub IsMultiple-add : (t f : ℤ) (p : ℕ) → IsMultiple p t → IsMultiple p (t +ℤ f *ℤ p)
IsMultiple-add t f p (q, e) = (q +ℤ f, rw (e, *ℤ-add q f p))

pub IsMultiple-next : (t : ℤ) (p : ℕ) → IsMultiple p t → IsMultiple p (t +ℤ pos p)
IsMultiple-next t p (q, e) = (
  q +ℤ pos 1,
  rw (e, *ℤ-add q (pos 1) p) (ap (λ k. q *ℤ p +ℤ k) (eq_of_parts _ _ (omega int_laws))),
)

pub IsMultiple-zero : (p : ℕ) → IsMultiple p (pos 0)
IsMultiple-zero p = (pos 0, eq_of_parts _ _ (omega int_laws))
