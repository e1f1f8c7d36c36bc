-- ===== src/Palettes/Numbers.antt =====
-- The numbers that the palettes compute with, and the helpers on them (clamp, glSmoothstep, norm01,
-- mix, mix3 and segmentSampler of assets/js/radar_palettes.js).
pub mod Sampler
use voria.Prelude.{ℕ, Bool, true, false, ◌≡◌, List, [], ◌∷◌, if◌then◌else◌}
use voria.Prelude.Int.{ℤ, pos}

-- What the code uses of JavaScript's numbers. `lit n d` is the literal for n / d, and `rounded` is
-- `Math.round`.
pub record Number (R : Type 0) : Type 0 where
  pub lit : ℤ → ℕ → R
  pub plus : R → R → R
  pub minus : R → R → R
  pub times : R → R → R
  pub over : R → R → R
  pub power : R → R → R
  pub le : R → R → Bool
  pub lt : R → R → Bool
  pub rounded : R → ℤ

-- The order of the numbers that are not NaN.
pub record IsTotal (R : Type 0) ⦃num : Number R⦄ : Type 0 where
  pub total : (x y : R) → num.le x y ≡ false → num.le y x ≡ true

pub record Rgb (R : Type 0) : Type 0 where
  pub red : R
  pub green : R
  pub blue : R

-- A colour and an opacity at a value.
pub record Stop (R : Type 0) : Type 0 where
  pub value : R
  pub colour : Rgb R
  pub alpha : R

module _ {R : Type 0} ⦃num : Number R⦄ where
  abbrev pub whole : ℕ → R
  whole n = num.lit (pos n) 1

  unfoldable pub clamp : R → R → R → R
  clamp x lo hi = if num.lt x lo then lo else if num.lt hi x then hi else x

  unfoldable pub gl_smoothstep : R → R → R → R
  gl_smoothstep e0 e1 x =
      let t = clamp (num.over (num.minus x e0) (num.minus e1 e0)) (whole 0) (whole 1) in
      num.times (num.times t t) (num.minus (whole 3) (num.times (whole 2) t))

  -- `Math.max`
  unfoldable pub max_number : R → R → R
  max_number x y = if num.lt x y then y else x

  unfoldable pub norm01 : R → R → R → R
  norm01 v lo hi =
      clamp (num.over (num.minus v lo) (max_number (num.lit (pos 1) 1000000) (num.minus hi lo)))
        (whole 0) (whole 1)

  unfoldable pub mix : R → R → R → R
  mix a b t = num.plus a (num.times (num.minus b a) t)

  unfoldable pub mix3 : Rgb R → Rgb R → R → Rgb R
  mix3 c0 c1 t = record {
    red = mix c0.red c1.red t;
    green = mix c0.green c1.green t;
    blue = mix c0.blue c1.blue t;
  }

  -- `stops[stops.length - 1]`, for stops that begin with s.
  unfoldable pub last_stop : Stop R → List (Stop R) → Stop R
  last_stop s [] = s
  last_stop s (t ∷ ts) = last_stop t ts

  unfoldable pub between_stops : Stop R → Stop R → R → Rgb R × R
  between_stops s t v = (
    mix3 s.colour t.colour (gl_smoothstep s.value t.value v),
    mix s.alpha t.alpha (gl_smoothstep s.value t.value v),
  )

  -- The loop over the neighbours, from s on; `last` is what is behind it.
  unfoldable pub sample_loop : Stop R → List (Stop R) → Stop R → R → Rgb R × R
  sample_loop s [] last v = (last.colour, last.alpha)
  sample_loop s (t ∷ ts) last v =
      let rest = sample_loop t ts last v in if num.le v t.value then between_stops s t v else rest

  -- The stops begin with s: there is always one.
  unfoldable pub segment_sampler : Stop R → List (Stop R) → R → Rgb R × R
  segment_sampler s ts v =
      let last = last_stop s ts in
      if num.le v s.value
      then (s.colour, s.alpha)
      else if num.le last.value v
      then (last.colour, last.alpha)
      else sample_loop s ts last v
