-- ===== src/Radar/Format.antt =====
-- Instants in words (formatTime, formatDay and formatSub of assets/js/radar.js). What Intl makes of an
-- instant, and of an amount of a unit, are parameters.
use voria.Prelude.{[], ◌∷◌, ◌++◌}
use voria.Prelude.Int.{ℤ}
use voria.Prelude.Text.{Text}
use voria.Radar.Relative.{TimeUnit, format_relative}

pub record Intl : Type 0 where
  pub rome_time : ℤ → Text
  pub rome_day : ℤ → Text
  pub relative_time : ℤ × TimeUnit → Text

module _ (intl : Intl) where
  unfoldable pub format_time : ℤ → Text
  format_time ms = intl.rome_time ms

  unfoldable pub format_day : ℤ → Text
  format_day ms = intl.rome_day ms

  -- With a middle dot between the two.
  unfoldable pub format_sub : ℤ → ℤ → Text
  unfolding format_day
  format_sub ms now =
      format_day ms ++ (b' ' ∷ 0xB7 ∷ b' ' ∷ []) ++ intl.relative_time (format_relative ms now)
