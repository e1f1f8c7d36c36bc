-- ===== src/Charts/Multi/Render/Messages.antt =====
-- The messages that the comparison chart leaves in its element.
use voria.Prelude.{ℕ, zero, suc, ◌+◌, ◌<◌, ◌≡◌, arith, length}
use voria.Prelude.Int.{ℤ}
use voria.Charts.Multi.{MultiLineChart}
use voria.Charts.Scene.{D3}
use voria.Charts.Render.{Screen, Canvas}
use voria.Charts.Multi.Render.{all_data, render_multi, resized_times}

module _ (d3 : D3) (s : Screen) (chart : MultiLineChart ℤ) (some_series : 0 < length chart.series)
    (no_points : length (all_data chart.series) ≡ 0) where
  messages-render_multi : (k : Canvas) → (render_multi d3 s chart k).messages ≡ k.messages + 1
  unfolding render_multi
  messages-render_multi k = ground arith

  -- A chart with series but without points puts one more message into its element each time that the
  -- size of the element is reported, and takes none away.
  pub messages-resized_times :
      (n : ℕ) (k : Canvas) → (resized_times d3 s n chart k).messages ≡ k.messages + n
  messages-resized_times zero k = omega arith
  messages-resized_times (suc n) k =
      omega (arith, messages-resized_times n (render_multi d3 s chart k), messages-render_multi k)
