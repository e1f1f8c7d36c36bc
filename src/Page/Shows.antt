-- ===== src/Page/Shows.antt =====
-- The map shows the radar at the instant of the timeline.
use voria.Prelude.Text.{Text}
use voria.Timeline.State
use voria.Timeline.State.{Timeline}
use voria.Timeline.Step
use voria.Map.Overlay.{Overlay}
use voria.Page.{Page}
