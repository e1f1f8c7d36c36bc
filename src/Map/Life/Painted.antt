-- ===== src/Map/Life/Painted.antt =====
-- The radar on the map of the hook.
use voria.Prelude.{Option, none, some}
use voria.Prelude.Text.{Text}
use voria.Map.Overlay.{Overlay}
use voria.Map.Life.{MapState, MapHook}

-- While there is a map, its overlay has a property.
abbrev On : (Overlay → Type 0) → Option MapState → Overlay → Type 0
On P none o = Unit {0}
On P (some m) o = P o

abbrev Has : (Overlay → Type 0) → MapHook → Type 0
Has P h = On P h.map_ h.overlay
