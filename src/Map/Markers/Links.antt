-- ===== src/Map/Markers/Links.antt =====
-- Where a marker leads (the listeners of updateMarkers in assets/js/hooks/maplibre_map.js).
use voria.Prelude.{Bool, true, false, Option, none, some, ◌++◌, if◌then◌else◌}
use voria.Prelude.Text.{Text, codes, text_eq}

-- What happens to a marker's element: a click, or a key that is pressed.
pub data Touch : Type 0 where
  click : Touch
  keydown : (key : Text) → Touch

-- `/installations/${data.id}`
unfoldable pub installation_path : Text → Text
installation_path id = codes "/installations/" ++ id

-- The page that is opened, and whether the map does not hear of the event.
unfoldable pub touched : Text → Touch → Option Text × Bool
unfolding installation_path
touched id click = (some (installation_path id), false)
touched id (keydown key) =
    if text_eq key (codes "Enter") then (some (installation_path id), true) else (none, false)
