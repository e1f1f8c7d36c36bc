-- ===== src/Map/TileCache.antt =====
-- The cache of colorized radar tiles (fetchColorizedTile of assets/js/hooks/maplibre_map.js). A
-- `Map` keeps its entries in the order of insertion, the oldest first. What runs in the background
-- is given by its outcomes: `loaded` (the buffer is there), `broken` (an error at any step, a bad
-- address included) and `settled` (the promise's `finally`).
pub mod Valid
pub mod Content
use voria.Prelude.{
  ℕ, suc, ◌+◌, ◌≤◌, ◌<◌, Bool, true, false, not, ◌&&◌, ◌||◌, ◌≡◌, refl, Option, none, some, List,
  [], ◌∷◌, ◌++◌, arith, leb, if◌then◌else◌, length, length-append, with_value, Option-cases,
  Bool-cases, and_true,
}
use voria.Entries.{get, delete, set_entry, drop_oldest, has_key, Distinct}
use voria.Prelude.Text.{Text, text_eq, text_eq_refl, text_eq_sound}

abbrev pub tile_cache_max : ℕ
tile_cache_max = 128

-- A request on its way: still running, or done and not yet taken off the list.
pub data Progress : Type 0 where
  running finished : Progress

pub record Cache {ℓ} (B : Type ℓ) : Type ℓ where
  pub tiles : List (Text × B)
  pub in_flight : List (Text × Progress)

-- How a call of `fetchColorizedTile` is served.
pub data Served {ℓ} (B : Type ℓ) : Type ℓ where
  from_cache : B → Served B
  joined : Served B
  started : Served B

module _ {ℓ} {B : Type ℓ} where
  unfoldable pub serve : Cache B → Text → Option B → Cache B × Served B
  serve c url (some b) = (record c { tiles = set_entry url b (delete url c.tiles) }, from_cache b)
  serve c url none =
      if has_key url c.in_flight
      then (c, joined)
      else (record c { in_flight = set_entry url running c.in_flight }, started)

  unfoldable pub fetch_colorized_tile : Cache B → Text → Cache B × Served B
  fetch_colorized_tile c url = serve c url (get url c.tiles)

  -- The buffer is there: make room, and store it.
  unfoldable pub loaded : Cache B → Text → B → Cache B
  loaded c url b =
      let room = if leb tile_cache_max (length c.tiles) then drop_oldest c.tiles else c.tiles in
      record c { tiles = set_entry url b room; in_flight = set_entry url finished c.in_flight }

  unfoldable pub broken : Cache B → Text → Cache B
  broken c url = record c { in_flight = set_entry url finished c.in_flight }

  unfoldable pub settled : Cache B → Text → Cache B
  settled c url = record c { in_flight = delete url c.in_flight }

pub data Event {ℓ} (B : Type ℓ) : Type ℓ where
  fetch : Text → Event B
  load : Text → B → Event B
  break : Text → Event B
  settle : Text → Event B

unfoldable pub is_running : Option Progress → Bool
is_running none = false
is_running (some running) = true
is_running (some finished) = false

unfoldable pub is_finished : Option Progress → Bool
is_finished none = false
is_finished (some running) = false
is_finished (some finished) = true

-- A request comes to its end once, and then settles.
unfoldable pub run_event {ℓ} : {B : Type ℓ} → Cache B → Event B → Cache B
unfolding is_running is_finished
run_event c (fetch url) = (fetch_colorized_tile c url).0
run_event c (load url b) = if is_running (get url c.in_flight) then loaded c url b else c
run_event c (break url) = if is_running (get url c.in_flight) then broken c url else c
run_event c (settle url) = if is_finished (get url c.in_flight) then settled c url else c

abbrev pub run_events {ℓ} : {B : Type ℓ} → Cache B → List (Event B) → Cache B
run_events c [] = c
run_events c (e ∷ es) = run_events (run_event c e) es

-- At most 128 tiles, none twice, no request twice, and no tile in the cache that is being fetched.
pub record IsValid {ℓ} {B : Type ℓ} (c : Cache B) : Type ℓ where
  pub bounded : length c.tiles ≤ tile_cache_max
  pub distinct : Distinct c.tiles
  pub once : Distinct c.in_flight
  pub fresh : (url : Text) → get url c.in_flight ≡ some running → has_key url c.tiles ≡ false
