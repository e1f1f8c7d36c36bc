-- ===== src/Map.antt =====
-- The map (assets/js/hooks/maplibre_map.js): its radar overlay, its markers and the cache of radar
-- tiles. The map itself is MapLibre's.
pub mod Overlay
pub mod Life
pub mod Markers
pub mod TileCache
mod Tests
