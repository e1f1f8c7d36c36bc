-- ===== src/Palettes.antt =====
-- The colours of the radar's tiles (assets/js/radar_palettes.js).
pub mod Edges
pub mod Numbers
pub mod Tables
pub mod Colorize
pub mod Legend
mod Tests
