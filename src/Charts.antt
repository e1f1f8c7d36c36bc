-- ===== src/Charts.antt =====
-- The charts of assets/js/hooks/d3_charts.js.
pub mod Segments
pub mod Theme
pub mod Data
pub mod Multi
pub mod Pointer
pub mod Layout
pub mod Rose
pub mod Scene
pub mod Render
pub mod Live
mod Tests
