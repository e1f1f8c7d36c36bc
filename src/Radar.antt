-- ===== src/Radar.antt =====
-- The radar service as the browser sees it (assets/js/radar.js): its products, the periods of its
-- frames, the addresses of its tiles, the wording of a frame's age and the socket of its news.
pub mod Product
pub mod Latest
pub mod Floor
pub mod Period
pub mod Url
pub mod Relative
pub mod Format
pub mod Socket
mod Tests
