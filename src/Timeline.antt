-- ===== src/Timeline.antt =====
-- The radar's timeline (assets/js/hooks/radar_timeline.js): the hook's state, its operations in the
-- children named for them, and the transition system of all its events in `Step`.
pub mod State
pub mod Grid
pub mod Publish
pub mod Play
pub mod Connection
pub mod Sync
pub mod Controls
pub mod Step
pub mod Wired
pub mod Playback
pub mod Backoff
pub mod Life
pub mod Faults
pub mod Ticks
pub mod Html
pub mod Aligned
mod Tests
