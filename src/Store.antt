-- ===== src/Store.antt =====
-- internal/store: the events table behind LabelPersist, the labeler registry and the meta table.
pub mod Events
pub mod Playback
pub mod Prune
pub mod Registry
pub mod Frame
pub mod Meta
pub mod Log
pub mod EventPersistence
pub mod Listing
pub mod Samples
mod Tests
