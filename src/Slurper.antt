-- ===== src/Slurper.antt =====
-- internal/slurper and internal/backoff: the subscriptions to upstream labelers.
pub mod Backoff
pub mod Policy
pub mod Limiter
pub mod Frames
pub mod Dial
pub mod Reconcile
pub mod Delivery
pub mod Wired
mod Samples
mod Tests
