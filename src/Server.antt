-- ===== src/Server.antt =====
-- internal/server: the hub, the seam between stored and live events, the subscription handler.
pub mod Channel
pub mod Hub
pub mod Seam
pub mod Frames
pub mod Health
pub mod Subscribe
mod Tests
