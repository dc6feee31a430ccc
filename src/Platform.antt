-- ===== src/Platform.antt =====
-- crates/voya-platform/src: what the core's processes are started with.
pub mod Tun
pub mod Process
pub mod Elevation
mod Tests
