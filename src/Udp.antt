-- ===== src/Udp.antt =====
-- crates/voya-udptest/src/lib.rs: the SOCKS5 UDP-associate channel and the UDP probes.
pub mod Kind
pub mod Outcome
pub mod Ensures
pub mod Address
pub mod Verify
pub mod Target
pub mod Stream
pub mod Service
mod Tests
