-- ===== src/Singbox.antt =====
-- crates/voya-core/src/singbox/outbounds.rs and support.rs: the outbounds of a configuration for
-- sing-box.
pub mod Server
pub mod Groups
pub mod Dns
mod Tests
