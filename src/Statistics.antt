-- ===== src/Statistics.antt =====
-- crates/voya-app/src/statistics.rs and crates/voya-db/src/repos/server_stat.rs: traffic statistics.
pub mod Integer
pub mod ServerStat
pub mod Reconnect
mod Tests
