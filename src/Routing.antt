-- ===== src/Routing.antt =====
-- crates/voya-app/src/routing/manager.rs and crates/voya-db/src/repos/routing.rs: the routings, their
-- rules, and the active one.
pub mod Table
pub mod Rules
pub mod Active
mod Tests
