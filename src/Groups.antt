-- ===== src/Groups.antt =====
-- crates/voya-core/src/groups.rs: policy groups and proxy chains.
pub mod Profile
pub mod Children
pub mod Cycle
pub mod Validate
mod Tests
