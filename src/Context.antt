-- ===== src/Context.antt =====
-- crates/voya-core/src/context.rs, context/validation.rs, context/node_registration.rs and
-- crates/voya-app/src/coregen.rs: what the configuration of a core is generated from.
pub mod Messages
pub mod Library
pub mod Domains
pub mod Validation
pub mod Env
pub mod Register
pub mod Traverse
pub mod Build
pub mod Maps
pub mod Examples
mod Tests
