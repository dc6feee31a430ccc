-- ===== src/Supervisor.antt =====
-- crates/voya-app/src/supervisor.rs and supervisor/actor.rs: the actor that starts and stops the core.
pub mod State
pub mod Monad
pub mod Forms
pub mod Elevated
pub mod Stop
pub mod Start
pub mod Actor
mod Tests
