-- ===== src/Daemon.antt =====
-- packages/daemon/src: the daemon on the developer's machine.
pub mod Policy
pub mod Gates
pub mod Adoption
mod AdoptionTests
mod Tests
