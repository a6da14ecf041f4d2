-- ===== src/System.antt =====
-- The components together: the record of a session on its way to the browser, and an adoption on its
-- way to the relay and back.
pub mod Backfill
pub mod Reopened
pub mod Decided
pub mod Adopted
mod AdoptedTests
mod Tests
