-- ===== src/Web.antt =====
-- apps/web/src/lib: what the browser keeps and shows of the sessions.
pub mod Transcript
pub mod Rows
pub mod Groups
pub mod Threads
pub mod Lineage
pub mod Inbox
mod LineageTests
mod Tests
