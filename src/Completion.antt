-- ===== src/Completion.antt =====
-- completion/completion.c: a device whose readers sleep until somebody writes, one for each write.
pub mod Device
pub mod Runs
mod Tests
