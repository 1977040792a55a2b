-- ===== src/Sleepy.antt =====
-- misc_modules/sleepy.c: a device whose readers sleep until somebody writes.
pub mod Device
pub mod Runs
mod Tests
