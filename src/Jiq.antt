-- ===== src/Jiq.antt =====
-- misc_modules/jiq.c: files under /proc whose text a work queue prints.
pub mod Work
pub mod Readers
pub mod Files
mod Tests
