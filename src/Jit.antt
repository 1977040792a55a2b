-- ===== src/Jit.antt =====
-- misc_modules/jit.c: files under /proc that show the kernel's ways to keep time.
pub mod Delay
pub mod Waits
pub mod Timers
pub mod Rounds
pub mod Readers
pub mod Files
mod Decimal
mod Tests
