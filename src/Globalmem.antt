-- ===== src/Globalmem.antt =====
-- globalmem/globalmem.c: a device of 4096 bytes that is read and written at a file position.
pub mod Device
pub mod Transfers
pub mod Seek
mod Tests
