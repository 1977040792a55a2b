-- ===== src/Access.antt =====
-- scull/access.c: devices that restrict who may have them open at the same time.
pub mod Users
pub mod Sessions
pub mod Exclusion
pub mod Copies
pub mod Lookup
mod Tests
