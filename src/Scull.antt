-- ===== src/Scull.antt =====
-- The memory device of common_scull/base_scull.c, which scull, scullc and scullp share.
pub mod Device
pub mod Alloc
pub mod Follow
pub mod Trim
pub mod Write
pub mod Read
pub mod Invariant
pub mod Places
pub mod Growth
pub mod Arrays
pub mod Quanta
pub mod WriteShape
pub mod Blocks
pub mod WriteEnds
pub mod Writes
pub mod WriteKeeps
pub mod ReadShape
pub mod Reads
pub mod FullRead
pub mod RoundTrip
pub mod Trims
pub mod File
pub mod Sharing
pub mod OneWrite
pub mod Turns
pub mod Refinement
pub mod Openings
pub mod LooseFile
pub mod OpenRuns
pub mod Zeroing
pub mod Ioctl
pub mod Controls
mod Tests
mod SharingTests
mod OpenTests
