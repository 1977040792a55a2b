-- ===== src/Pipe.antt =====
-- scull/pipe.c: a byte pipe over a circular buffer, with blocking readers and writers.
pub mod State
pub mod Transfer
pub mod Contents
pub mod Ranges
pub mod Fifo
pub mod Append
pub mod Wakes
pub mod Awake
pub mod System
pub mod Open
pub mod Users
pub mod Effects
pub mod Stream
pub mod Poll
pub mod Notify
pub mod Queue
pub mod Progress
pub mod Refinement
mod Tests
mod QueueTests
