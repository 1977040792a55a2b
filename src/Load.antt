-- ===== src/Load.antt =====
-- Loading and unloading of scull, scullc, scullp, their pipes and access devices, and globalmem: what each takes from the kernel and gives back.
pub mod Modules
pub mod Numbers
pub mod Pipes
pub mod Resources
pub mod Access
pub mod Memory
pub mod Whole
mod Tests
mod NumberTests
