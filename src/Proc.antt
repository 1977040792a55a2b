-- ===== src/Proc.antt =====
-- scull/proc.c: the files /proc/scullmem and /proc/scullseq, which show the devices.
pub mod Mem
pub mod Reads
pub mod Overrun
pub mod Seq
mod Tests
