-- ===== src/Programs.antt =====
-- misc_progs/nbtest.c, asyntest.c, sculluidtst.c, setlevel.c and setconsole.c: the programs that try
-- the devices. System calls are parameters, or the devices themselves.
pub mod Nbtest
pub mod Copying
pub mod Nonblock
pub mod Asyntest
pub mod Signals
pub mod Sculluidtst
pub mod Showing
pub mod WholeDevice
pub mod Console
pub mod Arguments
mod Tests
