-- ===== src/Tests.antt =====
-- Runs at concrete inputs, one for each theorem with hypotheses, on memories small enough to read.
pub mod Blank
pub mod Links
pub mod Sched
pub mod Sync
pub mod Mutex
pub mod Memory
pub mod Machine
pub mod Idt
pub mod Strings
pub mod Thread
pub mod Disk
pub mod Write
pub mod Startup
pub mod Fs
pub mod Format
pub mod Boot
pub mod Bodies
pub mod Whole
pub mod Switch
pub mod OldLoader
pub mod Cstart
