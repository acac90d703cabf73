-- ===== src/Kernel.antt =====
-- The kernel module: its process control blocks, its lists of processes, and its schedulers.
pub mod Pcb
pub mod Lists
pub mod Scheduler
pub mod Devices
pub mod Syscalls
pub mod Dispatch
