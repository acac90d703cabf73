-- ===== src/Tests.antt =====
-- Inputs at which the theorems are applied.
pub mod Wire
pub mod Frames
pub mod Mmu
pub mod PageCache
pub mod Processes
pub mod Memory
pub mod Execution
pub mod Syscalls
