-- ===== src/Cpu.antt =====
-- The CPU module: cpu/src.
pub mod Tlb
pub mod Mmu
pub mod Cache
pub mod Instruction
pub mod Execution
pub mod Cycle
pub mod PastEnd
