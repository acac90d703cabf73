-- ===== src/Memoria.antt =====
-- memoria/src: the memory module, which owns the frames, the page tables and the swap file.
pub mod BitArray
pub mod Frames
pub mod PageTable
pub mod Bytes
pub mod UserSpace
pub mod Processes
pub mod Creation
pub mod Swap
pub mod Requests
