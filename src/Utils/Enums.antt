-- ===== src/Utils/Enums.antt =====
-- utils/src/enums: the operation codes of the packages and the types of the system calls.
pub mod Opcode
pub mod SyscallType
