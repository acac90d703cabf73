-- ===== src/Utils/Enums/SyscallType.antt =====
-- utils/src/enums/Esyscall_type.h: the constants of `SYSCALL_TYPE`.
use tpsoaprobado.Base.{ℕ}

abbrev pub init_proc : ℕ
init_proc = 0

abbrev pub io : ℕ
io = 1

abbrev pub dump_memory : ℕ
dump_memory = 2

abbrev pub exit : ℕ
exit = 3
