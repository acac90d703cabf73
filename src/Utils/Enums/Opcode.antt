-- ===== src/Utils/Enums/Opcode.antt =====
-- utils/src/enums/Eopcodes.h: the constants of `OPCODE`, by their order in the enumeration.
use tpsoaprobado.Base.{ℕ}

abbrev pub fetch : ℕ
fetch = 0

abbrev pub instruction : ℕ
instruction = 1

abbrev pub init_process : ℕ
init_process = 4

abbrev pub unsuspend_process : ℕ
unsuspend_process = 5

abbrev pub kill_process : ℕ
kill_process = 6

abbrev pub swap : ℕ
swap = 7

abbrev pub write_memory : ℕ
write_memory = 8

abbrev pub read_memory : ℕ
read_memory = 9

abbrev pub c_dump_memory : ℕ
c_dump_memory = 10

abbrev pub get_page_entry : ℕ
get_page_entry = 11

abbrev pub confirmation : ℕ
confirmation = 12

abbrev pub new_io : ℕ
new_io = 13

abbrev pub io_completion : ℕ
io_completion = 14

abbrev pub syscall : ℕ
syscall = 15

abbrev pub dispatch : ℕ
dispatch = 16

abbrev pub interrupt : ℕ
interrupt = 17

abbrev pub cpu_context : ℕ
cpu_context = 18

abbrev pub io_operation : ℕ
io_operation = 19
