-- ===== src/Tests/Execution.antt =====
-- A CPU without a cache and a lookaside buffer, and a cached page.
use tpsoaprobado.Base.{
  ℕ, ◌+◌, ◌≡◌, refl, true, false, none, some, List, [], ◌∷◌, map, replicate, arith,
}
use tpsoaprobado.Utils.Package.{Package, create_package, read_package}
use tpsoaprobado.Utils.Buffer.{
  buffer_create, buffer_add, buffer_add_int32, buffer_read, buffer_read_int32, copy_at, rewind,
}
use tpsoaprobado.Utils.Dtp.Control.{create_interrupt_package, read_interrupt_package}
use tpsoaprobado.Utils.Dtp.Syscall.{SyscallParams}
use tpsoaprobado.Cpu.Tlb.{tlb_algo_lru, empty_tlb}
use tpsoaprobado.Cpu.Cache.{CacheEntry, cache_algo_clock}
use tpsoaprobado.Cpu.Instruction.{Instruction, io, goto, write, zeroed}
use tpsoaprobado.Cpu.Execution.{
  CpuConfig, Cpu, Peers, Sent, next, call, execution, interrupt_handler,
}
use tpsoaprobado.Cpu.Execution.Regions.{
  PageWrite, modify_all, overwrite_all, after_writeback, after_writeback-modify_all,
}
use tpsoaprobado.Cpu.Execution.Interrupts.{AllAnswered, Interrupts, interrupt_handler-AllAnswered}
use tpsoaprobado.Cpu.Cycle.{rounds}
use tpsoaprobado.Cpu.PastEnd.{rounds-past}
use tpsoaprobado.Memoria.Processes.{Memoria, find_process}
use tpsoaprobado.Memoria.Requests.{Host}
use tpsoaprobado.Tests.Memory.{bits, config, process, memory}

abbrev cpu_config : CpuConfig
cpu_config = record {
  page_size = 4;
  tlb = record { entry_count = 0; replacement_algo = tlb_algo_lru };
  cache = record { entry_count = 0; replacement_algo = cache_algo_clock };
}

abbrev peers : Peers
peers = record {
  walk = λ page pid. page + 1;
  fetch_page = λ at. replicate 4 0;
  confirms_write = λ w. true;
  answers_read = λ at size. true;
  confirms_init = true;
}

abbrev cpu : Cpu
cpu = record { pid = 3; pc = 7; cache = record { cache = []; clock_pointer = 0 }; tlb = empty_tlb }

abbrev wait : Instruction
wait = record zeroed { instruction_code = io; operand_numeric1 = 250; operand_string = 68 ∷ [] }

waits :
    execution cpu_config peers wait cpu
    ≡ some (true, next cpu, call cpu_config peers (SyscallParams.io (68 ∷ []) 250) cpu ∷ [])
unfolding execution
waits = refl

abbrev jump : Instruction
jump = record zeroed { instruction_code = goto; operand_numeric1 = 2 }

jumps : execution cpu_config peers jump cpu ≡ some (false, record cpu { pc = 2 }, [])
unfolding execution
jumps = refl

abbrev entry : CacheEntry
entry = record {
  is_valid = true;
  page = 5;
  pid = 3;
  content = 1 ∷ 2 ∷ 3 ∷ 4 ∷ [];
  use_bit = true;
  modified_bit = false;
  modified_start = 0;
  modified_end = 0;
}

abbrev cached_config : CpuConfig
cached_config = record {
  page_size = 4;
  tlb = record { entry_count = 0; replacement_algo = tlb_algo_lru };
  cache = record { entry_count = 1; replacement_algo = cache_algo_clock };
}

abbrev cached : Cpu
cached = record cpu { cache = record { cache = entry ∷ []; clock_pointer = 0 } }

abbrev store : Instruction
store = record zeroed {
  instruction_code = write;
  operand_numeric1 = 9;
  operand_string = 7 ∷ 8 ∷ [];
}

abbrev writes : List PageWrite
writes = (1, 9 ∷ []) ∷ (3, 8 ∷ []) ∷ []

after_writeback-modify_all_example :
    after_writeback (modify_all writes entry) (1 ∷ 2 ∷ 3 ∷ 4 ∷ [])
    ≡ overwrite_all writes (1 ∷ 2 ∷ 3 ∷ 4 ∷ [])
after_writeback-modify_all_example =
    after_writeback-modify_all (1 ∷ 2 ∷ 3 ∷ 4 ∷ []) entry writes (omega arith) refl refl
      (omega arith, (omega arith, tt))

-- An interrupt of the process that is executed, and one of another.
abbrev interrupts : List (Package × ℕ)
interrupts = (create_interrupt_package 3, 3) ∷ (create_interrupt_package 9, 9) ∷ []

is_interrupt3 : Interrupts (create_interrupt_package 3, 3)
unfolding create_interrupt_package read_interrupt_package create_package read_package rewind
    buffer_create buffer_add buffer_add_int32 buffer_read buffer_read_int32 copy_at
is_interrupt3 = (refl, refl)

is_interrupt9 : Interrupts (create_interrupt_package 9, 9)
unfolding create_interrupt_package read_interrupt_package create_package read_package rewind
    buffer_create buffer_add buffer_add_int32 buffer_read buffer_read_int32 copy_at
is_interrupt9 = (refl, refl)

interrupt_handler-AllAnswered_example :
    (c' : Cpu) × (sent : List Sent) × (interrupt_handler cpu_config peers
        (map (λ (i : Package × ℕ). i.0) interrupts)
        cpu
      ≡ some (true, c', sent))
    × AllAnswered cpu_config peers interrupts cpu c' sent
interrupt_handler-AllAnswered_example =
    interrupt_handler-AllAnswered cpu_config peers interrupts cpu
      (is_interrupt3, (is_interrupt9, tt))

abbrev host : Host
host = record { scripts = λ path. none; room = λ at. 2; dump_opens = true; dump_writes = λ i. true }

process_found : find_process 1 memory.process_list ≡ some process
unfolding find_process
process_found = refl

-- Three rounds from one past the end.
rounds-past_example :
    (m' : Memoria bits) × (rounds bits config host cpu_config peers 3
        (λ i. [])
        memory
        (record cpu { pid = 1; pc = 1 })
      ≡ some (true, record cpu { pid = 1; pc = 4 }, [], m'))
rounds-past_example =
    rounds-past bits config host cpu_config peers 3 memory (record cpu { pid = 1; pc = 1 }) process
      process_found (omega arith) (omega arith) (omega arith)
