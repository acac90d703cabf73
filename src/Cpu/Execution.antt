-- ===== src/Cpu/Execution.antt =====
-- The instruction cycle of cpu/src/instructionCycle.c and cpu/src/main.c: `execution`, the
-- interrupts, and one round of the cycle. The peers do not disconnect in the middle of an exchange,
-- and addresses and sizes are not negative. An int32_t is its bit pattern.
pub mod Regions
pub mod Steps
pub mod Returning
pub mod Interrupts
use mathlib.Core.Option
use tpsoaprobado.Base.{
  int32_div, int32_mod, ℕ, zero, suc, ◌+◌, ◌-◌, ◌*◌, ◌/◌, ◌%◌, ◌^◌, Bool, true, false, not, ◌&&◌,
  ◌||◌, ◌==◌, Option, none, some, List, [], ◌∷◌, ◌++◌, length, get_elem?, set, replicate, leb, ltb,
  map, if◌then◌else◌, ◌>>=◌,
}
use tpsoaprobado.Utils.Enums.Opcode
use tpsoaprobado.Utils.Package.{Package, read_package}
use tpsoaprobado.Utils.Dtp.Control.{create_cpu_context_package, read_interrupt_package}
use tpsoaprobado.Utils.Dtp.Syscall.{SyscallParams, SyscallPackageData}
use tpsoaprobado.Memoria.Bytes.{overwrite}
use tpsoaprobado.Cpu.Tlb.{TlbConfig, Tlb}
use tpsoaprobado.Cpu.Mmu.{mmu_translate_address}
use tpsoaprobado.Cpu.Cache.{CacheEntry, CacheConfig, Cache, cache_find_entry}
use tpsoaprobado.Cpu.Cache.Writeback.{
  WriteRequest, Selection, select_victim_entry, cache_load_page, mmu_process_cleanup,
}
use tpsoaprobado.Cpu.Instruction.{
  InstructionCode, noop, write, read, goto, io, init_proc, dump_memory, exit, unknown, Instruction,
  decode,
}

pub record CpuConfig : Type 0 where
  pub page_size : ℕ
  pub tlb : TlbConfig
  pub cache : CacheConfig

-- `pid` and `pc` of the process that is executed, and the state of the MMU.
pub record Cpu : Type 0 where
  pub pid : ℕ
  pub pc : ℕ
  pub cache : Cache
  pub tlb : Tlb

-- What the memory and the kernel answer: the frame of a page of a process, the bytes of a page from
-- an address on, whether a write is confirmed, whether a read is answered, and whether the kernel
-- confirms a new process.
pub record Peers : Type 0 where
  pub walk : ℕ → ℕ → ℕ
  pub fetch_page : ℕ → List ℕ
  pub confirms_write : WriteRequest → Bool
  pub answers_read : ℕ → ℕ → Bool
  pub confirms_init : Bool

-- The packages that are sent, to the memory and to the kernel.
pub data Sent : Type 0 where
  write_request : WriteRequest → Sent
  read_request : ℕ → ℕ → Sent
  syscall : SyscallPackageData → Sent
  context : Package → Sent

-- Whether the process is preempted, the state, and what was sent. `none`: the bytes written to the
-- cache leave the page, or the search for a victim does not end.
abbrev pub Executed : Type 0
Executed = Option (Bool × Cpu × List Sent)

abbrev pub next : Cpu → Cpu
next c = record c { pc = (c.pc + 1) % 2 ^ 32 }

abbrev pub goes_on : Cpu → List Sent → Executed
goes_on c sent = some (false, next c, sent)

-- `return false` before the program counter moves.
abbrev pub stays : Cpu → List Sent → Executed
stays c sent = some (false, c, sent)

-- The entry that a WRITE sets up for a page that is not in the cache. `modified_bit` is left as it
-- is.
abbrev pub fresh_entry : ℕ → ℕ → ℕ → ℕ → ℕ → CacheEntry → CacheEntry
fresh_entry page_size page pid offset size e = record {
  is_valid = true;
  page = page;
  pid = pid;
  content = replicate page_size 0;
  use_bit = true;
  modified_bit = e.modified_bit;
  modified_start = offset;
  modified_end = offset + size;
}

abbrev pub extended_start : CacheEntry → ℕ → ℕ
extended_start e offset =
    if not e.modified_bit
    then offset
    else if ltb offset e.modified_start
    then offset
    else e.modified_start

abbrev pub extended_end : CacheEntry → ℕ → ℕ
extended_end e end =
    if not e.modified_bit then end else if ltb e.modified_end end then end else e.modified_end

-- The write to an entry, with the bounds of its modified region.
unfoldable pub modify : ℕ → List ℕ → CacheEntry → CacheEntry
unfolding overwrite
modify offset value e = record {
  is_valid = e.is_valid;
  page = e.page;
  pid = e.pid;
  content = overwrite offset value e.content;
  use_bit = e.use_bit;
  modified_bit = true;
  modified_start = extended_start e offset;
  modified_end = extended_end e (offset + length value);
}

abbrev pub with_cache : Cache → Tlb → Cpu → Cpu
with_cache cache tlb c = record { pid = c.pid; pc = c.pc; cache = cache; tlb = tlb }

abbrev pub put_entry : ℕ → CacheEntry → Cpu → Cpu
put_entry i e c = record c { cache = record (c.cache) { cache = set c.cache.cache i e } }

module _ (config : CpuConfig) (peers : Peers) where
  open config use {page_size}

  -- The copy into the content of an entry, which is one page long.
  abbrev pub write_entry :
      ℕ → ℕ → List ℕ → (CacheEntry → CacheEntry) → List Sent → Cpu → Option CacheEntry → Executed
  write_entry i offset value prepare sent c none = none
  write_entry i offset value prepare sent c (some e) =
      if ltb page_size (offset + length value)
      then none
      else goes_on (put_entry i (modify offset value (prepare e)) c) sent

  abbrev pub write_selected : ℕ → ℕ → List ℕ → Cpu → List Sent → Option ℕ → Executed
  write_selected page offset value c sent none = stays c sent
  write_selected page offset value c sent (some i) =
      write_entry i offset value (fresh_entry page_size page c.pid offset (length value)) sent c
        (get_elem? c.cache.cache i)

  abbrev pub write_missing : ℕ → ℕ → List ℕ → Cpu → Option Selection → Executed
  write_missing page offset value c none = none
  write_missing page offset value c (some s) =
      write_selected page offset value (with_cache s.cache s.tlb c) (map write_request s.writes)
        s.victim

  -- WRITE with a cache.
  abbrev pub write_cached : ℕ → ℕ → List ℕ → Cpu → Option ℕ × Cache → Executed
  write_cached page offset value c (some i, cache) =
      write_entry i offset value (λ e. e) [] (with_cache cache c.tlb c) (get_elem? cache.cache i)
  write_cached page offset value c (none, cache) =
      write_missing page offset value (with_cache cache c.tlb c)
        (select_victim_entry config.tlb config.cache page_size peers.walk cache c.tlb)

  -- The physical address of a logical one without a cache: through the buffer, or by the page walk.
  abbrev pub physical : ℕ → Cpu → ℕ × Tlb
  physical logic_dir c =
      if config.tlb.entry_count == 0
      then (
        (peers.walk (int32_div logic_dir page_size) c.pid * page_size
              + int32_mod logic_dir page_size)
            % 2 ^ 32,
        c.tlb,
      )
      else mmu_translate_address config.tlb page_size peers.walk logic_dir c.pid c.tlb

  -- WRITE without a cache, and its answer.
  abbrev pub write_direct : List ℕ → Cpu → ℕ × Tlb → Executed
  write_direct value c (physic_dir, tlb) =
      let c' = with_cache c.cache tlb c in
      let sent = write_request (physic_dir, value) ∷ [] in
      if peers.confirms_write (physic_dir, value) then goes_on c' sent else stays c' sent

  abbrev pub execute_write : ℕ → List ℕ → Cpu → Executed
  execute_write logic_dir value c =
      let page = int32_div logic_dir page_size in
      if ltb 0 config.cache.entry_count
      then write_cached page (int32_mod logic_dir page_size) value c (cache_find_entry page c.cache)
      else write_direct value c (physical logic_dir c)

  abbrev pub read_selected : ℕ → Cpu → List Sent → Option ℕ → Executed
  read_selected logic_dir c sent none = stays c sent
  read_selected logic_dir c sent (some i) =
      let (cache, tlb) =
        cache_load_page config.tlb page_size peers.walk peers.fetch_page logic_dir c.pid i c.cache
          c.tlb in
      goes_on (with_cache cache tlb c) sent

  abbrev pub read_missing : ℕ → Cpu → Option Selection → Executed
  read_missing logic_dir c none = none
  read_missing logic_dir c (some s) =
      read_selected logic_dir (with_cache s.cache s.tlb c) (map write_request s.writes) s.victim

  -- READ with a cache. What is read is only logged. The request of a page that is loaded is not in
  -- the list.
  abbrev pub read_cached : ℕ → Cpu → Option ℕ × Cache → Executed
  read_cached logic_dir c (some i, cache) = goes_on (with_cache cache c.tlb c) []
  read_cached logic_dir c (none, cache) =
      read_missing logic_dir (with_cache cache c.tlb c)
        (select_victim_entry config.tlb config.cache page_size peers.walk cache c.tlb)

  abbrev pub read_direct : ℕ → Cpu → ℕ × Tlb → Executed
  read_direct size c (physic_dir, tlb) =
      let c' = with_cache c.cache tlb c in
      let sent = read_request physic_dir size ∷ [] in
      if peers.answers_read physic_dir size then goes_on c' sent else stays c' sent

  abbrev pub execute_read : ℕ → ℕ → Cpu → Executed
  execute_read logic_dir size c =
      if ltb 0 config.cache.entry_count
      then read_cached logic_dir c (cache_find_entry (int32_div logic_dir page_size) c.cache)
      else read_direct size c (physical logic_dir c)

  -- A system call, with the program counter after it.
  abbrev pub call : SyscallParams → Cpu → Sent
  call params c = syscall (record { pid = c.pid; pc = (next c).pc; params = params })

  abbrev pub execute : InstructionCode → Instruction → Cpu → Executed
  execute noop i c = goes_on c []
  execute write i c = execute_write i.operand_numeric1 i.operand_string c
  execute read i c = execute_read i.operand_numeric1 i.operand_numeric2 c
  execute goto i c = some (false, record c { pc = i.operand_numeric1 }, [])
  execute io i c =
      some (true, next c, call (SyscallParams.io i.operand_string i.operand_numeric1) c ∷ [])
  execute init_proc i c = some (
    not peers.confirms_init,
    next c,
    call (SyscallParams.init_proc i.operand_string i.operand_numeric1) c ∷ [],
  )
  execute dump_memory i c = some (true, next c, call SyscallParams.dump_memory c ∷ [])
  execute exit i c = some (true, next c, call SyscallParams.exit c ∷ [])
  execute unknown i c = stays c []

  -- `execution`.
  unfoldable pub execution : Instruction → Cpu → Executed
  unfolding cache_find_entry select_victim_entry cache_load_page mmu_translate_address modify
  execution i c = execute i.instruction_code i c

  -- The clean-up of the MMU, which writes the dirty entries to the memory.
  abbrev pub cleaned : Cpu → List WriteRequest × Cache × Tlb → Cpu × List Sent
  cleaned c (writes, cache, tlb) = (with_cache cache tlb c, map write_request writes)

  -- The interrupt of the process `received`: the context goes to the kernel, with whether the CPU
  -- was executing another.
  abbrev pub interrupt_of : ℕ → Cpu → Cpu × List Sent
  interrupt_of received c =
      let (c', sent) =
        cleaned c
          (mmu_process_cleanup config.tlb config.cache page_size peers.walk c.cache c.tlb) in
      if received == c.pid
      then (c', context (create_cpu_context_package received c.pc 0) ∷ sent)
      else (c, context (create_cpu_context_package received c.pc 1) ∷ [])

  -- `check_interrupt`; `none`: the pid was not sent.
  unfoldable pub check_interrupt : Package → Cpu → Option (Cpu × List Sent)
  unfolding mmu_process_cleanup
  check_interrupt p c =
      let received = read_package read_interrupt_package p in
      if p.opcode == Opcode.interrupt
      then Option.map (λ pid. interrupt_of pid c) received
      else some (c, [])

  -- The loop of `interrupt_handler`: `get_last_interrupt` takes the last of the list each time.
  unfoldable pub handle_all : List Package → Cpu → Option (Cpu × List Sent)
  unfolding check_interrupt
  handle_all [] c = some (c, [])
  handle_all (p ∷ ps) c = handle_all ps c >>= λ r.
      Option.map (λ (l : Cpu × List Sent). (l.0, r.1 ++ l.1)) (check_interrupt p r.0)

  -- `interrupt_handler`: whether there was an interrupt. The list is empty afterwards.
  unfoldable pub interrupt_handler : List Package → Cpu → Option (Bool × Cpu × List Sent)
  unfolding handle_all
  interrupt_handler interrupts c =
      Option.map (λ (r : Cpu × List Sent). (ltb 0 (length interrupts), r.0, r.1))
        (handle_all interrupts c)

  -- The end of a round: a process that is preempted or interrupted leaves the CPU.
  abbrev pub idle : Cpu → Cpu
  idle c = record { pid = 2 ^ 32 - 1; pc = 2 ^ 32 - 1; cache = c.cache; tlb = c.tlb }

  abbrev pub end_round : Bool → List Sent → Bool × Cpu × List Sent → Bool × Cpu × List Sent
  end_round preempted sent (interrupted, c, more) =
      if preempted || interrupted then (true, idle c, sent ++ more) else (false, c, sent ++ more)

  -- A round of the inner loop of `main` after `fetch`: whether it ends, the state, and what was
  -- sent. `interrupts` are those that have arrived by its end.
  unfoldable pub cycle : Package → List Package → Cpu → Executed
  unfolding decode execution interrupt_handler
  cycle p interrupts c = do
    i ← decode p
    (preempted, c', sent) ← execution i c
    Option.map (end_round preempted sent) (interrupt_handler interrupts c')
