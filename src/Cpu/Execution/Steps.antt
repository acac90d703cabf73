-- ===== src/Cpu/Execution/Steps.antt =====
-- What `execution` of cpu/src/instructionCycle.c does to the process that is executed.
use tpsoaprobado.Base.{
  int32_div, int32_mod, ℕ, ◌+◌, ◌≡◌, ◌⊎◌, inl, inr, refl, subst, true, false, Option, none, some,
  List, [], ◌∷◌, map, length, ltb, Bool-cases,
}
use tpsoaprobado.Utils.Dtp.Syscall.{SyscallParams}
use tpsoaprobado.Cpu.Tlb.{Tlb}
use tpsoaprobado.Cpu.Cache.{CacheEntry, Cache, cache_find_entry}
use tpsoaprobado.Cpu.Cache.Writeback.{Selection, select_victim_entry}
use tpsoaprobado.Cpu.Instruction.{
  InstructionCode, noop, write, read, goto, io, init_proc, dump_memory, exit, unknown, Instruction,
}
use tpsoaprobado.Cpu.Execution.{
  CpuConfig, Cpu, Peers, Sent, write_request, Executed, next, with_cache, write_entry,
  write_selected, write_missing, write_cached, physical, write_direct, execute_write, read_selected,
  read_missing, read_cached, read_direct, execute_read, call, execute, execution,
}

-- The process is not preempted and stays the same; its program counter moves on or stays.
abbrev Continues : Cpu → Executed → Type 0
Continues c none = Unit {0}
Continues c (some (b, c', sent)) =
    (b ≡ false) × (c'.pid ≡ c.pid) × ((c'.pc ≡ (next c).pc) ⊎ (c'.pc ≡ c.pc))

module _ (config : CpuConfig) (peers : Peers) where
  open config use {page_size}

  write_entry-Continues :
      (i offset : ℕ) (value : List ℕ) (prepare : CacheEntry → CacheEntry) (sent : List Sent)
      (c : Cpu) (o : Option CacheEntry)
      → Continues c (write_entry config peers i offset value prepare sent c o)
  write_entry-Continues i offset value prepare sent c none = tt
  write_entry-Continues i offset value prepare sent c (some e) =
      elim (Bool-cases (ltb page_size (offset + length value))) [
        | inl outside ↦ rw outside tt
        | inr fits ↦ rw fits (refl, refl, inl refl)
      ]

  write_selected-Continues :
      (page offset : ℕ) (value : List ℕ) (c : Cpu) (sent : List Sent) (o : Option ℕ)
      → Continues c (write_selected config peers page offset value c sent o)
  write_selected-Continues page offset value c sent none = (refl, refl, inr refl)
  write_selected-Continues page offset value c sent (some i) =
      write_entry-Continues i offset value _ sent c _

  write_missing-Continues :
      (page offset : ℕ) (value : List ℕ) (c : Cpu) (o : Option Selection)
      → Continues c (write_missing config peers page offset value c o)
  write_missing-Continues page offset value c none = tt
  write_missing-Continues page offset value c (some s) =
      write_selected-Continues page offset value (with_cache s.cache s.tlb c) _ s.victim

  write_cached-Continues :
      (page offset : ℕ) (value : List ℕ) (c : Cpu) (found : Option ℕ × Cache)
      → Continues c (write_cached config peers page offset value c found)
  write_cached-Continues page offset value c (none, cache) =
      write_missing-Continues page offset value (with_cache cache c.tlb c)
        (select_victim_entry config.tlb config.cache page_size peers.walk cache c.tlb)
  write_cached-Continues page offset value c (some i, cache) =
      write_entry-Continues i offset value _ [] (with_cache cache c.tlb c) _

  write_direct-Continues :
      (value : List ℕ) (c : Cpu) (at : ℕ × Tlb) → Continues c (write_direct config peers value c at)
  write_direct-Continues value c at = elim (Bool-cases (peers.confirms_write (at.0, value))) [
    | inl confirmed ↦ rw confirmed (refl, refl, inl refl)
    | inr refused ↦ rw refused (refl, refl, inr refl)
  ]

  execute_write-Continues :
      (logic_dir : ℕ) (value : List ℕ) (c : Cpu)
      → Continues c (execute_write config peers logic_dir value c)
  execute_write-Continues logic_dir value c = elim (Bool-cases (ltb 0 config.cache.entry_count)) [
    | inl cached ↦ rw cached (
        write_cached-Continues (int32_div logic_dir page_size) (int32_mod logic_dir page_size) value
          c (cache_find_entry (int32_div logic_dir page_size) c.cache))
    | inr direct ↦ rw direct (write_direct-Continues value c (physical config peers logic_dir c))
  ]

  read_missing-Continues :
      (logic_dir : ℕ) (c : Cpu) (o : Option Selection)
      → Continues c (read_missing config peers logic_dir c o)
  read_missing-Continues logic_dir c none = tt
  read_missing-Continues logic_dir c (some s) = read_selected-Continues s.victim
    where
      read_selected-Continues :
          (v : Option ℕ)
          → Continues c (
              read_selected config peers logic_dir
                (with_cache s.cache s.tlb c)
                (map write_request s.writes)
                v)
      read_selected-Continues none = (refl, refl, inr refl)
      read_selected-Continues (some i) = (refl, refl, inl refl)

  read_cached-Continues :
      (logic_dir : ℕ) (c : Cpu) (found : Option ℕ × Cache)
      → Continues c (read_cached config peers logic_dir c found)
  read_cached-Continues logic_dir c (some i, cache) = (refl, refl, inl refl)
  read_cached-Continues logic_dir c (none, cache) =
      read_missing-Continues logic_dir (with_cache cache c.tlb c)
        (select_victim_entry config.tlb config.cache page_size peers.walk cache c.tlb)

  read_direct-Continues :
      (size : ℕ) (c : Cpu) (at : ℕ × Tlb) → Continues c (read_direct config peers size c at)
  read_direct-Continues size c at = elim (Bool-cases (peers.answers_read at.0 size)) [
    | inl answered ↦ rw answered (refl, refl, inl refl)
    | inr lost ↦ rw lost (refl, refl, inr refl)
  ]

  execute_read-Continues :
      (logic_dir size : ℕ) (c : Cpu) → Continues c (execute_read config peers logic_dir size c)
  execute_read-Continues logic_dir size c = elim (Bool-cases (ltb 0 config.cache.entry_count)) [
    | inl cached ↦ rw cached (
        read_cached-Continues logic_dir c
          (cache_find_entry (int32_div logic_dir page_size) c.cache))
    | inr direct ↦ rw direct (read_direct-Continues size c (physical config peers logic_dir c))
  ]

  -- What an instruction leaves of the process: it is the same, and its program counter moves on,
  -- stays, or is the target of a GOTO.
  abbrev pub Moves : Instruction → Cpu → Cpu → Type 0
  Moves i c c' =
      (c'.pid ≡ c.pid)
      × ((c'.pc ≡ (next c).pc)
          ⊎ ((c'.pc ≡ c.pc) ⊎ ((i.instruction_code ≡ goto) × (c'.pc ≡ i.operand_numeric1))))

  -- The one system call that preempts.
  abbrev pub Called : Cpu → Cpu → List Sent → Type 0
  Called c c' sent =
      (params : SyscallParams) × (sent ≡ call config peers params c ∷ []) × (c' ≡ next c)

  abbrev Ends : Instruction → Cpu → Executed → Type 0
  Ends i c none = Unit {0}
  Ends i c (some (false, c', sent)) = Moves i c c'
  Ends i c (some (true, c', sent)) = Called c c' sent

  Continues-Ends : (i : Instruction) (c : Cpu) (r : Executed) → Continues c r → Ends i c r
  Continues-Ends i c none h = tt
  Continues-Ends i c (some (false, c', sent)) (e, same, inl on) = (same, inl on)
  Continues-Ends i c (some (false, c', sent)) (e, same, inr stay) = (same, inr (inl stay))
  Continues-Ends i c (some (true, c', sent)) (e, same, moved) = absurd (cc e)

  execute-Ends :
      (code : InstructionCode) (i : Instruction) (c : Cpu)
      → i.instruction_code ≡ code
      → Ends i c (execute config peers code i c)
  execute-Ends noop i c e = (refl, inl refl)
  execute-Ends write i c e =
      Continues-Ends i c _ (execute_write-Continues i.operand_numeric1 i.operand_string c)
  execute-Ends read i c e =
      Continues-Ends i c _ (execute_read-Continues i.operand_numeric1 i.operand_numeric2 c)
  execute-Ends goto i c e = (refl, inr (inr (e, refl)))
  execute-Ends io i c e = (SyscallParams.io i.operand_string i.operand_numeric1, refl, refl)
  execute-Ends init_proc i c e = elim (Bool-cases peers.confirms_init) [
    | inl confirmed ↦ rw confirmed (refl, inl refl)
    | inr refused ↦
        rw refused (SyscallParams.init_proc i.operand_string i.operand_numeric1, refl, refl)
  ]
  execute-Ends dump_memory i c e = (SyscallParams.dump_memory, refl, refl)
  execute-Ends exit i c e = (SyscallParams.exit, refl, refl)
  execute-Ends unknown i c e = (refl, inr (inl refl))

  -- An instruction that does not preempt leaves the process the CPU's, with the program counter one
  -- further, unmoved, or at the target of the GOTO that was executed.
  pub execution-Moves :
      (i : Instruction) (c c' : Cpu) (sent : List Sent)
      → execution config peers i c ≡ some (false, c', sent)
      → Moves i c c'
  unfolding execution
  execution-Moves i c c' sent e =
      subst (λ (r : Executed). Ends i c r) e (execute-Ends i.instruction_code i c refl)

  -- An instruction that preempts sends exactly one package, a system call for the process of the
  -- CPU with the program counter after it, which is where the CPU's stands as well.
  pub execution-Called :
      (i : Instruction) (c c' : Cpu) (sent : List Sent)
      → execution config peers i c ≡ some (true, c', sent)
      → Called c c' sent
  unfolding execution
  execution-Called i c c' sent e =
      subst (λ (r : Executed). Ends i c r) e (execute-Ends i.instruction_code i c refl)
