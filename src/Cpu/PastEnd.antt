-- ===== src/Cpu/PastEnd.antt =====
-- What happens to a process whose program counter is past the end of its instructions: the answer
-- of memoria/src/client/fetch-instruction/fetch-instruction.c, and the rounds of cpu/src/main.c on
-- it.
use native.Mathlib.Nat.{mod-eq_of_lt}
use tpsoaprobado.Base.{
  ◌+◌, ◌<◌, ◌^◌, lt→ltb, true, ℕ, zero, suc, ◌≤◌, ◌≡◌, refl, ap, false, none, some, List, [], ◌∷◌,
  length, get_elem?, arith,
}
use tpsoaprobado.Utils.Dtp.{c_string}
use tpsoaprobado.Utils.Buffer.{
  rewind, buffer_create, copy_at, realloc, buffer_add, buffer_add_int32, buffer_add_string,
  buffer_read, buffer_read_int32, buffer_read_string,
}
use tpsoaprobado.Utils.Package.{create_package, read_package}
use tpsoaprobado.Utils.Dtp.Syscall.{create_instruction_package, read_instruction_package}
use tpsoaprobado.Memoria.BitArray.{BitArray}
use tpsoaprobado.Memoria.Processes.{
  MemoriaConfig, ProcessInfo, Memoria, find_process, update_process,
}
use tpsoaprobado.Memoria.Requests.{Host, get_instruction, count_request, instruction_at}
use tpsoaprobado.Memoria.Processes.Finding.{find_process-update_process}
use tpsoaprobado.Cpu.Cycle.{fetch, rounds}
use tpsoaprobado.Cpu.Instruction.{zeroed, decode, parse_instruction, strtok, skip_spaces}
use tpsoaprobado.Cpu.Execution.{
  CpuConfig, Cpu, Peers, next, execution, handle_all, interrupt_handler, cycle,
}

get_elem?-none : {A : Type 0} (xs : List A) (i : ℕ) → length xs ≤ i → get_elem? xs i ≡ none
get_elem?-none [] i h = refl
get_elem?-none (x ∷ xs) zero h = absurd (omega arith)
get_elem?-none (x ∷ xs) (suc i) h = get_elem?-none xs i (omega arith)

instruction_at-past :
    (pc : ℕ) (instructions : List (List ℕ))
    → length instructions ≤ pc
    → instruction_at pc instructions ≡ []
instruction_at-past pc instructions past = rw (get_elem?-none instructions pc past) (ground arith)

-- An empty instruction is decoded as a NOOP.
decode-empty : decode (create_instruction_package []) ≡ some zeroed
unfolding decode create_instruction_package read_instruction_package read_package rewind c_string
    parse_instruction strtok skip_spaces create_package buffer_create copy_at realloc buffer_add
    buffer_add_int32 buffer_add_string buffer_read buffer_read_int32 buffer_read_string
decode-empty = refl

module _ (B : BitArray) (config : MemoriaConfig) (host : Host) (cpu_config : CpuConfig)
    (peers : Peers) where
  -- What the memory answers there.
  fetch-past :
      (m : Memoria B) (c : Cpu) (p : ProcessInfo)
      → find_process c.pid m.process_list ≡ some p
      → length p.instructions ≤ c.pc
      → c.pid < 2 ^ 31
      → c.pc < 2 ^ 31
      → fetch B config host cpu_config peers c m
        ≡ some (
          create_instruction_package [],
          record m { process_list = update_process c.pid count_request m.process_list },
        )
  unfolding fetch get_instruction create_instruction_package create_package
  fetch-past m c p found past pid_pos pc_pos =
      rw
        (
          lt→ltb c.pid (2 ^ 31) pid_pos,
          lt→ltb c.pc (2 ^ 31) pc_pos,
          found,
          instruction_at-past c.pc p.instructions past,
        )
        refl

  -- And what the round does with it.
  cycle-past :
      (c : Cpu)
      → cycle cpu_config peers (create_instruction_package []) [] c ≡ some (false, next c, [])
  unfolding cycle execution interrupt_handler handle_all
  cycle-past c = rw decode-empty refl

  -- A process that the memory has, with a pid that is not negative, and whose program counter is past
  -- the end of its instructions executes NOOP: after any number of rounds without an interrupt, for
  -- which the program counter stays an int32_t that is not negative, the loop goes on, the program
  -- counter is further by this number, nothing else of the CPU has changed and nothing was sent.
  pub rounds-past :
      (n : ℕ) (m : Memoria B) (c : Cpu) (p : ProcessInfo)
      → find_process c.pid m.process_list ≡ some p
      → length p.instructions ≤ c.pc
      → c.pid < 2 ^ 31
      → c.pc + n ≤ 2 ^ 31
      → (m' : Memoria B) × (rounds B config host cpu_config peers n (λ i. []) m c
          ≡ some (true, record c { pc = c.pc + n }, [], m'))
  unfolding rounds
  rounds-past zero m c p found past pid_pos room =
      (m, ap (λ pc. some (true, record c { pc = pc }, [], m)) (omega arith))
  rounds-past (suc n) m c p found past pid_pos room =
      let m₁ : Memoria B = record m {
        process_list = update_process c.pid count_request m.process_list;
      } in
      let further : (next c).pc ≡ c.pc + 1 = mod-eq_of_lt (omega (arith, room)) in
      let (m', rest) =
        rounds-past n m₁ (next c) (count_request p)
          (find_process-update_process c.pid count_request m.process_list p (λ q. refl) found)
          (omega (arith, further, past)) pid_pos (omega (arith, further, room)) in
      (
        m',
        rw (fetch-past m c p found past pid_pos (omega (arith, room)), cycle-past c, rest)
            (ap (λ pc. some (true, record c { pc = pc }, [], m')) (omega (arith, further))),
      )
