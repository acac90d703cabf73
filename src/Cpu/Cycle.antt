-- ===== src/Cpu/Cycle.antt =====
-- The inner loop of cpu/src/main.c with the memory module at the other end of its socket: `fetch` of
-- cpu/src/instructionCycle.c and cpu/src/cpuProtocol.c, answered by
-- memoria/src/client/fetch-instruction/fetch-instruction.c.
use tpsoaprobado.Base.{
  ℕ, zero, suc, ◌^◌, Bool, true, false, ◌&&◌, ◌==◌, Option, none, some, List, [], ◌++◌, ltb, ◌>>=◌,
  if◌then◌else◌,
}
use mathlib.Core.Option
use tpsoaprobado.Utils.Enums.Opcode
use tpsoaprobado.Utils.Package.{Package}
use tpsoaprobado.Memoria.BitArray.{BitArray}
use tpsoaprobado.Memoria.Processes.{MemoriaConfig, Memoria}
use tpsoaprobado.Memoria.Requests.{Host, Reply, reply, no_reply, close_connection, get_instruction}
use tpsoaprobado.Cpu.Execution.{CpuConfig, Cpu, Peers, Sent, cycle}

module _ (B : BitArray) (config : MemoriaConfig) (host : Host) (cpu_config : CpuConfig)
    (peers : Peers) where
  -- `receive_instruction`; `none` is NULL.
  abbrev pub receive_instruction : Option (Reply × Memoria B) → Option (Package × Memoria B)
  receive_instruction none = none
  receive_instruction (some (reply p, m)) =
      if p.opcode == Opcode.instruction then some (p, m) else none
  receive_instruction (some (no_reply, m)) = none
  receive_instruction (some (close_connection, m)) = none

  -- `fetch`: nothing is asked for a negative pid or program counter.
  unfoldable pub fetch : Cpu → Memoria B → Option (Package × Memoria B)
  unfolding get_instruction
  fetch c m =
      if ltb c.pid (2 ^ 31) && ltb c.pc (2 ^ 31)
      then receive_instruction (get_instruction B config host (record { pid = c.pid; pc = c.pc }) m)
      else none

  -- Where some rounds of the loop leave: whether it goes on, the CPU, what was sent, and the memory.
  abbrev pub Rounds : Type 0
  Rounds = Bool × Cpu × List Sent × Memoria B

  abbrev pub sent_before : List Sent → Rounds → Rounds
  sent_before sent (on, c, more, m) = (on, c, sent ++ more, m)

  abbrev pub end_or_go_on :
      (Cpu → Option Rounds) → Memoria B → Bool × Cpu × List Sent → Option Rounds
  end_or_go_on rest m (true, c, sent) = some (false, c, sent, m)
  end_or_go_on rest m (false, c, sent) = Option.map (sent_before sent) (rest c)

  abbrev pub after_fetch :
      (Memoria B → Cpu → Option Rounds)
      → List Package
      → Memoria B
      → Cpu
      → Option (Package × Memoria B)
      → Option Rounds
  after_fetch rest interrupts m c none = some (false, c, [], m)
  after_fetch rest interrupts m c (some (p, m')) =
      cycle cpu_config peers p interrupts c >>= end_or_go_on (rest m') m'

  -- At most so many rounds; `interrupts` are those that arrive by the end of a round, the last round
  -- being 0. `none`: a round is undefined.
  unfoldable pub rounds : ℕ → (ℕ → List Package) → Memoria B → Cpu → Option Rounds
  unfolding fetch cycle
  rounds zero interrupts m c = some (true, c, [], m)
  rounds (suc n) interrupts m c = after_fetch (rounds n interrupts) (interrupts n) m c (fetch c m)
