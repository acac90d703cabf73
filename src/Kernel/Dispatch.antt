-- ===== src/Kernel/Dispatch.antt =====
-- The short-term scheduler: kernel/src/kernel_logic/scheduler/short_scheduler.c, with its part of
-- kernel_logic/algorithms and of repository/cpu/cpu_connections.c. The semaphores are not part of
-- the state, and nothing happens between its steps but what the CPU answers to an interrupt.
pub mod Conservation
use tpsoaprobado.Base.{
  ℕ, ◌+◌, ◌-◌, ◌%◌, ◌^◌, Bool, true, false, not, ◌==◌, Option, none, some, List, [], ◌∷◌, length,
  get_elem?, leb, ltb, if◌then◌else◌,
}
use tpsoaprobado.Kernel.Pcb.{Pcb, total_time_ms}
use tpsoaprobado.Kernel.Lists.{
  Kernel, find_pcb, first_pcb, remove_pcb_from_ready, remove_pcb_from_exec, add_pcb_to_ready,
  add_pcb_to_exec,
}
use tpsoaprobado.Kernel.Scheduler.{PlanificationAlgorithm, fifo, sjf, pmcp}
use tpsoaprobado.Kernel.Syscalls.{update_pcb, with_pc}

-- `t_cpu_connection`; no process, `none`, is -1 there.
pub record CpuConnection : Type 0 where
  pub id : ℕ
  pub current_process_executing : Option ℕ

-- The configuration and what is outside: the clock, `list_sort` by `compare_cpu_bursts`, which
-- changes the estimates on the way, the new estimate of a process, and the context that a CPU
-- answers to the interrupt of a process: whether it executed it, and the program counter.
pub record ShortTerm : Type 0 where
  pub clock : ℕ → ℕ
  pub sort_by_bursts : List Pcb → List Pcb
  pub estimate : Pcb → ℕ
  pub interrupt : ℕ → ℕ → Bool × ℕ
  pub short_term_algorithm : PlanificationAlgorithm
  pub preemption_enabled : Bool

-- The lists, the CPUs in the order of their dictionary, and what was sent to dispatch: the CPU, the
-- process and the program counter, the last one first.
pub record Dispatcher : Type 0 where
  pub kernel : Kernel
  pub cpus : List CpuConnection
  pub dispatched : List (ℕ × ℕ × ℕ)

abbrev pub executing : CpuConnection → Option ℕ → CpuConnection
executing c current = record { id = c.id; current_process_executing = current }

-- `cpu_process_not_in_exec`.
abbrev pub in_exec : List Pcb → Option ℕ → Bool
in_exec exec_list none = false
in_exec exec_list (some pid) = elim (find_pcb pid exec_list) [ none ↦ false | some p ↦ true ]

unfoldable pub find_free_cpu : List Pcb → List CpuConnection → Option CpuConnection
unfolding find_pcb
find_free_cpu exec_list [] = none
find_free_cpu exec_list (c ∷ cs) =
    let later = find_free_cpu exec_list cs in
    if in_exec exec_list c.current_process_executing then later else some (executing c none)

abbrev pub executes : ℕ → Option ℕ → Bool
executes pid none = false
executes pid (some other) = other == pid

-- `get_cpu_connection_by_pid`.
unfoldable pub find_cpu_by_pid : ℕ → List CpuConnection → Option CpuConnection
find_cpu_by_pid pid [] = none
find_cpu_by_pid pid (c ∷ cs) =
    let later = find_cpu_by_pid pid cs in
    if executes pid c.current_process_executing then some c else later

-- A change of a CPU through the pointer to it.
unfoldable pub set_executing : ℕ → Option ℕ → List CpuConnection → List CpuConnection
set_executing id current [] = []
set_executing id current (c ∷ cs) =
    let rest = set_executing id current cs in
    if c.id == id then executing c current ∷ cs else c ∷ rest

abbrev pub last_pcb : List Pcb → Option Pcb
last_pcb ps = get_elem? ps (length ps - 1)

abbrev pub cpu_of_last : Option Pcb → List CpuConnection → Option CpuConnection
cpu_of_last none cs = get_elem? cs 0
cpu_of_last (some p) cs = find_cpu_by_pid p.pid cs

module _ (world : ShortTerm) where
  open world use {
    clock, sort_by_bursts, estimate, interrupt, short_term_algorithm, preemption_enabled,
  }

  abbrev pub sorted_for : PlanificationAlgorithm → List Pcb → List Pcb
  sorted_for fifo ps = ps
  sorted_for sjf ps = sort_by_bursts ps
  sorted_for pmcp ps = ps

  -- `get_cpu_by_algorithm`: by SJF the CPU of the last process of EXEC by its estimate, else the
  -- first.
  abbrev pub cpu_by_algorithm :
      PlanificationAlgorithm → List Pcb → List CpuConnection → Option CpuConnection
  cpu_by_algorithm fifo exec_list cs = get_elem? cs 0
  cpu_by_algorithm sjf exec_list cs = cpu_of_last (last_pcb exec_list) cs
  cpu_by_algorithm pmcp exec_list cs = get_elem? cs 0

  abbrev pub mark_free : CpuConnection → Dispatcher → Dispatcher
  mark_free c s = record s { cpus = set_executing c.id none s.cpus }

  abbrev pub sort_exec : Dispatcher → Dispatcher
  sort_exec s = record s {
    kernel = record (s.kernel) { exec_list = sorted_for short_term_algorithm s.kernel.exec_list };
  }

  -- `get_cpu_to_dispatch`.
  abbrev pub busy_cpu : Option CpuConnection → Dispatcher → Option CpuConnection × Dispatcher
  busy_cpu none s =
      let s' = sort_exec s in
      (cpu_by_algorithm short_term_algorithm s'.kernel.exec_list s'.cpus, s')
  busy_cpu (some c) s = (some c, mark_free c s)

  unfoldable pub get_cpu_to_dispatch : Dispatcher → Option CpuConnection × Dispatcher
  unfolding find_free_cpu find_cpu_by_pid set_executing
  get_cpu_to_dispatch s = busy_cpu (find_free_cpu s.kernel.exec_list s.cpus) s

  -- `get_next_process_to_dispatch` sorts READY and gives its first process.
  unfoldable pub sort_ready : Dispatcher → Dispatcher
  sort_ready s = record s {
    kernel = record (s.kernel) { ready_list = sorted_for short_term_algorithm s.kernel.ready_list };
  }

  -- The estimates that `compare_cpu_bursts_SRT` leaves.
  abbrev pub reestimated : Pcb → Pcb
  reestimated p = record p { mt = record (p.mt) { last_estimated_cpu_burst_ms = estimate p } }

  -- Its answer, on int: what is left of the process that executes is more than the estimate of the
  -- one that waits.
  abbrev pub signed_lt : ℕ → ℕ → Bool
  signed_lt a b = ltb ((a + 2 ^ 31) % 2 ^ 32) ((b + 2 ^ 31) % 2 ^ 32)

  abbrev pub is_shorter : ℕ → Pcb → Pcb → Bool
  is_shorter now waiting running =
      let left =
        (estimate running % 2 ^ 32
          + (2 ^ 32 - total_time_ms now running.state_start_time_ms % 2 ^ 32))
        % 2 ^ 32 in
      signed_lt (estimate waiting % 2 ^ 32) left

  abbrev pub compare_srt : ℕ → Pcb → Option Pcb → Dispatcher → Bool × Dispatcher
  compare_srt pid waiting none s = (true, s)
  compare_srt pid waiting (some running) s = (
    is_shorter (clock s.kernel.ticks) waiting running,
    record s {
      kernel = record (s.kernel) {
        ready_list = update_pcb waiting.pid reestimated s.kernel.ready_list;
        exec_list = update_pcb pid reestimated s.kernel.exec_list;
        ticks = s.kernel.ticks + 1;
      };
    },
  )

  -- `should_preempt_executing_process`.
  unfoldable pub should_preempt : Pcb → ℕ → Dispatcher → Bool × Dispatcher
  unfolding find_pcb update_pcb
  should_preempt waiting pid s = compare_srt pid waiting (find_pcb pid s.kernel.exec_list) s

  abbrev pub to_ready : ℕ → Option Pcb × Kernel → Kernel
  to_ready pc (none, k) = k
  to_ready pc (some p, k) = add_pcb_to_ready clock (some (with_pc pc p)) k

  -- The process that a CPU was interrupted in goes to READY, if the CPU executed it and EXEC has
  -- it.
  unfoldable pub preempt : CpuConnection → ℕ → Kernel → Kernel
  unfolding remove_pcb_from_exec add_pcb_to_ready
  preempt c pid k =
      let (same, pc) = interrupt c.id pid in
      if same then to_ready pc (remove_pcb_from_exec clock pid k) else k

  -- Step (5) of `run_short_scheduler`: the process goes from READY to EXEC and to the CPU. `p` is the
  -- process as it was found; what is added is what its pointer leads to now.
  unfoldable pub dispatch : CpuConnection → Pcb → Dispatcher → Dispatcher
  unfolding find_pcb remove_pcb_from_ready add_pcb_to_exec set_executing
  dispatch c p s =
      let pcb_in_ready = find_pcb p.pid s.kernel.ready_list in
      let k = (remove_pcb_from_ready p.pid s.kernel).1 in
      record {
        kernel = add_pcb_to_exec clock pcb_in_ready k;
        cpus = set_executing c.id (some p.pid) s.cpus;
        dispatched = (c.id, p.pid, p.pc) ∷ s.dispatched;
      }

  abbrev pub preempt_if_due : CpuConnection → ℕ → Pcb → Bool × Dispatcher → Dispatcher
  preempt_if_due c pid p (due, s) =
      if due then dispatch c p (record s { kernel = preempt c pid s.kernel }) else s

  abbrev pub dispatch_to : CpuConnection → Pcb → Option ℕ → Dispatcher → Dispatcher
  dispatch_to c p none s = dispatch c p s
  dispatch_to c p (some pid) s =
      if preemption_enabled then preempt_if_due c pid p (should_preempt p pid s) else s

  abbrev pub dispatch_next : CpuConnection → Option Pcb → Dispatcher → Dispatcher
  dispatch_next c none s = s
  dispatch_next c (some p) s = dispatch_to c p c.current_process_executing s

  abbrev pub schedule_on : Option CpuConnection × Dispatcher → Dispatcher
  schedule_on (none, s) = s
  schedule_on (some c, s) =
      let s' = sort_ready s in dispatch_next c (first_pcb s'.kernel.ready_list) s'

  -- `run_short_scheduler`.
  unfoldable pub run_short_scheduler : Dispatcher → Dispatcher
  unfolding get_cpu_to_dispatch sort_ready should_preempt preempt dispatch
  run_short_scheduler s = schedule_on (get_cpu_to_dispatch s)
