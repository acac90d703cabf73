-- ===== src/Tests/Processes.antt =====
-- A kernel with a few processes.
use tpsoaprobado.Base.{some, ℕ, ◌+◌, ◌≡◌, refl, true, none, [], ◌∷◌, length, ltb, arith}
use tpsoaprobado.Kernel.Pcb.{blocked, susp_ready, Pcb, pcb_create, pcb_change_state, ready}
use tpsoaprobado.Kernel.Pcb.Metrics.{
  IsAccounted, total_count, pcb_create-IsAccounted, pcb_change_state-IsAccounted,
}
use tpsoaprobado.Kernel.Lists.{empty_kernel}
use tpsoaprobado.Kernel.Lists.Tagged.{IsTagged}
use tpsoaprobado.Kernel.Devices.{Devices}
use tpsoaprobado.Kernel.Scheduler.{
  World, System, confirmation, fifo, run_long_scheduler, suspend_process, io_completion,
}
use tpsoaprobado.Kernel.Scheduler.Steps.{SameProcesses, SortLaws}
use tpsoaprobado.Kernel.Scheduler.Conservation.{Ran, run_long_scheduler-Ran}
use tpsoaprobado.Kernel.Scheduler.Suspending.{
  system_of, suspend_process-same, io_completion-same, suspend-complete-IsTagged,
}

abbrev process : ℕ → ℕ → Pcb
process pid size = pcb_create 100 50 pid 0 size none

-- Two requests are granted; a sort that leaves the order.
abbrev world : World
world = record {
  list_sort = λ test ps. ps;
  clock = λ n. 1000 + n;
  connects = λ asked. true;
  answer = λ asked request. confirmation true;
  confirms = λ asked request. ltb (length asked) 2;
  long_term_algorithm = fifo;
  sleep_time = 5;
}

sorts : SortLaws world.list_sort
sorts = record {
  length-sort = λ test ps. refl;
  occurrences-sort = λ test ps pid. refl;
  All-sort = λ test P ps h. h;
}

abbrev system : System
system = record {
  kernel = record empty_kernel {
    new_list = process 3 64 ∷ process 4 8 ∷ [];
    blocked_list = pcb_change_state 200 200 (process 1 32) blocked ∷ [];
    susp_ready_list = pcb_change_state 200 200 (process 2 16) susp_ready ∷ [];
  };
  asked = [];
}

system-IsTagged : IsTagged system.kernel
unfolding IsTagged pcb_create pcb_change_state
system-IsTagged = ((refl, (refl, tt)), tt, tt, (refl, tt), tt, (refl, tt), tt)

run_long_scheduler-Ran_example : Ran world sorts system (run_long_scheduler world system)
run_long_scheduler-Ran_example = run_long_scheduler-Ran world sorts system system-IsTagged

suspend_process-same_example :
    SameProcesses system.kernel (system_of (suspend_process world 1 system)).kernel
suspend_process-same_example = suspend_process-same world 1 system

abbrev devices : Devices
devices = record {
  connections =
      record { socket = 8; device_name = 68 ∷ []; current_process_executing = some 1 } ∷ [];
  links = [];
}

io_completion-same_example :
    SameProcesses system.kernel
      (io_completion world (λ socket. true) 8 (68 ∷ []) 1 system.kernel devices).0
io_completion-same_example =
    io_completion-same world (λ socket. true) 8 (68 ∷ []) 1 system.kernel devices

pcb_change_state-IsAccounted_example :
    IsAccounted 100 2 (pcb_change_state 130 132 (process 1 32) ready)
    × (total_count (pcb_change_state 130 132 (process 1 32) ready).me
        ≡ total_count (process 1 32).me + 1)
unfolding pcb_create
pcb_change_state-IsAccounted_example =
    pcb_change_state-IsAccounted 100 0 130 132 (process 1 32) ready
      (pcb_create-IsAccounted 100 50 1 0 32 none) (omega arith) (omega arith) (omega arith)
      (omega arith)

suspend-complete-IsTagged_example :
    IsTagged (system_of (suspend_process world 1 system)).kernel
    × IsTagged (io_completion world (λ socket. true) 8 (68 ∷ []) 1 system.kernel devices).0
suspend-complete-IsTagged_example =
    suspend-complete-IsTagged world (λ socket. true) 8 (68 ∷ []) devices 1 system system-IsTagged
