-- ===== src/Tests/Syscalls.antt =====
-- A kernel with a process in EXEC, a device and a CPU.
use tpsoaprobado.Base.{ℕ, ◌+◌, ◌≡◌, refl, true, false, none, some, List, [], ◌∷◌}
use tpsoaprobado.Utils.Dtp.Syscall.{SyscallPackageData, dump_memory}
use tpsoaprobado.Kernel.Pcb.{Pcb, exec, ready, pcb_create, pcb_change_state}
use tpsoaprobado.Kernel.Lists.{empty_kernel, find_pcb}
use tpsoaprobado.Kernel.Lists.Conserved.{processes}
use tpsoaprobado.Kernel.Devices.{Devices, process_pending_io}
use tpsoaprobado.Kernel.Devices.Pending.{Served, process_pending_io-Served}
use tpsoaprobado.Kernel.Syscalls.{Outside, Machine, Message, handle_cpu_syscall}
use tpsoaprobado.Kernel.Syscalls.Handling.{Grows}
use tpsoaprobado.Kernel.Syscalls.Returning.{handle_cpu_syscall-returns}
use tpsoaprobado.Kernel.Scheduler.{fifo}
use tpsoaprobado.Kernel.Dispatch.{ShortTerm, Dispatcher, run_short_scheduler}
use tpsoaprobado.Kernel.Dispatch.Conservation.{KeepsIds, run_short_scheduler-processes}

abbrev running : Pcb
running = pcb_change_state 200 201 (pcb_create 100 50 4 0 32 none) exec

abbrev waiting : Pcb
waiting = pcb_change_state 200 201 (pcb_create 100 50 5 0 32 none) ready

abbrev disk : List ℕ
disk = 68 ∷ []

abbrev devices : Devices
devices = record {
  connections = record { socket = 8; device_name = disk; current_process_executing = none } ∷ [];
  links = record { device_name = disk; queue = record { pid = 4; sleep_time = 20 } ∷ [] } ∷ [];
}

abbrev machine : Machine
machine = record {
  kernel = record empty_kernel { exec_list = running ∷ []; ready_list = waiting ∷ [] };
  devices = devices;
  new_pid = 5;
}

abbrev outside : Outside
outside = record {
  clock = λ n. 1000 + n;
  kills = λ pid. true;
  dumps = λ pid. false;
  sends = λ socket. true;
  default_estimated_cpu_burst_ms = 50;
}

abbrev dump : SyscallPackageData
dump = record { pid = 4; pc = 9; params = dump_memory }

is_running : find_pcb 4 machine.kernel.exec_list ≡ some running
unfolding find_pcb pcb_change_state pcb_create
is_running = refl

handle_cpu_syscall-returns_example :
    (n : Machine) × (sent : List Message) × (handle_cpu_syscall outside dump machine
      ≡ some (n, sent))
    × Grows machine n
handle_cpu_syscall-returns_example =
    handle_cpu_syscall-returns outside dump machine running is_running

process_pending_io-Served_example :
    let (found, d, sent) = process_pending_io outside.sends 8 disk machine.kernel devices in
    Served 8 disk devices d sent
process_pending_io-Served_example =
    process_pending_io-Served outside.sends 8 disk machine.kernel devices

abbrev world : ShortTerm
world = record {
  clock = λ n. 1000 + n;
  sort_by_bursts = λ ps. ps;
  estimate = λ p. 7;
  interrupt = λ cpu pid. (true, 12);
  short_term_algorithm = fifo;
  preemption_enabled = true;
}

abbrev dispatcher : Dispatcher
dispatcher = record {
  kernel = machine.kernel;
  cpus = record { id = 0; current_process_executing = some 4 } ∷ [];
  dispatched = [];
}

keeps_ids : KeepsIds world.sort_by_bursts
keeps_ids pid ps = refl

run_short_scheduler-processes_example :
    processes 5 (run_short_scheduler world dispatcher).kernel ≡ processes 5 dispatcher.kernel
run_short_scheduler-processes_example = run_short_scheduler-processes world keeps_ids 5 dispatcher
