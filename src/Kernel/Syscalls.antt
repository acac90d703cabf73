-- ===== src/Kernel/Syscalls.antt =====
-- The system calls of a process: kernel/src/handlers/cpu/syscall and the dispatch on them in
-- handlers/cpu/client/handle_dispatch_client.c, and the disconnection of a device,
-- handlers/io/io_disconnected.c. The schedulers that a handler starts at its end, in threads of
-- their own, are steps after it, and nothing happens between the steps of one handler.
pub mod Running
pub mod Conservation
pub mod Handling
pub mod Returning
use mathlib.Core.Option
use tpsoaprobado.Base.{
  ℕ, ◌+◌, ◌%◌, ◌^◌, Bool, true, false, ◌==◌, Option, none, some, List, [], ◌∷◌, ◌++◌, if◌then◌else◌,
  ◌>>=◌,
}
use tpsoaprobado.Utils.Dtp.{c_string}
use tpsoaprobado.Utils.Dtp.Syscall.{
  SyscallPackageData, SyscallParams, init_proc, io, dump_memory, exit, unknown,
}
use tpsoaprobado.Kernel.Pcb.{Pcb, total_time_ms, pcb_create}
use tpsoaprobado.Kernel.Lists.{
  Kernel, find_pcb, remove_pcb_from_exec, remove_pcb_from_blocked, remove_pcb_from_susp_blocked,
  add_pcb_to_new, add_pcb_to_ready, add_pcb_to_blocked, add_pcb_to_exit,
}
use tpsoaprobado.Kernel.Devices.{
  IoConnection, IoRequest, IoRequestsLink, Devices, Operation, get_io_connection_status,
  find_io_connection_by_socket, delete_io_connection, find_link, update_queue, push,
  process_pending_io,
}

-- A change of a process through the pointer to it.
unfoldable pub update_pcb : ℕ → (Pcb → Pcb) → List Pcb → List Pcb
update_pcb pid f [] = []
update_pcb pid f (p ∷ ps) =
    let rest = update_pcb pid f ps in if p.pid == pid then f p ∷ ps else p ∷ rest

-- What is outside the kernel: the clock, whether the memory confirms that it ends or dumps a
-- process, whether an operation reaches a device, and the configured estimate.
pub record Outside : Type 0 where
  pub clock : ℕ → ℕ
  pub kills : ℕ → Bool
  pub dumps : ℕ → Bool
  pub sends : ℕ → Bool
  pub default_estimated_cpu_burst_ms : ℕ

-- The lists, the devices, and the counter `new_pid`.
pub record Machine : Type 0 where
  pub kernel : Kernel
  pub devices : Devices
  pub new_pid : ℕ

-- What a handler sends: an operation to a device, or a confirmation to the CPU.
pub data Message : Type 0 where
  operation : Operation → Message
  confirm : Bool → Message

abbrev pub operations : List Operation → List Message
operations [] = []
operations (o ∷ os) = operation o ∷ operations os

abbrev pub with_pc : ℕ → Pcb → Pcb
with_pc pc p = record p { pc = pc }

-- The times that the end of `exit_routine` sets, at a reading of the clock.
abbrev pub finished : Bool → ℕ → Pcb → Pcb
finished killed now p =
    if killed
    then record p { mt = record (p.mt) { exit_time_ms = total_time_ms now p.state_start_time_ms } }
    else record p { mt = record (p.mt) { exec_time_ms = now } }

module _ (outside : Outside) where
  open outside use {clock, kills, dumps, sends, default_estimated_cpu_burst_ms}

  -- The change of a process in EXIT through its pointer.
  abbrev pub finish : ℕ → Kernel → Kernel
  finish pid k = record k {
    exit_list = update_pcb pid (finished (kills pid) (clock k.ticks)) k.exit_list;
    ticks = k.ticks + 1;
  }

  -- `exit_routine`; `none`: the process is NULL, and the code reads its id.
  unfoldable pub exit_routine : Option Pcb → Kernel → Option Kernel
  unfolding add_pcb_to_exit update_pcb
  exit_routine none k = none
  exit_routine (some p) k = some (finish p.pid (add_pcb_to_exit clock (some p) k))

  -- `exit_process_syscall`, and `handle_io_connection_not_found`.
  unfoldable pub exit_process : ℕ → Kernel → Option Kernel
  unfolding remove_pcb_from_exec exit_routine
  exit_process pid k = let (p, k₁) = remove_pcb_from_exec clock pid k in exit_routine p k₁

  -- The first half of `dump_memory_syscall`, up to the answer of the memory: EXEC to BLOCKED.
  unfoldable pub block : ℕ → ℕ → Kernel → Option Pcb × Kernel
  unfolding update_pcb remove_pcb_from_exec add_pcb_to_blocked
  block pid pc k =
      let (p, k₁) =
        remove_pcb_from_exec clock pid
          (record k { exec_list = update_pcb pid (with_pc pc) k.exec_list }) in
      (p, add_pcb_to_blocked clock p k₁)

  -- The second half: to READY, or to EXIT.
  unfoldable pub unblock_dumped : ℕ → Kernel → Option Kernel
  unfolding remove_pcb_from_blocked add_pcb_to_ready exit_routine
  unblock_dumped pid k =
      let (p, k₁) = remove_pcb_from_blocked pid k in
      if dumps pid then some (add_pcb_to_ready clock p k₁) else exit_routine p k₁

  -- `dump_memory_syscall`.
  unfoldable pub dump_memory_syscall : ℕ → ℕ → Kernel → Option Kernel
  unfolding find_pcb block unblock_dumped
  dump_memory_syscall pid pc k = elim (find_pcb pid k.exec_list) [
    | none ↦ some k
    | some p ↦ unblock_dumped pid (block pid pc k).1
  ]

  -- The caller of INIT_PROC, at a reading of the clock.
  abbrev pub called : ℕ → ℕ → Pcb → Pcb
  called now pc p = record p {
    pc = pc;
    mt = record (p.mt) { last_cpu_burst_ms = total_time_ms now p.state_start_time_ms };
  }

  abbrev pub add_new : Pcb → Option Pcb → Machine → Machine × List Message
  add_new p (some q) m = (m, [])
  add_new p none m =
      (record m { kernel = add_pcb_to_new clock (some p) m.kernel }, confirm true ∷ [])

  abbrev pub init_found : ℕ → ℕ → ℕ → List ℕ → Option Pcb → Machine → Machine × List Message
  init_found pid pc size file none m = (m, [])
  init_found pid pc size file (some p) m =
      let k = m.kernel in
      let k₁ = record k {
        exec_list = update_pcb pid (called (clock k.ticks) pc) k.exec_list;
        ticks = k.ticks + 2;
      } in
      let id = (m.new_pid + 1) % 2 ^ 32 in
      add_new
        (pcb_create (clock (k.ticks + 1)) default_estimated_cpu_burst_ms id 0 size (some file))
        (find_pcb id k₁.new_list) (record m { kernel = k₁; new_pid = id })

  -- `handle_init_proc_syscall`: a caller that is not in EXEC gets no answer.
  unfoldable pub init_proc_syscall : ℕ → ℕ → ℕ → List ℕ → Machine → Machine × List Message
  unfolding find_pcb update_pcb pcb_create add_pcb_to_new
  init_proc_syscall pid pc size file m =
      init_found pid pc size file (find_pcb pid m.kernel.exec_list) m

  abbrev pub with_kernel : Machine → Kernel → Machine
  with_kernel m k = record m { kernel = k }

  -- The request of a process that is blocked now, and what the device can do of its queue.
  abbrev pub io_requested :
      ℕ → ℕ → ℕ → List ℕ → IoConnection → Option Pcb × Kernel → Machine → Machine × List Message
  io_requested pid pc time name c (none, k) m = (with_kernel m k, [])
  io_requested pid pc time name c (some p, k) m =
      let k₁ = add_pcb_to_blocked clock (some (with_pc pc p)) k in
      let d = record (m.devices) {
        links = update_queue name (push (record { pid = pid; sleep_time = time })) m.devices.links;
      } in
      let (found, d₁, sent) = process_pending_io sends c.socket name k₁ d in
      (record m { kernel = k₁; devices = d₁ }, operations sent)

  abbrev pub io_linked :
      ℕ → ℕ → ℕ → List ℕ → IoConnection → Option IoRequestsLink → Machine → Machine × List Message
  io_linked pid pc time name c none m = (m, [])
  io_linked pid pc time name c (some l) m =
      io_requested pid pc time name c (remove_pcb_from_exec clock pid m.kernel) m

  abbrev pub io_connected :
      ℕ → ℕ → ℕ → List ℕ → Option IoConnection → Machine → Option (Machine × List Message)
  io_connected pid pc time name none m =
      Option.map (λ k. (with_kernel m k, [])) (exit_process pid m.kernel)
  io_connected pid pc time name (some c) m =
      some (io_linked pid pc time name c (find_link name m.devices.links) m)

  -- `handle_io_process_syscall`; without a connection of the device the process ends.
  unfoldable pub io_syscall : ℕ → ℕ → ℕ → List ℕ → Machine → Option (Machine × List Message)
  unfolding exit_process get_io_connection_status find_link update_queue remove_pcb_from_exec
      add_pcb_to_blocked process_pending_io
  io_syscall pid pc time name m =
      io_connected pid pc time name (get_io_connection_status name m.devices.connections) m

  -- `handle_cpu_syscall`.
  unfoldable pub handle_cpu_syscall : SyscallPackageData → Machine → Option (Machine × List Message)
  unfolding init_proc_syscall io_syscall dump_memory_syscall exit_process c_string
  handle_cpu_syscall s m = elim s.params [
    | init_proc file size ↦ some (init_proc_syscall s.pid s.pc size (c_string file) m)
    | io name time ↦ io_syscall s.pid s.pc time (c_string name) m
    | dump_memory ↦
        Option.map (λ k. (with_kernel m k, [])) (dump_memory_syscall s.pid s.pc m.kernel)
    | exit ↦ Option.map (λ k. (with_kernel m k, [])) (exit_process s.pid m.kernel)
    | unknown code ↦ some (m, [])
  ]

  abbrev pub end_suspended : Option Pcb × Kernel → Option Kernel
  end_suspended (none, k) = some k
  end_suspended (some p, k) = exit_routine (some p) k

  abbrev pub end_blocked : ℕ → Option Pcb × Kernel → Option Kernel
  end_blocked pid (none, k) = end_suspended (remove_pcb_from_susp_blocked pid k)
  end_blocked pid (some p, k) = exit_routine (some p) k

  -- `handle_found_process`: the process that the device executed ends.
  unfoldable pub handle_found_process : ℕ → Kernel → Option Kernel
  unfolding remove_pcb_from_blocked remove_pcb_from_susp_blocked exit_routine
  handle_found_process pid k = end_blocked pid (remove_pcb_from_blocked pid k)

  abbrev pub end_current : Option ℕ → Kernel → Option Kernel
  end_current none k = some k
  end_current (some pid) k = handle_found_process pid k

  abbrev pub disconnect_found : ℕ → Option IoConnection → Machine → Option Machine
  disconnect_found socket none m = some m
  disconnect_found socket (some c) m = end_current c.current_process_executing m.kernel >>= λ k.
      some (record m {
        kernel = k;
        devices = record (m.devices) {
          connections = delete_io_connection socket m.devices.connections;
        };
      })

  -- `io_disconnected`.
  unfoldable pub io_disconnected : ℕ → Machine → Option Machine
  unfolding find_io_connection_by_socket delete_io_connection handle_found_process
  io_disconnected socket m =
      disconnect_found socket (find_io_connection_by_socket socket m.devices.connections) m
