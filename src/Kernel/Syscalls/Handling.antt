-- ===== src/Kernel/Syscalls/Handling.antt =====
-- `handle_cpu_syscall` of kernel/src/handlers/cpu/client/handle_dispatch_client.c and the
-- processes.
use mathlib.Core.Option
use native.Mathlib.Nat.{zero-add}
use tpsoaprobado.Base.{
  ℕ, ◌+◌, ◌%◌, ◌^◌, ◌≡◌, ◌⊎◌, inl, inr, refl, ◌∙◌, sym, ap, subst, ◌==◌, bit, Option, none, some,
  List, [], arith,
}
use tpsoaprobado.Utils.Dtp.{c_string}
use tpsoaprobado.Utils.Dtp.Syscall.{SyscallPackageData, init_proc, io, dump_memory, exit, unknown}
use tpsoaprobado.Kernel.Pcb.{Pcb, pcb_create}
use tpsoaprobado.Kernel.Lists.{Kernel, find_pcb, remove_pcb_from_exec}
use tpsoaprobado.Kernel.Lists.Conserved.{
  held, processes, add_pcb_to_blocked-processes, add_pcb_to_new-processes,
}
use tpsoaprobado.Kernel.Devices.{IoConnection, IoRequestsLink, find_link, get_io_connection_status}
use tpsoaprobado.Kernel.Syscalls.{
  Outside, Machine, Message, with_pc, update_pcb, called, add_new, init_found, init_proc_syscall,
  with_kernel, io_requested, io_linked, io_connected, io_syscall, exit_process, dump_memory_syscall,
  handle_cpu_syscall,
}
use tpsoaprobado.Kernel.Syscalls.Running.{update_pcb-occurrences, remove_pcb_from_exec-processes}
use tpsoaprobado.Kernel.Syscalls.Conservation.{Keeps, exit_process-Keeps, dump_memory_syscall-Keeps}

-- The processes after a call: those before, or also a new one, whose id is the next.
abbrev pub Grows : Machine → Machine → Type 0
Grows m n =
    ((pid : ℕ) → processes pid n.kernel ≡ processes pid m.kernel)
    ⊎ ((n.new_pid ≡ (m.new_pid + 1) % 2 ^ 32)
        × ((pid : ℕ) → processes pid n.kernel ≡ bit (n.new_pid == pid) + processes pid m.kernel))

abbrev Handled : Machine → Option (Machine × List Message) → Type 0
Handled m none = Unit {0}
Handled m (some (n, sent)) = Grows m n

module _ (outside : Outside) where
  open outside use {clock}

  add_new-Grows :
      (p : Pcb) (found : Option Pcb) (m n : Machine)
      → ((pid : ℕ) → processes pid n.kernel ≡ processes pid m.kernel)
      → n.new_pid ≡ (m.new_pid + 1) % 2 ^ 32
      → p.pid ≡ n.new_pid
      → Grows m (add_new outside p found n).0
  add_new-Grows p (some q) m n same next id = inl same
  add_new-Grows p none m n same next id = inr (
    next,
    λ pid.
        add_pcb_to_new-processes clock pid n.kernel (some p)
        ∙ ap (λ i. bit (i == pid) + processes pid n.kernel) id
        ∙ ap (λ x. bit (n.new_pid == pid) + x) (same pid),
  )

  called-processes :
      (now pid target pc ticks : ℕ) (k : Kernel)
      → processes pid (record k {
        exec_list = update_pcb target (called outside now pc) k.exec_list;
        ticks = ticks;
      })
        ≡ processes pid k
  unfolding processes
  called-processes now pid target pc ticks k =
      omega
        (arith, update_pcb-occurrences pid target (called outside now pc) k.exec_list (λ p. refl))

  init_found-Grows :
      (pid pc size : ℕ) (file : List ℕ) (found : Option Pcb) (m : Machine)
      → Grows m (init_found outside pid pc size file found m).0
  unfolding pcb_create
  init_found-Grows pid pc size file none m = inl (λ i. refl)
  init_found-Grows pid pc size file (some p) m =
      add_new-Grows _ _ m _
        (λ i. called-processes (clock m.kernel.ticks) i pid pc (m.kernel.ticks + 2) m.kernel) refl
        refl

  io_requested-same :
      (pid pc time : ℕ) (name : List ℕ) (c : IoConnection) (m : Machine) (i : ℕ)
      (r : Option Pcb × Kernel)
      → processes i (io_requested outside pid pc time name c r m).0.kernel
        ≡ held i r.0 + processes i r.1
  io_requested-same pid pc time name c m i (none, k) = sym (zero-add (processes i k))
  io_requested-same pid pc time name c m i (some p, k) =
      add_pcb_to_blocked-processes clock i k (some (with_pc pc p))

  io_linked-same :
      (pid pc time : ℕ) (name : List ℕ) (c : IoConnection) (link : Option IoRequestsLink)
      (m : Machine) (i : ℕ)
      → processes i (io_linked outside pid pc time name c link m).0.kernel ≡ processes i m.kernel
  io_linked-same pid pc time name c none m i = refl
  io_linked-same pid pc time name c (some l) m i =
      io_requested-same pid pc time name c m i (remove_pcb_from_exec clock pid m.kernel)
      ∙ remove_pcb_from_exec-processes clock i m.kernel pid

  -- A kernel that keeps the processes of each id.
  kept-Handled :
      (m : Machine) (o : Option Kernel)
      → ((i : ℕ) → Keeps outside i (processes i m.kernel) o)
      → Handled m (Option.map (λ k. (with_kernel outside m k, [])) o)
  kept-Handled m none keeps = tt
  kept-Handled m (some k) keeps = inl keeps

  io_connected-Handled :
      (pid pc time : ℕ) (name : List ℕ) (c : Option IoConnection) (m : Machine)
      → Handled m (io_connected outside pid pc time name c m)
  io_connected-Handled pid pc time name none m =
      kept-Handled m (exit_process outside pid m.kernel)
        (λ i. exit_process-Keeps outside i pid m.kernel)
  io_connected-Handled pid pc time name (some c) m =
      inl (λ i. io_linked-same pid pc time name c (find_link name m.devices.links) m i)

  handled : (s : SyscallPackageData) (m : Machine) → Handled m (handle_cpu_syscall outside s m)
  unfolding handle_cpu_syscall init_proc_syscall io_syscall
  handled s m =
      elim s.params
        as (λ params. Handled m (handle_cpu_syscall outside (record s { params = params }) m)) [
          | init_proc file size ↦
              init_found-Grows s.pid s.pc size (c_string file) (find_pcb s.pid m.kernel.exec_list) m
          | io name time ↦
              io_connected-Handled s.pid s.pc time (c_string name)
                (get_io_connection_status (c_string name) m.devices.connections) m
          | dump_memory ↦
              kept-Handled m (dump_memory_syscall outside s.pid s.pc m.kernel)
                (λ i. dump_memory_syscall-Keeps outside i s.pid s.pc m.kernel)
          | exit ↦
              kept-Handled m (exit_process outside s.pid m.kernel)
                (λ i. exit_process-Keeps outside i s.pid m.kernel)
          | unknown code ↦ inl (λ i. refl)
        ]

  -- A system call that is handled leaves every process in the kernel, as often as it was there; the
  -- only one that may come in is a new one of INIT_PROC, under the next id.
  pub handle_cpu_syscall-Grows :
      (s : SyscallPackageData) (m n : Machine) (sent : List Message)
      → handle_cpu_syscall outside s m ≡ some (n, sent)
      → Grows m n
  handle_cpu_syscall-Grows s m n sent e =
      subst (λ (r : Option (Machine × List Message)). Handled m r) e (handled s m)
