-- ===== src/Kernel/Scheduler/Suspending.antt =====
-- The suspension of a process (medium_scheduler.c) and the end of an I/O request (io_completion.c),
-- and the processes.
use tpsoaprobado.Base.{
  List, Bool, ℕ, ◌+◌, ◌≡◌, inl, inr, refl, ◌∙◌, ◌==◌, Option, none, some, ltb, arith, Bool-cases,
}
use tpsoaprobado.Kernel.Pcb.{Pcb, total_time_ms}
use tpsoaprobado.Kernel.Lists.{
  Kernel, find_pcb, remove_pcb_from_blocked, remove_pcb_from_susp_blocked,
}
use tpsoaprobado.Kernel.Lists.Conserved.{
  held, processes, remove_pcb_from_blocked-processes, remove_pcb_from_susp_blocked-processes,
  add_pcb_to_ready-processes, add_pcb_to_blocked-processes, add_pcb_to_susp_blocked-processes,
  add_pcb_to_susp_ready-processes,
}
use tpsoaprobado.Kernel.Scheduler.Steps.{SameProcesses}
use tpsoaprobado.Kernel.Lists.Tagged.{
  IsTagged, remove_pcb_from_blocked-IsTagged, remove_pcb_from_susp_blocked-IsTagged,
  add_pcb_to_ready-IsTagged, add_pcb_to_blocked-IsTagged, add_pcb_to_susp_blocked-IsTagged,
  add_pcb_to_susp_ready-IsTagged,
}
use tpsoaprobado.Kernel.Devices.{IoConnection, Devices, find_io_connection_by_socket}
use tpsoaprobado.Kernel.Scheduler.{
  World, System, Request, is_success, with_kernel, suspend, unsuspend, Suspension, kept, reverted,
  suspended, swap_if_sized, suspend_if_due, suspend_process, complete, completed, io_completion,
}

abbrev pub system_of : Suspension → System
system_of (kept s) = s
system_of (reverted s) = s
system_of (suspended s) = s

module _ (world : World) where
  open world use {clock, answer, sleep_time}

  suspend-same : (target : ℕ) (k : Kernel) → SameProcesses k (suspend world target k).1
  unfolding suspend
  suspend-same target k pid =
      add_pcb_to_susp_blocked-processes clock pid (remove_pcb_from_blocked target k).1
        (remove_pcb_from_blocked target k).0
      ∙ remove_pcb_from_blocked-processes pid target k

  unsuspend-same : (target : ℕ) (k : Kernel) → SameProcesses k (unsuspend world target k)
  unfolding unsuspend
  unsuspend-same target k pid =
      add_pcb_to_blocked-processes clock pid (remove_pcb_from_susp_blocked target k).1
        (remove_pcb_from_susp_blocked target k).0
      ∙ remove_pcb_from_susp_blocked-processes pid target k

  suspend-IsTagged : (target : ℕ) (k : Kernel) → IsTagged k → IsTagged (suspend world target k).1
  unfolding suspend
  suspend-IsTagged target k h =
      add_pcb_to_susp_blocked-IsTagged clock (remove_pcb_from_blocked target k).1
        (remove_pcb_from_blocked target k).0 (remove_pcb_from_blocked-IsTagged target k h)

  unsuspend-IsTagged : (target : ℕ) (k : Kernel) → IsTagged k → IsTagged (unsuspend world target k)
  unfolding unsuspend
  unsuspend-IsTagged target k h =
      add_pcb_to_blocked-IsTagged clock (remove_pcb_from_susp_blocked target k).1
        (remove_pcb_from_susp_blocked target k).0 (remove_pcb_from_susp_blocked-IsTagged target k h)

  swap_if_sized-IsTagged :
      (target : ℕ) (p : Option Pcb) (s : System)
      → IsTagged s.kernel
      → IsTagged (system_of (swap_if_sized world target p s)).kernel
  swap_if_sized-IsTagged target none s h = h
  swap_if_sized-IsTagged target (some p) s h = elim (Bool-cases (p.size == 0)) [
    | inl empty ↦ rw empty h
    | inr sized ↦
        rw sized (elim (Bool-cases (is_success (answer s.asked (Request.swap_out target)))) [
          | inl swapped ↦ rw swapped h
          | inr failed ↦ rw failed (unsuspend-IsTagged target s.kernel h)
        ])
  ]

  suspend_if_due-IsTagged :
      (target : ℕ) (p : Option Pcb) (s : System)
      → IsTagged s.kernel
      → IsTagged (system_of (suspend_if_due world target p s)).kernel
  unfolding IsTagged
  suspend_if_due-IsTagged target none s h = h
  suspend_if_due-IsTagged target (some p) s h =
      elim (Bool-cases
        (ltb (total_time_ms (clock s.kernel.ticks) p.state_start_time_ms) sleep_time)) [
          | inl early ↦ rw early h
          | inr due ↦
              let k = record s.kernel { ticks = s.kernel.ticks + 1 } in
              rw due (
                swap_if_sized-IsTagged target (suspend world target k).0
                  (with_kernel s (suspend world target k).1) (suspend-IsTagged target k h))
        ]

  swap_if_sized-same :
      (target : ℕ) (p : Option Pcb) (s : System)
      → SameProcesses s.kernel (system_of (swap_if_sized world target p s)).kernel
  swap_if_sized-same target none s pid = refl
  swap_if_sized-same target (some p) s pid = elim (Bool-cases (p.size == 0)) [
    | inl empty ↦ rw empty refl
    | inr sized ↦
        rw sized (elim (Bool-cases (is_success (answer s.asked (Request.swap_out target)))) [
          | inl swapped ↦ rw swapped refl
          | inr failed ↦ rw failed (unsuspend-same target s.kernel pid)
        ])
  ]

  suspend_if_due-same :
      (target : ℕ) (p : Option Pcb) (s : System)
      → SameProcesses s.kernel (system_of (suspend_if_due world target p s)).kernel
  unfolding processes
  suspend_if_due-same target none s pid = refl
  suspend_if_due-same target (some p) s pid =
      elim (Bool-cases
        (ltb (total_time_ms (clock s.kernel.ticks) p.state_start_time_ms) sleep_time)) [
          | inl early ↦ rw early refl
          | inr due ↦
              let k = record s.kernel { ticks = s.kernel.ticks + 1 } in
              rw due (
                swap_if_sized-same target (suspend world target k).0
                  (with_kernel s (suspend world target k).1) pid
                ∙ suspend-same target k pid)
        ]

  -- The suspension of a process, whether it is due, succeeds or is reverted, leaves every
  -- process id in the lists of the kernel as often as before. (Nothing else happens between its
  -- steps.)
  pub suspend_process-same :
      (target : ℕ) (s : System)
      → SameProcesses s.kernel (system_of (suspend_process world target s)).kernel
  unfolding suspend_process
  suspend_process-same target s =
      suspend_if_due-same target (find_pcb target s.kernel.blocked_list) s

  complete-same :
      (target : ℕ) (found : Option Pcb) (k : Kernel) (pid : ℕ)
      → processes pid (complete world target (found, k)) ≡ held pid found + processes pid k
  complete-same target (some p) k pid = add_pcb_to_ready-processes clock pid k (some p)
  complete-same target none k pid =
      add_pcb_to_susp_ready-processes clock pid (remove_pcb_from_susp_blocked target k).1
        (remove_pcb_from_susp_blocked target k).0
      ∙ remove_pcb_from_susp_blocked-processes pid target k
      ∙ zero_plus (processes pid k)
    where
      zero_plus : (n : ℕ) → n ≡ 0 + n
      zero_plus n = omega arith

  -- The end of an I/O request, with or without a connection of its socket, leaves every process id
  -- in the lists of the kernel as often as before.
  pub io_completion-same :
      (sends : ℕ → Bool) (socket : ℕ) (name : List ℕ) (target : ℕ) (k : Kernel) (d : Devices)
      → SameProcesses k (io_completion world sends socket name target k d).0
  unfolding io_completion
  io_completion-same sends socket name target k d pid =
      by_connection (find_io_connection_by_socket socket d.connections)
    where
      by_connection :
          (o : Option IoConnection)
          → processes pid (completed world sends socket name target o k d).0 ≡ processes pid k
      by_connection none = refl
      by_connection (some c) =
          complete-same target (remove_pcb_from_blocked target k).0
            (remove_pcb_from_blocked target k).1 pid
          ∙ remove_pcb_from_blocked-processes pid target k

  complete-IsTagged :
      (target : ℕ) (found : Option Pcb) (k : Kernel)
      → IsTagged k
      → IsTagged (complete world target (found, k))
  complete-IsTagged target (some p) k h = add_pcb_to_ready-IsTagged clock k (some p) h
  complete-IsTagged target none k h =
      add_pcb_to_susp_ready-IsTagged clock (remove_pcb_from_susp_blocked target k).1
        (remove_pcb_from_susp_blocked target k).0 (remove_pcb_from_susp_blocked-IsTagged target k h)

  completed-IsTagged :
      (sends : ℕ → Bool) (socket : ℕ) (name : List ℕ) (target : ℕ) (o : Option IoConnection)
      (k : Kernel) (d : Devices)
      → IsTagged k
      → IsTagged (completed world sends socket name target o k d).0
  completed-IsTagged sends socket name target none k d h = h
  completed-IsTagged sends socket name target (some c) k d h =
      complete-IsTagged target (remove_pcb_from_blocked target k).0
        (remove_pcb_from_blocked target k).1 (remove_pcb_from_blocked-IsTagged target k h)

  -- If every process is in the list of its state, this is so after a suspension, whether it is due,
  -- succeeds or is reverted, and after the end of an I/O request, with or without a connection of its
  -- socket.
  pub suspend-complete-IsTagged :
      (sends : ℕ → Bool) (socket : ℕ) (name : List ℕ) (d : Devices) (target : ℕ) (s : System)
      → IsTagged s.kernel
      → IsTagged (system_of (suspend_process world target s)).kernel
        × IsTagged (io_completion world sends socket name target s.kernel d).0
  unfolding suspend_process io_completion
  suspend-complete-IsTagged sends socket name d target s h = (
    suspend_if_due-IsTagged target (find_pcb target s.kernel.blocked_list) s h,
    completed-IsTagged sends socket name target (find_io_connection_by_socket socket d.connections)
        s.kernel d h,
  )
