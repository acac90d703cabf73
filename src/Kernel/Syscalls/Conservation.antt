-- ===== src/Kernel/Syscalls/Conservation.antt =====
-- The system calls, the disconnection of a device, and the processes of the kernel.
use native.Mathlib.Nat.{zero-add}
use tpsoaprobado.Base.{
  ℕ, ◌+◌, ◌≡◌, inl, inr, refl, ◌∙◌, sym, Option, none, some, arith, Bool-cases, subst, Option-cases,
}
use tpsoaprobado.Kernel.Pcb.{Pcb}
use tpsoaprobado.Kernel.Lists.{
  Kernel, find_pcb, remove_pcb_from_exec, remove_pcb_from_blocked, remove_pcb_from_susp_blocked,
  add_pcb_to_exit,
}
use tpsoaprobado.Kernel.Lists.Conserved.{
  held, processes, remove_pcb_from_blocked-processes, remove_pcb_from_susp_blocked-processes,
  add_pcb_to_ready-processes, add_pcb_to_blocked-processes,
}
use tpsoaprobado.Kernel.Syscalls.{
  Outside, finished, finish, exit_routine, exit_process, block, unblock_dumped, dump_memory_syscall,
  with_pc, update_pcb, end_blocked, end_suspended, handle_found_process,
}
use tpsoaprobado.Kernel.Syscalls.Running.{
  update_pcb-occurrences, remove_pcb_from_exec-processes, add_pcb_to_exit-processes,
}

module _ (outside : Outside) (pid : ℕ) where
  open outside use {clock, kills, dumps}

  finish-processes :
      (target : ℕ) (k : Kernel) → processes pid (finish outside target k) ≡ processes pid k
  unfolding processes
  finish-processes target k = omega (
    arith,
    update_pcb-occurrences pid target (finished (kills target) (clock k.ticks)) k.exit_list
        (λ p. ground arith),
  )

  with_pc-processes :
      (target pc : ℕ) (k : Kernel)
      → processes pid (record k { exec_list = update_pcb target (with_pc pc) k.exec_list })
        ≡ processes pid k
  unfolding processes
  with_pc-processes target pc k =
      omega (arith, update_pcb-occurrences pid target (with_pc pc) k.exec_list (λ p. refl))

  -- What a handler that may follow NULL leaves: if it ends, the processes are those held and those
  -- there.
  abbrev pub Keeps : ℕ → Option Kernel → Type 0
  Keeps n none = Unit {0}
  Keeps n (some k) = processes pid k ≡ n

  exit_routine-Keeps :
      (p : Option Pcb) (k : Kernel)
      → Keeps (held pid p + processes pid k) (exit_routine outside p k)
  unfolding exit_routine
  exit_routine-Keeps none k = tt
  exit_routine-Keeps (some p) k =
      finish-processes p.pid (add_pcb_to_exit clock (some p) k)
      ∙ add_pcb_to_exit-processes clock pid k (some p)

  pub exit_process-Keeps :
      (target : ℕ) (k : Kernel) → Keeps (processes pid k) (exit_process outside target k)
  unfolding exit_process
  exit_process-Keeps target k =
      subst (λ n. Keeps n (exit_process outside target k))
        (remove_pcb_from_exec-processes clock pid k target)
        (exit_routine-Keeps (remove_pcb_from_exec clock target k).0
          (remove_pcb_from_exec clock target k).1)

  block-processes :
      (target pc : ℕ) (k : Kernel) → processes pid (block outside target pc k).1 ≡ processes pid k
  unfolding block
  block-processes target pc k =
      let k₁ = record k { exec_list = update_pcb target (with_pc pc) k.exec_list } in
      add_pcb_to_blocked-processes clock pid (remove_pcb_from_exec clock target k₁).1
        (remove_pcb_from_exec clock target k₁).0
      ∙ remove_pcb_from_exec-processes clock pid k₁ target
      ∙ with_pc-processes target pc k

  unblock_dumped-Keeps :
      (target : ℕ) (k : Kernel) → Keeps (processes pid k) (unblock_dumped outside target k)
  unfolding unblock_dumped
  unblock_dumped-Keeps target k = elim (Bool-cases (dumps target)) [
    | inl dumped ↦ rw dumped (
        add_pcb_to_ready-processes clock pid (remove_pcb_from_blocked target k).1
          (remove_pcb_from_blocked target k).0
        ∙ remove_pcb_from_blocked-processes pid target k)
    | inr failed ↦ rw failed (
        subst
          (λ n. Keeps n (
            exit_routine outside (remove_pcb_from_blocked target k).0
              (remove_pcb_from_blocked target k).1))
          (remove_pcb_from_blocked-processes pid target k)
          (exit_routine-Keeps (remove_pcb_from_blocked target k).0
            (remove_pcb_from_blocked target k).1))
  ]

  pub dump_memory_syscall-Keeps :
      (target pc : ℕ) (k : Kernel)
      → Keeps (processes pid k) (dump_memory_syscall outside target pc k)
  unfolding dump_memory_syscall
  dump_memory_syscall-Keeps target pc k = elim (Option-cases (find_pcb target k.exec_list)) [
    | inl absent ↦ rw (absent, Keeps) refl
    | inr (p, there) ↦
        rw (there, Keeps)
          (subst (λ n. Keeps n (unblock_dumped outside target (block outside target pc k).1))
            (block-processes target pc k)
            (unblock_dumped-Keeps target (block outside target pc k).1))
  ]

  end_suspended-Keeps :
      (r : Option Pcb × Kernel) → Keeps (held pid r.0 + processes pid r.1) (end_suspended outside r)
  end_suspended-Keeps (none, k) = sym (zero-add (processes pid k))
  end_suspended-Keeps (some p, k) = exit_routine-Keeps (some p) k

  end_blocked-Keeps :
      (target : ℕ) (r : Option Pcb × Kernel)
      → Keeps (held pid r.0 + processes pid r.1) (end_blocked outside target r)
  end_blocked-Keeps target (some p, k) = exit_routine-Keeps (some p) k
  end_blocked-Keeps target (none, k) =
      subst (λ n. Keeps n (end_suspended outside (remove_pcb_from_susp_blocked target k)))
        (remove_pcb_from_susp_blocked-processes pid target k ∙ sym (zero-add (processes pid k)))
        (end_suspended-Keeps (remove_pcb_from_susp_blocked target k))

  -- A device that disconnects takes no process out of the kernel: the one that it executed is in
  -- EXIT.
  pub handle_found_process-Keeps :
      (target : ℕ) (k : Kernel) → Keeps (processes pid k) (handle_found_process outside target k)
  unfolding handle_found_process
  handle_found_process-Keeps target k =
      subst (λ n. Keeps n (end_blocked outside target (remove_pcb_from_blocked target k)))
        (remove_pcb_from_blocked-processes pid target k)
        (end_blocked-Keeps target (remove_pcb_from_blocked target k))
