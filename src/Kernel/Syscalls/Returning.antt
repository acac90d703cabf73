-- ===== src/Kernel/Syscalls/Returning.antt =====
-- A system call of a process in EXEC is handled.
use mathlib.Core.Option
use tpsoaprobado.Base.{
  ℕ, ◌≡◌, inl, inr, refl, ◌∙◌, sym, ap, ◌==◌, ==_refl, Option, none, some, List, [], ◌∷◌, ◌++◌,
  Bool-cases, ==→eq, some_inj,
}
use tpsoaprobado.Utils.Dtp.{c_string}
use tpsoaprobado.Utils.Dtp.Syscall.{SyscallPackageData, init_proc, io, dump_memory, exit, unknown}
use tpsoaprobado.Kernel.Pcb.{Pcb, pcb_change_state}
use tpsoaprobado.Kernel.Lists.{
  Kernel, find_pcb, remove_pcb, remove_pcb_from_exec, remove_pcb_from_blocked, add_pcb_to_blocked,
  with_burst,
}
use tpsoaprobado.Kernel.Lists.Conserved.{remove_pcb-found}
use tpsoaprobado.Kernel.Devices.{IoConnection, get_io_connection_status}
use tpsoaprobado.Kernel.Syscalls.{
  Outside, Machine, Message, update_pcb, with_pc, block, unblock_dumped, exit_routine, exit_process,
  dump_memory_syscall, with_kernel, io_connected, io_syscall, handle_cpu_syscall,
}
use tpsoaprobado.Kernel.Syscalls.Handling.{Grows, handle_cpu_syscall-Grows}

abbrev Defined {ℓ} : {A : Type ℓ} → Option A → Type ℓ
Defined {A = A} o = (a : A) × (o ≡ some a)

-- The process that is found is the one that is removed.
-- A process is found in a list that one with its id was added to.
find_pcb-append :
    (pid : ℕ) (ps : List Pcb) (p : Pcb) → p.pid ≡ pid → Defined (find_pcb pid (ps ++ p ∷ []))
unfolding find_pcb
find_pcb-append pid [] p same = (p, rw (same, ==_refl pid) refl)
find_pcb-append pid (q ∷ ps) p same = elim (Bool-cases (q.pid == pid)) [
  | inl here ↦ (q, rw here refl)
  | inr later ↦ let (r, e) = find_pcb-append pid ps p same in (r, rw later e)
]

find_pcb-pid : (pid : ℕ) (ps : List Pcb) (p : Pcb) → find_pcb pid ps ≡ some p → p.pid ≡ pid
unfolding find_pcb
find_pcb-pid pid [] p e = absurd (cc e)
find_pcb-pid pid (q ∷ ps) p e = elim (Bool-cases (q.pid == pid)) [
  | inl here ↦ ap Pcb.pid (sym (some_inj (rw here at e))) ∙ ==→eq q.pid pid here
  | inr later ↦ find_pcb-pid pid ps p (rw later at e)
]

-- A change of a process leaves it there.
find_pcb-update_pcb :
    (pid pc : ℕ) (ps : List Pcb) (p : Pcb)
    → find_pcb pid ps ≡ some p
    → Defined (find_pcb pid (update_pcb pid (with_pc pc) ps))
unfolding find_pcb update_pcb
find_pcb-update_pcb pid pc [] p e = absurd (cc e)
find_pcb-update_pcb pid pc (q ∷ ps) p e = elim (Bool-cases (q.pid == pid)) [
  | inl here ↦ (with_pc pc q, rw (here, here) refl)
  | inr later ↦
      let (r, e') = find_pcb-update_pcb pid pc ps p (rw later at e) in (r, rw (later, later) e')
]

module _ (outside : Outside) where
  open outside use {clock, dumps}

  exit_routine-Defined :
      (o : Option Pcb) (k : Kernel) → Defined o → Defined (exit_routine outside o k)
  unfolding exit_routine
  exit_routine-Defined none k (p, e) = absurd (cc e)
  exit_routine-Defined (some p) k d = (_, refl)

  with_burst-Defined :
      (now : ℕ) (o : Option Pcb) (p : Pcb) → o ≡ some p → Defined (with_burst now o)
  with_burst-Defined now o p e = (_, ap (with_burst now) e)

  exit_process-Defined :
      (pid : ℕ) (k : Kernel) (p : Pcb)
      → find_pcb pid k.exec_list ≡ some p
      → Defined (exit_process outside pid k)
  unfolding exit_process remove_pcb_from_exec
  exit_process-Defined pid k p e =
      exit_routine-Defined _ _
        (with_burst-Defined (clock k.ticks) _ p (remove_pcb-found pid k.exec_list ∙ e))

  -- A process that is blocked to dump it is found in BLOCKED.
  block-found :
      (pid pc : ℕ) (k : Kernel) (p : Pcb)
      → find_pcb pid k.exec_list ≡ some p
      → Defined (remove_pcb pid (block outside pid pc k).1.blocked_list).0
  unfolding block remove_pcb_from_exec add_pcb_to_blocked pcb_change_state
  block-found pid pc k p e =
      let (q, e') = find_pcb-update_pcb pid pc k.exec_list p e in
      let ps = update_pcb pid (with_pc pc) k.exec_list in
      let taken = remove_pcb-found pid ps ∙ e' in
      rw taken (
        let (r, there) = find_pcb-append pid k.blocked_list _ (find_pcb-pid pid ps q e') in
        (r, remove_pcb-found pid _ ∙ there))

  unblock_dumped-Defined :
      (pid : ℕ) (k : Kernel)
      → Defined (remove_pcb pid k.blocked_list).0
      → Defined (unblock_dumped outside pid k)
  unfolding unblock_dumped remove_pcb_from_blocked
  unblock_dumped-Defined pid k d = elim (Bool-cases (dumps pid)) [
    | inl dumped ↦ rw dumped (_, refl)
    | inr failed ↦ rw failed (exit_routine-Defined (remove_pcb pid k.blocked_list).0 _ d)
  ]

  dump_memory_syscall-Defined :
      (pid pc : ℕ) (k : Kernel) (p : Pcb)
      → find_pcb pid k.exec_list ≡ some p
      → Defined (dump_memory_syscall outside pid pc k)
  unfolding dump_memory_syscall
  dump_memory_syscall-Defined pid pc k p e =
      rw (e, dump_memory_syscall)
        (unblock_dumped-Defined pid (block outside pid pc k).1 (block-found pid pc k p e))

  map-Defined :
      (m : Machine) (o : Option Kernel)
      → Defined o
      → Defined {A = Machine × List Message} (Option.map (λ k. (with_kernel outside m k, [])) o)
  map-Defined m o (k, e) =
      ((with_kernel outside m k, []), ap (Option.map (λ k. (with_kernel outside m k, []))) e)

  io_connected-Defined :
      (pid pc time : ℕ) (name : List ℕ) (c : Option IoConnection) (m : Machine) (p : Pcb)
      → find_pcb pid m.kernel.exec_list ≡ some p
      → Defined (io_connected outside pid pc time name c m)
  io_connected-Defined pid pc time name none m p e =
      map-Defined m (exit_process outside pid m.kernel) (exit_process-Defined pid m.kernel p e)
  io_connected-Defined pid pc time name (some c) m p e = (_, refl)

  returns :
      (s : SyscallPackageData) (m : Machine) (p : Pcb)
      → find_pcb s.pid m.kernel.exec_list ≡ some p
      → Defined (handle_cpu_syscall outside s m)
  unfolding handle_cpu_syscall io_syscall
  returns s m p e =
      elim s.params
        as (λ params. Defined (handle_cpu_syscall outside (record s { params = params }) m)) [
          | init_proc file size ↦ (_, refl)
          | io name time ↦
              io_connected-Defined s.pid s.pc time (c_string name)
                (get_io_connection_status (c_string name) m.devices.connections) m p e
          | dump_memory ↦
              map-Defined m (dump_memory_syscall outside s.pid s.pc m.kernel)
                (dump_memory_syscall-Defined s.pid s.pc m.kernel p e)
          | exit ↦
              map-Defined m (exit_process outside s.pid m.kernel)
                (exit_process-Defined s.pid m.kernel p e)
          | unknown code ↦ (_, refl)
        ]

  -- Every system call of a process in EXEC is handled, and leaves every process in the kernel, as
  -- often as it was there; the only one that may come in is a new one, under the next id.
  pub handle_cpu_syscall-returns :
      (s : SyscallPackageData) (m : Machine) (p : Pcb)
      → find_pcb s.pid m.kernel.exec_list ≡ some p
      → (n : Machine) × (sent : List Message) × (handle_cpu_syscall outside s m ≡ some (n, sent))
        × Grows m n
  handle_cpu_syscall-returns s m p e =
      let ((n, sent), done) = returns s m p e in
      (n, sent, done, handle_cpu_syscall-Grows outside s m n sent done)
