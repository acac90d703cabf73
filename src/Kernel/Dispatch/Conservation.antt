-- ===== src/Kernel/Dispatch/Conservation.antt =====
-- The short-term scheduler of kernel/src/kernel_logic/scheduler/short_scheduler.c and the
-- processes.
use native.Mathlib.Nat.{zero-add}
use tpsoaprobado.Base.{
  ap, sym, ℕ, ◌+◌, ◌≡◌, inl, inr, refl, ◌∙◌, sym, Bool, true, false, Option, none, some, List,
  arith, Bool-cases, if◌then◌else◌,
}
use tpsoaprobado.Kernel.Pcb.{Pcb}
use tpsoaprobado.Kernel.Lists.{
  Kernel, find_pcb, first_pcb, remove_pcb_from_ready, remove_pcb_from_exec,
}
use tpsoaprobado.Kernel.Lists.Conserved.{
  remove_pcb-found, held, occurrences, held, processes, remove_pcb_from_ready-processes,
  add_pcb_to_ready-processes,
}
use tpsoaprobado.Kernel.Syscalls.{with_pc}
use tpsoaprobado.Kernel.Syscalls.Running.{
  update_pcb-occurrences, remove_pcb_from_exec-processes, add_pcb_to_exec-processes,
}
use tpsoaprobado.Kernel.Scheduler.{PlanificationAlgorithm, fifo, sjf, pmcp}
use tpsoaprobado.Kernel.Dispatch.{
  CpuConnection, ShortTerm, Dispatcher, sorted_for, sort_exec, busy_cpu, get_cpu_to_dispatch,
  sort_ready, reestimated, compare_srt, should_preempt, to_ready, preempt, dispatch, preempt_if_due,
  dispatch_to, dispatch_next, schedule_on, run_short_scheduler, find_free_cpu,
}

-- What the documentation of `list_sort` says, by a test that changes no process id.
abbrev pub KeepsIds : (List Pcb → List Pcb) → Type 0
KeepsIds sort = (pid : ℕ) (ps : List Pcb) → occurrences pid (sort ps) ≡ occurrences pid ps

module _ (world : ShortTerm) (sorts : KeepsIds world.sort_by_bursts) (pid : ℕ) where
  open world use {clock, interrupt, short_term_algorithm, preemption_enabled}

  sorted_for-occurrences :
      (a : PlanificationAlgorithm) (ps : List Pcb)
      → occurrences pid (sorted_for world a ps) ≡ occurrences pid ps
  sorted_for-occurrences fifo ps = refl
  sorted_for-occurrences sjf ps = sorts pid ps
  sorted_for-occurrences pmcp ps = refl

  sort_exec-processes :
      (s : Dispatcher) → processes pid (sort_exec world s).kernel ≡ processes pid s.kernel
  unfolding processes
  sort_exec-processes s =
      omega (arith, sorted_for-occurrences short_term_algorithm s.kernel.exec_list)

  get_cpu_to_dispatch-processes :
      (s : Dispatcher)
      → processes pid (get_cpu_to_dispatch world s).1.kernel ≡ processes pid s.kernel
  unfolding get_cpu_to_dispatch
  get_cpu_to_dispatch-processes s = busy (find_free_cpu s.kernel.exec_list s.cpus)
    where
      busy :
          (c : Option CpuConnection)
          → processes pid (busy_cpu world c s).1.kernel ≡ processes pid s.kernel
      busy none = sort_exec-processes s
      busy (some c) = refl

  sort_ready-processes :
      (s : Dispatcher) → processes pid (sort_ready world s).kernel ≡ processes pid s.kernel
  unfolding sort_ready processes
  sort_ready-processes s =
      omega (arith, sorted_for-occurrences short_term_algorithm s.kernel.ready_list)

  compare_srt-processes :
      (target : ℕ) (p : Pcb) (found : Option Pcb) (s : Dispatcher)
      → processes pid (compare_srt world target p found s).1.kernel ≡ processes pid s.kernel
  unfolding processes
  compare_srt-processes target p none s = refl
  compare_srt-processes target p (some running) s = omega (
    arith,
    update_pcb-occurrences pid p.pid (reestimated world) s.kernel.ready_list (λ q. refl),
    update_pcb-occurrences pid target (reestimated world) s.kernel.exec_list (λ q. refl),
  )

  to_ready-processes :
      (pc : ℕ) (r : Option Pcb × Kernel)
      → processes pid (to_ready world pc r) ≡ held pid r.0 + processes pid r.1
  to_ready-processes pc (none, k) = sym (zero-add (processes pid k))
  to_ready-processes pc (some p, k) = add_pcb_to_ready-processes clock pid k (some (with_pc pc p))

  preempt-processes :
      (c : CpuConnection) (target : ℕ) (k : Kernel)
      → processes pid (preempt world c target k) ≡ processes pid k
  unfolding preempt
  preempt-processes c target k = elim (Bool-cases (interrupt c.id target).0) [
    | inl same ↦ rw same (
        to_ready-processes (interrupt c.id target).1 (remove_pcb_from_exec clock target k)
        ∙ remove_pcb_from_exec-processes clock pid k target)
    | inr other ↦ rw other refl
  ]

  dispatch-processes :
      (c : CpuConnection) (p : Pcb) (s : Dispatcher)
      → processes pid (dispatch world c p s).kernel ≡ processes pid s.kernel
  unfolding dispatch remove_pcb_from_ready
  dispatch-processes c p s =
      add_pcb_to_exec-processes clock pid (remove_pcb_from_ready p.pid s.kernel).1
        (find_pcb p.pid s.kernel.ready_list)
      ∙ ap (λ o. held pid o + processes pid (remove_pcb_from_ready p.pid s.kernel).1)
          (sym (remove_pcb-found p.pid s.kernel.ready_list))
      ∙ remove_pcb_from_ready-processes pid p.pid s.kernel

  preempt_if_due-processes :
      (c : CpuConnection) (target : ℕ) (p : Pcb) (r : Bool × Dispatcher)
      → processes pid (preempt_if_due world c target p r).kernel ≡ processes pid r.1.kernel
  preempt_if_due-processes c target p (true, s) =
      dispatch-processes c p (record s { kernel = preempt world c target s.kernel })
      ∙ preempt-processes c target s.kernel
  preempt_if_due-processes c target p (false, s) = refl

  either-processes :
      (b : Bool) (x y : Dispatcher)
      → processes pid x.kernel ≡ processes pid y.kernel
      → processes pid (if b then x else y).kernel ≡ processes pid y.kernel
  either-processes true x y e = e
  either-processes false x y e = refl

  dispatch_to-processes :
      (c : CpuConnection) (p : Pcb) (current : Option ℕ) (s : Dispatcher)
      → processes pid (dispatch_to world c p current s).kernel ≡ processes pid s.kernel
  unfolding should_preempt
  dispatch_to-processes c p none s = dispatch-processes c p s
  dispatch_to-processes c p (some target) s =
      either-processes preemption_enabled
        (preempt_if_due world c target p (should_preempt world p target s)) s
        (preempt_if_due-processes c target p (should_preempt world p target s)
          ∙ compare_srt-processes target p (find_pcb target s.kernel.exec_list) s)

  dispatch_next-processes :
      (c : CpuConnection) (p : Option Pcb) (s : Dispatcher)
      → processes pid (dispatch_next world c p s).kernel ≡ processes pid s.kernel
  dispatch_next-processes c none s = refl
  dispatch_next-processes c (some p) s = dispatch_to-processes c p c.current_process_executing s

  schedule_on-processes :
      (r : Option CpuConnection × Dispatcher)
      → processes pid (schedule_on world r).kernel ≡ processes pid r.1.kernel
  schedule_on-processes (none, s) = refl
  schedule_on-processes (some c, s) =
      dispatch_next-processes c (first_pcb (sort_ready world s).kernel.ready_list)
        (sort_ready world s)
      ∙ sort_ready-processes s

  -- With a sort that keeps the ids of a list, a run of the short-term scheduler leaves every
  -- process in the kernel, as often as it was there, whether it finds a free CPU, interrupts one or
  -- does nothing.
  pub run_short_scheduler-processes :
      (s : Dispatcher) → processes pid (run_short_scheduler world s).kernel ≡ processes pid s.kernel
  unfolding run_short_scheduler
  run_short_scheduler-processes s =
      schedule_on-processes (get_cpu_to_dispatch world s) ∙ get_cpu_to_dispatch-processes s
