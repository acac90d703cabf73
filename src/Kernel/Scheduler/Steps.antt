-- ===== src/Kernel/Scheduler/Steps.antt =====
-- What one step of the schedulers of kernel/src/kernel_logic/scheduler does to the processes.
use tpsoaprobado.Base.{
  All, ℕ, suc, ◌≤◌, ◌≡◌, inl, inr, refl, sym, ap, ◌∙◌, Bool, ◌==◌, ==_refl, Option, none, some,
  some_inj, List, [], ◌∷◌, length, arith, Bool-cases,
}
use tpsoaprobado.Kernel.Pcb.{new, susp_ready, Pcb}
use tpsoaprobado.Kernel.Lists.{
  Kernel, first_pcb, remove_pcb, remove_pcb_from_new, remove_pcb_from_susp_ready, add_pcb_to_ready,
}
use tpsoaprobado.Kernel.Lists.Conserved.{
  occurrences, processes, remove_pcb_from_new-processes, remove_pcb_from_susp_ready-processes,
  add_pcb_to_ready-processes,
}
use tpsoaprobado.Kernel.Lists.Tagged.{
  InState, IsTagged, remove_pcb_from_new-IsTagged, remove_pcb_from_susp_ready-IsTagged,
  add_pcb_to_ready-IsTagged,
}
use tpsoaprobado.Kernel.Scheduler.{
  World, PlanificationAlgorithm, fifo, sjf, pmcp, compare_process_size, sort_by, sort_susp_ready,
  sort_new, resume, admit,
}

-- What the documentation of `list_sort` says: the elements stay, in another order.
pub record SortLaws (list_sort : (Pcb → Pcb → Bool) → List Pcb → List Pcb) : Type 1 where
  pub length-sort :
      (test : Pcb → Pcb → Bool) (ps : List Pcb) → length (list_sort test ps) ≡ length ps
  pub occurrences-sort :
      (test : Pcb → Pcb → Bool) (ps : List Pcb) (pid : ℕ)
      → occurrences pid (list_sort test ps) ≡ occurrences pid ps
  pub All-sort :
      (test : Pcb → Pcb → Bool) (P : Pcb → Type 0) (ps : List Pcb)
      → All P ps
      → All P (list_sort test ps)

-- The same processes in all.
abbrev pub SameProcesses : Kernel → Kernel → Type 0
SameProcesses k k' = (pid : ℕ) → processes pid k' ≡ processes pid k

-- Nothing enters NEW.
abbrev pub Shrinks : Kernel → Kernel → Type 0
Shrinks k k' = length k'.new_list ≤ length k.new_list

pub length-remove_pcb : (target : ℕ) (ps : List Pcb) → length (remove_pcb target ps).1 ≤ length ps
unfolding remove_pcb
length-remove_pcb target [] = omega arith
length-remove_pcb target (p ∷ ps) = elim (Bool-cases (p.pid == target)) [
  | inl here ↦ rw here (omega arith)
  | inr later ↦ rw later (omega (arith, length-remove_pcb target ps))
]

-- The first of a list is the one that its id removes.
pub length-remove_first :
    (ps : List Pcb) (p : Pcb)
    → first_pcb ps ≡ some p
    → suc (length (remove_pcb p.pid ps).1) ≡ length ps
unfolding remove_pcb
length-remove_first [] p h = absurd (cc)
length-remove_first (q ∷ ps) p h =
    let same = ap (λ n. q.pid == n) (ap Pcb.pid (sym (some_inj h))) ∙ ==_refl q.pid in rw same refl

module _ (world : World) (sorts : SortLaws world.list_sort) where
  open world use {list_sort, clock, connects, answer, confirms, long_term_algorithm, sleep_time}

  pub length-sort_by :
      (algo : PlanificationAlgorithm) (ps : List Pcb) → length (sort_by world algo ps) ≡ length ps
  length-sort_by fifo ps = refl
  length-sort_by sjf ps = refl
  length-sort_by pmcp ps = sorts.length-sort compare_process_size ps

  pub occurrences-sort_by :
      (algo : PlanificationAlgorithm) (ps : List Pcb) (pid : ℕ)
      → occurrences pid (sort_by world algo ps) ≡ occurrences pid ps
  occurrences-sort_by fifo ps pid = refl
  occurrences-sort_by sjf ps pid = refl
  occurrences-sort_by pmcp ps pid = sorts.occurrences-sort compare_process_size ps pid

  pub sort_susp_ready-same : (k : Kernel) → SameProcesses k (sort_susp_ready world k)
  unfolding sort_susp_ready processes
  sort_susp_ready-same k pid =
      omega (arith, occurrences-sort_by long_term_algorithm k.susp_ready_list pid)

  pub sort_new-same : (k : Kernel) → SameProcesses k (sort_new world k)
  unfolding sort_new processes
  sort_new-same k pid = omega (arith, occurrences-sort_by long_term_algorithm k.new_list pid)

  pub resume-same : (target : ℕ) (k : Kernel) → SameProcesses k (resume world target k)
  unfolding resume
  resume-same target k pid =
      add_pcb_to_ready-processes clock pid (remove_pcb_from_susp_ready target k).1
        (remove_pcb_from_susp_ready target k).0
      ∙ remove_pcb_from_susp_ready-processes pid target k

  pub admit-same : (target : ℕ) (k : Kernel) → SameProcesses k (admit world target k)
  unfolding admit
  admit-same target k pid =
      add_pcb_to_ready-processes clock pid (remove_pcb_from_new target k).1
        (remove_pcb_from_new target k).0
      ∙ remove_pcb_from_new-processes pid target k

  -- The lists that an addition to READY leaves.
  pub add_pcb_to_ready-rest :
      (p : Option Pcb) (k : Kernel)
      → ((add_pcb_to_ready clock p k).new_list ≡ k.new_list)
        × ((add_pcb_to_ready clock p k).susp_ready_list ≡ k.susp_ready_list)
  unfolding add_pcb_to_ready
  add_pcb_to_ready-rest none k = (refl, refl)
  add_pcb_to_ready-rest (some p) k = (refl, refl)

  pub resume-lists :
      (target : ℕ) (k : Kernel)
      → ((resume world target k).new_list ≡ k.new_list)
        × ((resume world target k).susp_ready_list ≡ (remove_pcb target k.susp_ready_list).1)
  unfolding resume remove_pcb_from_susp_ready
  resume-lists target k =
      add_pcb_to_ready-rest (remove_pcb target k.susp_ready_list).0
        (remove_pcb_from_susp_ready target k).1

  pub admit-lists :
      (target : ℕ) (k : Kernel) → (admit world target k).new_list ≡ (remove_pcb target k.new_list).1
  unfolding admit remove_pcb_from_new
  admit-lists target k =
      (add_pcb_to_ready-rest (remove_pcb target k.new_list).0 (remove_pcb_from_new target k).1).0

  pub length-sort_new : (k : Kernel) → length (sort_new world k).new_list ≡ length k.new_list
  unfolding sort_new
  length-sort_new k = length-sort_by long_term_algorithm k.new_list

  pub length-sort_susp_ready :
      (k : Kernel) → length (sort_susp_ready world k).susp_ready_list ≡ length k.susp_ready_list
  unfolding sort_susp_ready
  length-sort_susp_ready k = length-sort_by long_term_algorithm k.susp_ready_list

  pub sort_susp_ready-Shrinks : (k : Kernel) → Shrinks k (sort_susp_ready world k)
  unfolding sort_susp_ready
  sort_susp_ready-Shrinks k = omega arith

  pub All-sort_by :
      (algo : PlanificationAlgorithm) (P : Pcb → Type 0) (ps : List Pcb)
      → All P ps
      → All P (sort_by world algo ps)
  All-sort_by fifo P ps h = h
  All-sort_by sjf P ps h = h
  All-sort_by pmcp P ps h = sorts.All-sort compare_process_size P ps h

  pub sort_susp_ready-IsTagged : (k : Kernel) → IsTagged k → IsTagged (sort_susp_ready world k)
  unfolding sort_susp_ready IsTagged
  sort_susp_ready-IsTagged k (n, r, e, b, sb, sr, x) =
      (n, r, e, b, sb, All-sort_by long_term_algorithm (InState susp_ready) k.susp_ready_list sr, x)

  pub sort_new-IsTagged : (k : Kernel) → IsTagged k → IsTagged (sort_new world k)
  unfolding sort_new IsTagged
  sort_new-IsTagged k (n, r, e, b, sb, sr, x) =
      (All-sort_by long_term_algorithm (InState new) k.new_list n, r, e, b, sb, sr, x)

  pub resume-IsTagged : (target : ℕ) (k : Kernel) → IsTagged k → IsTagged (resume world target k)
  unfolding resume
  resume-IsTagged target k h =
      add_pcb_to_ready-IsTagged clock (remove_pcb_from_susp_ready target k).1
        (remove_pcb_from_susp_ready target k).0 (remove_pcb_from_susp_ready-IsTagged target k h)

  pub admit-IsTagged : (target : ℕ) (k : Kernel) → IsTagged k → IsTagged (admit world target k)
  unfolding admit
  admit-IsTagged target k h =
      add_pcb_to_ready-IsTagged clock (remove_pcb_from_new target k).1
        (remove_pcb_from_new target k).0 (remove_pcb_from_new-IsTagged target k h)
