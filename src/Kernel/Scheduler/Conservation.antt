-- ===== src/Kernel/Scheduler/Conservation.antt =====
-- The long-term scheduler of kernel/src/kernel_logic/scheduler/long_scheduler.c and the processes.
use tpsoaprobado.Base.{
  ℕ, zero, suc, ◌+◌, ◌≤◌, ◌<◌, ◌≡◌, inl, inr, refl, ap, ◌∙◌, Bool, true, false, Option, none, some,
  length, arith, Bool-cases,
}
use tpsoaprobado.Kernel.Pcb.{Pcb}
use tpsoaprobado.Kernel.Lists.{Kernel, first_pcb}
use tpsoaprobado.Kernel.Lists.Tagged.{IsTagged}
use tpsoaprobado.Kernel.Scheduler.{
  World, System, Request, swap_in, init_process, sort_susp_ready, sort_new, resume, admit, turn,
  with_kernel, with_request, resume_loop, admit_loop, then_admit, run_long_scheduler,
}
use tpsoaprobado.Kernel.Scheduler.Steps.{
  SortLaws, SameProcesses, Shrinks, length-remove_pcb, length-remove_first, sort_susp_ready-same,
  sort_new-same, resume-same, admit-same, resume-lists, admit-lists, length-sort_new,
  length-sort_susp_ready, sort_susp_ready-Shrinks, sort_susp_ready-IsTagged, sort_new-IsTagged,
  resume-IsTagged, admit-IsTagged,
}

module _ (world : World) (sorts : SortLaws world.list_sort) where
  open world use {list_sort, clock, connects, answer, confirms, long_term_algorithm, sleep_time}

  -- A run that ends with the same processes, in the lists of their states.
  pub record Ran (s : System) (result : Option (Bool × System)) : Type 0 where
    pub moved : Bool
    pub after : System
    pub returned : result ≡ some (moved, after)
    pub same : SameProcesses s.kernel after.kernel
    pub shrinks : length after.kernel.new_list ≤ length s.kernel.new_list
    pub tagged : IsTagged after.kernel

  -- One turn of a loop whose later turns are such runs.
  turn-Ran :
      (found : Option Pcb) (request : Pcb → Request) (move : ℕ → Kernel → Kernel)
      (next : System → Option (Bool × System)) (moved : Bool) (s start : System)
      → SameProcesses start.kernel s.kernel
      → Shrinks start.kernel s.kernel
      → IsTagged s.kernel
      → ((target : ℕ) → SameProcesses s.kernel (move target s.kernel))
      → ((target : ℕ) → Shrinks s.kernel (move target s.kernel))
      → ((target : ℕ) → IsTagged (move target s.kernel))
      → ((p : Pcb)
          → found ≡ some p
          → Ran
              (with_kernel (with_request (request p) s) (move p.pid s.kernel))
              (next (with_kernel (with_request (request p) s) (move p.pid s.kernel))))
      → Ran start (turn world found request move next moved s)
  turn-Ran none request move next moved s start sorted short tags moves shrinks move_tags later =
      record {
        moved = moved;
        after = s;
        returned = refl;
        same = sorted;
        shrinks = short;
        tagged = tags;
      }
  turn-Ran (some p) request move next moved s start sorted short tags moves shrinks move_tags
        later =
      elim (Bool-cases (confirms s.asked (request p))) [
        | inr refused ↦ rw refused (record {
          moved = moved;
          after = with_request (request p) s;
          returned = refl;
          same = sorted;
          shrinks = short;
          tagged = tags;
        })
        | inl granted ↦
            let h = later p refl in
            rw granted (record {
              moved = h.moved;
              after = h.after;
              returned = h.returned;
              same = λ pid. h.same pid ∙ moves p.pid pid ∙ sorted pid;
              shrinks = omega (arith, h.shrinks, shrinks p.pid, short);
              tagged = h.tagged;
            })
      ]

  admit_loop-Ran :
      (fuel : ℕ) (moved : Bool) (s : System)
      → IsTagged s.kernel
      → length s.kernel.new_list < fuel
      → Ran s (admit_loop world fuel moved s)
  unfolding admit_loop
  admit_loop-Ran zero moved s t enough = absurd (omega arith)
  admit_loop-Ran (suc fuel) moved s t enough =
      let k = sort_new world s.kernel in
      turn-Ran (first_pcb k.new_list) (λ p. init_process p.pid p.size p.pseudocode_file)
        (admit world) (admit_loop world fuel true) moved (with_kernel s k) s
        (sort_new-same world sorts s.kernel) (omega (arith, length-sort_new world sorts s.kernel))
        (sort_new-IsTagged world sorts s.kernel t) (λ target. admit-same world sorts target k)
        (λ target. omega (
          arith,
          ap length (admit-lists world sorts target k),
          length-remove_pcb target k.new_list,
        ))
        (λ target. admit-IsTagged world sorts target k (sort_new-IsTagged world sorts s.kernel t))
        (λ p first.
          admit_loop-Ran fuel true
            (with_kernel
              (with_request (init_process p.pid p.size p.pseudocode_file) (with_kernel s k))
              (admit world p.pid k))
            (admit-IsTagged world sorts p.pid k (sort_new-IsTagged world sorts s.kernel t))
            (omega (
              arith,
              enough,
              ap length (admit-lists world sorts p.pid k),
              length-remove_first k.new_list p first,
              length-sort_new world sorts s.kernel,
            )))

  resume_loop-Ran :
      (fuel : ℕ) (moved : Bool) (s : System)
      → IsTagged s.kernel
      → length s.kernel.susp_ready_list < fuel
      → Ran s (resume_loop world fuel moved s)
  unfolding resume_loop
  resume_loop-Ran zero moved s t enough = absurd (omega arith)
  resume_loop-Ran (suc fuel) moved s t enough =
      let k = sort_susp_ready world s.kernel in
      turn-Ran (first_pcb k.susp_ready_list) (λ p. swap_in p.pid) (resume world)
        (resume_loop world fuel true) moved (with_kernel s k) s
        (sort_susp_ready-same world sorts s.kernel) (sort_susp_ready-Shrinks world sorts s.kernel)
        (sort_susp_ready-IsTagged world sorts s.kernel t)
        (λ target. resume-same world sorts target k)
        (λ target. omega (arith, ap length (resume-lists world sorts target k).0))
        (λ target.
          resume-IsTagged world sorts target k (sort_susp_ready-IsTagged world sorts s.kernel t))
        (λ p first.
          resume_loop-Ran fuel true
            (with_kernel (with_request (swap_in p.pid) (with_kernel s k)) (resume world p.pid k))
            (resume-IsTagged world sorts p.pid k (sort_susp_ready-IsTagged world sorts s.kernel t))
            (omega (
              arith,
              enough,
              ap length (resume-lists world sorts p.pid k).1,
              length-remove_first k.susp_ready_list p first,
              length-sort_susp_ready world sorts s.kernel,
            )))

  -- If every process is in the list of its state, the long-term scheduler ends, whatever the memory
  -- module answers and whichever algorithm is configured, and afterwards every process id is in the
  -- lists of the kernel as often as before and every process is in the list of its state.
  -- (`list_sort` keeps the length of a list, how often an id is in it, and what holds of all its
  -- elements. Nothing else happens during the run.)
  pub run_long_scheduler-Ran : (s : System) → IsTagged s.kernel → Ran s (run_long_scheduler world s)
  unfolding run_long_scheduler
  run_long_scheduler-Ran s t = elim (Bool-cases (connects s.asked)) [
    | inr refused ↦ rw refused (record {
      moved = false;
      after = s;
      returned = refl;
      same = λ pid. refl;
      shrinks = omega arith;
      tagged = t;
    })
    | inl connected ↦
        let h = resume_loop-Ran (length s.kernel.susp_ready_list + 1) false s t (omega arith) in
        let h' =
          admit_loop-Ran (length s.kernel.new_list + 1) h.moved h.after h.tagged
            (omega (arith, h.shrinks)) in
        rw connected (record {
          moved = h'.moved;
          after = h'.after;
          returned = ap (then_admit world (length s.kernel.new_list + 1)) h.returned ∙ h'.returned;
          same = λ pid. h'.same pid ∙ h.same pid;
          shrinks = omega (arith, h.shrinks, h'.shrinks);
          tagged = h'.tagged;
        })
  ]
