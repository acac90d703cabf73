-- ===== src/Kernel/Syscalls/Running.antt =====
-- The lists EXEC and EXIT, and changes of a process through its pointer, lose and double no
-- process.
use tpsoaprobado.Base.{
  ℕ, ◌+◌, ◌≡◌, inl, inr, refl, ap, ◌==◌, Option, none, some, List, [], ◌∷◌, bit, arith, Bool-cases,
}
use tpsoaprobado.Kernel.Pcb.{Pcb, pcb_change_state, exec, exit_l}
use tpsoaprobado.Kernel.Lists.{
  Kernel, remove_pcb, remove_pcb_from_exec, with_burst, changed, add_pcb_to_exec, add_pcb_to_exit,
}
use tpsoaprobado.Kernel.Lists.Conserved.{
  occurrences, held, processes, occurrences-append, remove_pcb-occurrences,
}
use tpsoaprobado.Kernel.Syscalls.{update_pcb}

pub update_pcb-occurrences :
    (pid target : ℕ) (f : Pcb → Pcb) (ps : List Pcb)
    → ((p : Pcb) → (f p).pid ≡ p.pid)
    → occurrences pid (update_pcb target f ps) ≡ occurrences pid ps
unfolding update_pcb
update_pcb-occurrences pid target f [] same = refl
update_pcb-occurrences pid target f (p ∷ ps) same = elim (Bool-cases (p.pid == target)) [
  | inl here ↦ rw here (ap (λ n. bit (n == pid) + occurrences pid ps) (same p))
  | inr later ↦ rw later (omega (arith, update_pcb-occurrences pid target f ps same))
]

held-with_burst : (pid now : ℕ) (p : Option Pcb) → held pid (with_burst now p) ≡ held pid p
held-with_burst pid now none = refl
held-with_burst pid now (some p) = refl

module _ (clock : ℕ → ℕ) (pid : ℕ) (k : Kernel) where
  pub remove_pcb_from_exec-processes :
      (target : ℕ)
      → held pid (remove_pcb_from_exec clock target k).0
          + processes pid (remove_pcb_from_exec clock target k).1
        ≡ processes pid k
  unfolding remove_pcb_from_exec processes
  remove_pcb_from_exec-processes target = omega (
    arith,
    remove_pcb-occurrences pid target k.exec_list,
    held-with_burst pid (clock k.ticks) (remove_pcb target k.exec_list).0,
  )

  pub add_pcb_to_exec-processes :
      (p : Option Pcb) → processes pid (add_pcb_to_exec clock p k) ≡ held pid p + processes pid k
  unfolding add_pcb_to_exec processes pcb_change_state
  add_pcb_to_exec-processes none = omega arith
  add_pcb_to_exec-processes (some p) =
      omega (arith, occurrences-append pid k.exec_list (changed clock k p exec ∷ []))

  pub add_pcb_to_exit-processes :
      (p : Option Pcb) → processes pid (add_pcb_to_exit clock p k) ≡ held pid p + processes pid k
  unfolding add_pcb_to_exit processes pcb_change_state
  add_pcb_to_exit-processes none = omega arith
  add_pcb_to_exit-processes (some p) =
      omega (arith, occurrences-append pid k.exit_list (changed clock k p exit_l ∷ []))
