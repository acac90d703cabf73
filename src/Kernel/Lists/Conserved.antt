-- ===== src/Kernel/Lists/Conserved.antt =====
-- No operation on the lists of the kernel loses or doubles a process.
use tpsoaprobado.Base.{
  ℕ, ◌+◌, ◌≡◌, inl, inr, refl, ◌==◌, Option, none, some, List, [], ◌∷◌, ◌++◌, bit, arith,
  Bool-cases,
}
use tpsoaprobado.Kernel.Pcb.{Pcb, pcb_change_state, ready, blocked, susp_blocked, susp_ready}
use tpsoaprobado.Kernel.Lists.{
  Kernel, find_pcb, remove_pcb, remove_pcb_from_new, remove_pcb_from_ready, remove_pcb_from_blocked,
  remove_pcb_from_susp_blocked, remove_pcb_from_susp_ready, changed, add_pcb_to_new,
  add_pcb_to_ready, add_pcb_to_blocked, add_pcb_to_susp_blocked, add_pcb_to_susp_ready,
}

-- How many processes of a list have an id.
abbrev pub occurrences : ℕ → List Pcb → ℕ
occurrences pid [] = 0
occurrences pid (p ∷ ps) = bit (p.pid == pid) + occurrences pid ps

abbrev pub held : ℕ → Option Pcb → ℕ
held pid none = 0
held pid (some p) = bit (p.pid == pid)

-- And of the whole kernel.
unfoldable pub processes : ℕ → Kernel → ℕ
processes pid k =
    occurrences pid k.new_list
    + occurrences pid k.ready_list
    + occurrences pid k.exec_list
    + occurrences pid k.blocked_list
    + occurrences pid k.susp_blocked_list
    + occurrences pid k.susp_ready_list
    + occurrences pid k.exit_list

pub occurrences-append :
    (pid : ℕ) (ps qs : List Pcb)
    → occurrences pid (ps ++ qs) ≡ occurrences pid ps + occurrences pid qs
occurrences-append pid [] qs = omega arith
occurrences-append pid (p ∷ ps) qs = omega (arith, occurrences-append pid ps qs)

-- What a removal gives is what a search finds.
pub remove_pcb-found : (pid : ℕ) (ps : List Pcb) → (remove_pcb pid ps).0 ≡ find_pcb pid ps
unfolding remove_pcb find_pcb
remove_pcb-found pid [] = refl
remove_pcb-found pid (p ∷ ps) = elim (Bool-cases (p.pid == pid)) [
  | inl here ↦ rw here refl
  | inr later ↦ rw later (remove_pcb-found pid ps)
]

pub remove_pcb-occurrences :
    (pid target : ℕ) (ps : List Pcb)
    → held pid (remove_pcb target ps).0 + occurrences pid (remove_pcb target ps).1
      ≡ occurrences pid ps
unfolding remove_pcb
remove_pcb-occurrences pid target [] = refl
remove_pcb-occurrences pid target (p ∷ ps) = elim (Bool-cases (p.pid == target)) [
  | inl here ↦ rw here refl
  | inr later ↦ rw later (omega (arith, remove_pcb-occurrences pid target ps))
]

-- The removals: what is taken out and what is left are what was there.
module _ (pid target : ℕ) (k : Kernel) where
  pub remove_pcb_from_new-processes :
      held pid (remove_pcb_from_new target k).0 + processes pid (remove_pcb_from_new target k).1
      ≡ processes pid k
  unfolding remove_pcb_from_new processes
  remove_pcb_from_new-processes = omega (arith, remove_pcb-occurrences pid target k.new_list)

  pub remove_pcb_from_ready-processes :
      held pid (remove_pcb_from_ready target k).0 + processes pid (remove_pcb_from_ready target k).1
      ≡ processes pid k
  unfolding remove_pcb_from_ready processes
  remove_pcb_from_ready-processes = omega (arith, remove_pcb-occurrences pid target k.ready_list)

  pub remove_pcb_from_blocked-processes :
      held pid (remove_pcb_from_blocked target k).0
        + processes pid (remove_pcb_from_blocked target k).1
      ≡ processes pid k
  unfolding remove_pcb_from_blocked processes
  remove_pcb_from_blocked-processes =
      omega (arith, remove_pcb-occurrences pid target k.blocked_list)

  pub remove_pcb_from_susp_blocked-processes :
      held pid (remove_pcb_from_susp_blocked target k).0
        + processes pid (remove_pcb_from_susp_blocked target k).1
      ≡ processes pid k
  unfolding remove_pcb_from_susp_blocked processes
  remove_pcb_from_susp_blocked-processes =
      omega (arith, remove_pcb-occurrences pid target k.susp_blocked_list)

  pub remove_pcb_from_susp_ready-processes :
      held pid (remove_pcb_from_susp_ready target k).0
        + processes pid (remove_pcb_from_susp_ready target k).1
      ≡ processes pid k
  unfolding remove_pcb_from_susp_ready processes
  remove_pcb_from_susp_ready-processes =
      omega (arith, remove_pcb-occurrences pid target k.susp_ready_list)

-- The additions: the process is there, once more.
module _ (clock : ℕ → ℕ) (pid : ℕ) (k : Kernel) where
  pub add_pcb_to_new-processes :
      (p : Option Pcb) → processes pid (add_pcb_to_new clock p k) ≡ held pid p + processes pid k
  unfolding add_pcb_to_new processes
  add_pcb_to_new-processes none = omega arith
  add_pcb_to_new-processes (some p) = omega (arith, occurrences-append pid k.new_list (p ∷ []))

  pub add_pcb_to_ready-processes :
      (p : Option Pcb) → processes pid (add_pcb_to_ready clock p k) ≡ held pid p + processes pid k
  unfolding add_pcb_to_ready processes pcb_change_state
  add_pcb_to_ready-processes none = omega arith
  add_pcb_to_ready-processes (some p) =
      omega (arith, occurrences-append pid k.ready_list (changed clock k p ready ∷ []))

  pub add_pcb_to_blocked-processes :
      (p : Option Pcb) → processes pid (add_pcb_to_blocked clock p k) ≡ held pid p + processes pid k
  unfolding add_pcb_to_blocked processes pcb_change_state
  add_pcb_to_blocked-processes none = omega arith
  add_pcb_to_blocked-processes (some p) =
      omega (arith, occurrences-append pid k.blocked_list (changed clock k p blocked ∷ []))

  pub add_pcb_to_susp_blocked-processes :
      (p : Option Pcb)
      → processes pid (add_pcb_to_susp_blocked clock p k) ≡ held pid p + processes pid k
  unfolding add_pcb_to_susp_blocked processes pcb_change_state
  add_pcb_to_susp_blocked-processes none = omega arith
  add_pcb_to_susp_blocked-processes (some p) =
      omega
        (arith, occurrences-append pid k.susp_blocked_list (changed clock k p susp_blocked ∷ []))

  pub add_pcb_to_susp_ready-processes :
      (p : Option Pcb)
      → processes pid (add_pcb_to_susp_ready clock p k) ≡ held pid p + processes pid k
  unfolding add_pcb_to_susp_ready processes pcb_change_state
  add_pcb_to_susp_ready-processes none = omega arith
  add_pcb_to_susp_ready-processes (some p) =
      omega (arith, occurrences-append pid k.susp_ready_list (changed clock k p susp_ready ∷ []))
