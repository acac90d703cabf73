-- ===== src/Kernel/Lists/Tagged.antt =====
-- Every process of the kernel is in the list of its state.
use tpsoaprobado.Base.{
  ℕ, ◌≡◌, refl, inl, inr, Option, none, some, List, [], ◌∷◌, All, All-append, Bool-cases, ◌==◌,
}
use tpsoaprobado.Kernel.Pcb.{
  Pcb, ProcessState, new, ready, exec, blocked, susp_blocked, susp_ready, exit_l, pcb_change_state,
}
use tpsoaprobado.Kernel.Lists.{
  Kernel, remove_pcb, changed, remove_pcb_from_new, remove_pcb_from_blocked,
  remove_pcb_from_susp_blocked, remove_pcb_from_susp_ready, add_pcb_to_ready, add_pcb_to_blocked,
  add_pcb_to_susp_blocked, add_pcb_to_susp_ready,
}

abbrev pub InState : ProcessState → Pcb → Type 0
InState s p = p.current_state ≡ s

-- In each list the processes have the state of the list.
unfoldable pub IsTagged : Kernel → Type 0
IsTagged k =
    All (InState new) k.new_list
    × All (InState ready) k.ready_list
    × All (InState exec) k.exec_list
    × All (InState blocked) k.blocked_list
    × All (InState susp_blocked) k.susp_blocked_list
    × All (InState susp_ready) k.susp_ready_list
    × All (InState exit_l) k.exit_list

All-remove_pcb :
    (P : Pcb → Type 0) (target : ℕ) (ps : List Pcb) → All P ps → All P (remove_pcb target ps).1
unfolding remove_pcb
All-remove_pcb P target [] h = tt
All-remove_pcb P target (p ∷ ps) (h, hs) = elim (Bool-cases (p.pid == target)) [
  | inl here ↦ rw here hs
  | inr later ↦ rw later (h, All-remove_pcb P target ps hs)
]

module _ (target : ℕ) (k : Kernel) where
  pub remove_pcb_from_new-IsTagged : IsTagged k → IsTagged (remove_pcb_from_new target k).1
  unfolding remove_pcb_from_new IsTagged
  remove_pcb_from_new-IsTagged (n, r, e, b, sb, sr, x) =
      (All-remove_pcb (InState new) target k.new_list n, r, e, b, sb, sr, x)

  pub remove_pcb_from_blocked-IsTagged : IsTagged k → IsTagged (remove_pcb_from_blocked target k).1
  unfolding remove_pcb_from_blocked IsTagged
  remove_pcb_from_blocked-IsTagged (n, r, e, b, sb, sr, x) =
      (n, r, e, All-remove_pcb (InState blocked) target k.blocked_list b, sb, sr, x)

  pub remove_pcb_from_susp_blocked-IsTagged :
      IsTagged k → IsTagged (remove_pcb_from_susp_blocked target k).1
  unfolding remove_pcb_from_susp_blocked IsTagged
  remove_pcb_from_susp_blocked-IsTagged (n, r, e, b, sb, sr, x) =
      (n, r, e, b, All-remove_pcb (InState susp_blocked) target k.susp_blocked_list sb, sr, x)

  pub remove_pcb_from_susp_ready-IsTagged :
      IsTagged k → IsTagged (remove_pcb_from_susp_ready target k).1
  unfolding remove_pcb_from_susp_ready IsTagged
  remove_pcb_from_susp_ready-IsTagged (n, r, e, b, sb, sr, x) =
      (n, r, e, b, sb, All-remove_pcb (InState susp_ready) target k.susp_ready_list sr, x)

-- Whatever state a process comes from, it takes that of the list that it enters.
module _ (clock : ℕ → ℕ) (k : Kernel) where
  pub add_pcb_to_ready-IsTagged :
      (p : Option Pcb) → IsTagged k → IsTagged (add_pcb_to_ready clock p k)
  unfolding add_pcb_to_ready pcb_change_state IsTagged
  add_pcb_to_ready-IsTagged none h = h
  add_pcb_to_ready-IsTagged (some p) (n, r, e, b, sb, sr, x) = (
    n,
    All-append (InState ready) k.ready_list (changed clock k p ready ∷ []) r (refl, tt),
    e,
    b,
    sb,
    sr,
    x,
  )

  pub add_pcb_to_blocked-IsTagged :
      (p : Option Pcb) → IsTagged k → IsTagged (add_pcb_to_blocked clock p k)
  unfolding add_pcb_to_blocked pcb_change_state IsTagged
  add_pcb_to_blocked-IsTagged none h = h
  add_pcb_to_blocked-IsTagged (some p) (n, r, e, b, sb, sr, x) = (
    n,
    r,
    e,
    All-append (InState blocked) k.blocked_list (changed clock k p blocked ∷ []) b (refl, tt),
    sb,
    sr,
    x,
  )

  pub add_pcb_to_susp_blocked-IsTagged :
      (p : Option Pcb) → IsTagged k → IsTagged (add_pcb_to_susp_blocked clock p k)
  unfolding add_pcb_to_susp_blocked pcb_change_state IsTagged
  add_pcb_to_susp_blocked-IsTagged none h = h
  add_pcb_to_susp_blocked-IsTagged (some p) (n, r, e, b, sb, sr, x) = (
    n,
    r,
    e,
    b,
    All-append (InState susp_blocked) k.susp_blocked_list (changed clock k p susp_blocked ∷ []) sb
        (refl, tt),
    sr,
    x,
  )

  pub add_pcb_to_susp_ready-IsTagged :
      (p : Option Pcb) → IsTagged k → IsTagged (add_pcb_to_susp_ready clock p k)
  unfolding add_pcb_to_susp_ready pcb_change_state IsTagged
  add_pcb_to_susp_ready-IsTagged none h = h
  add_pcb_to_susp_ready-IsTagged (some p) (n, r, e, b, sb, sr, x) = (
    n,
    r,
    e,
    b,
    sb,
    All-append (InState susp_ready) k.susp_ready_list (changed clock k p susp_ready ∷ []) sr
        (refl, tt),
    x,
  )
