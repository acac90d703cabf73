-- ===== src/Kernel/Lists.antt =====
-- The lists of processes of the kernel: kernel/src/repository/process and, for the lists
-- themselves, kernel/src/collections/collections.c. The semaphores of the lists are not part of the
-- state.
pub mod Conserved
pub mod Tagged
use mathlib.Core.Option
use tpsoaprobado.Base.{
  ℕ, zero, suc, ◌+◌, Bool, true, false, ◌==◌, Option, none, some, List, [], ◌∷◌, ◌++◌,
  if◌then◌else◌,
}
use tpsoaprobado.Kernel.Pcb.{
  Pcb, ProcessState, new, ready, exec, blocked, susp_blocked, susp_ready, exit_l, pcb_change_state,
  total_time_ms, TimeMetrics,
}

-- The seven lists, and how often the clock was read.
pub record Kernel : Type 0 where
  pub new_list : List Pcb
  pub ready_list : List Pcb
  pub exec_list : List Pcb
  pub blocked_list : List Pcb
  pub susp_blocked_list : List Pcb
  pub susp_ready_list : List Pcb
  pub exit_list : List Pcb
  pub ticks : ℕ

abbrev pub empty_kernel : Kernel
empty_kernel = record {
  new_list = [];
  ready_list = [];
  exec_list = [];
  blocked_list = [];
  susp_blocked_list = [];
  susp_ready_list = [];
  exit_list = [];
  ticks = 0;
}

-- `list_find` by the process id.
unfoldable pub find_pcb : ℕ → List Pcb → Option Pcb
find_pcb pid [] = none
find_pcb pid (p ∷ ps) = if p.pid == pid then some p else find_pcb pid ps

-- `list_remove_by_condition` by the process id: the first that matches, and the list without it.
unfoldable pub remove_pcb : ℕ → List Pcb → Option Pcb × List Pcb
remove_pcb pid [] = (none, [])
remove_pcb pid (p ∷ ps) =
    let (found, rest) = remove_pcb pid ps in
    if p.pid == pid then (some p, ps) else (found, p ∷ rest)

-- `get_next_pcb_from_…`.
abbrev pub first_pcb : List Pcb → Option Pcb
first_pcb [] = none
first_pcb (p ∷ ps) = some p

-- The removals.
unfoldable pub remove_pcb_from_new : ℕ → Kernel → Option Pcb × Kernel
unfolding remove_pcb
remove_pcb_from_new pid k =
    let (p, ps) = remove_pcb pid k.new_list in (p, record k { new_list = ps })

unfoldable pub remove_pcb_from_ready : ℕ → Kernel → Option Pcb × Kernel
unfolding remove_pcb
remove_pcb_from_ready pid k =
    let (p, ps) = remove_pcb pid k.ready_list in (p, record k { ready_list = ps })

unfoldable pub remove_pcb_from_blocked : ℕ → Kernel → Option Pcb × Kernel
unfolding remove_pcb
remove_pcb_from_blocked pid k =
    let (p, ps) = remove_pcb pid k.blocked_list in (p, record k { blocked_list = ps })

unfoldable pub remove_pcb_from_susp_blocked : ℕ → Kernel → Option Pcb × Kernel
unfolding remove_pcb
remove_pcb_from_susp_blocked pid k =
    let (p, ps) = remove_pcb pid k.susp_blocked_list in (p, record k { susp_blocked_list = ps })

unfoldable pub remove_pcb_from_susp_ready : ℕ → Kernel → Option Pcb × Kernel
unfolding remove_pcb
remove_pcb_from_susp_ready pid k =
    let (p, ps) = remove_pcb pid k.susp_ready_list in (p, record k { susp_ready_list = ps })

-- `pcb_destroy` of what is removed: it is gone.
unfoldable pub remove_pcb_from_exit : ℕ → Kernel → Kernel
unfolding remove_pcb
remove_pcb_from_exit pid k = record k { exit_list = (remove_pcb pid k.exit_list).1 }

abbrev pub with_burst : ℕ → Option Pcb → Option Pcb
with_burst now none = none
with_burst now (some p) =
    some (record p {
      mt = record p.mt { last_cpu_burst_ms = total_time_ms now p.state_start_time_ms };
    })

abbrev pub ticks_for : Option Pcb → ℕ
ticks_for none = 0
ticks_for (some p) = 1

-- `clock n` is the `n`-th reading of `get_current_time_ms`.
module _ (clock : ℕ → ℕ) where
  -- The time that the process ran is kept.
  unfoldable pub remove_pcb_from_exec : ℕ → Kernel → Option Pcb × Kernel
  unfolding remove_pcb
  remove_pcb_from_exec pid k =
      let (p, ps) = remove_pcb pid k.exec_list in
      (with_burst (clock k.ticks) p, record k { exec_list = ps; ticks = k.ticks + ticks_for p })

  -- The change of state, which reads the clock twice.
  abbrev pub changed : Kernel → Pcb → ProcessState → Pcb
  changed k p s = pcb_change_state (clock k.ticks) (clock (k.ticks + 1)) p s

  -- The additions. NULL adds nothing.
  unfoldable pub add_pcb_to_new : Option Pcb → Kernel → Kernel
  add_pcb_to_new none k = k
  add_pcb_to_new (some p) k = record k { new_list = k.new_list ++ p ∷ [] }

  unfoldable pub add_pcb_to_ready : Option Pcb → Kernel → Kernel
  add_pcb_to_ready none k = k
  add_pcb_to_ready (some p) k = record k {
    ready_list = k.ready_list ++ changed k p ready ∷ [];
    ticks = k.ticks + 2;
  }

  unfoldable pub add_pcb_to_exec : Option Pcb → Kernel → Kernel
  add_pcb_to_exec none k = k
  add_pcb_to_exec (some p) k = record k {
    exec_list = k.exec_list ++ changed k p exec ∷ [];
    ticks = k.ticks + 2;
  }

  unfoldable pub add_pcb_to_blocked : Option Pcb → Kernel → Kernel
  add_pcb_to_blocked none k = k
  add_pcb_to_blocked (some p) k = record k {
    blocked_list = k.blocked_list ++ changed k p blocked ∷ [];
    ticks = k.ticks + 2;
  }

  unfoldable pub add_pcb_to_susp_blocked : Option Pcb → Kernel → Kernel
  add_pcb_to_susp_blocked none k = k
  add_pcb_to_susp_blocked (some p) k = record k {
    susp_blocked_list = k.susp_blocked_list ++ changed k p susp_blocked ∷ [];
    ticks = k.ticks + 2;
  }

  unfoldable pub add_pcb_to_susp_ready : Option Pcb → Kernel → Kernel
  add_pcb_to_susp_ready none k = k
  add_pcb_to_susp_ready (some p) k = record k {
    susp_ready_list = k.susp_ready_list ++ changed k p susp_ready ∷ [];
    ticks = k.ticks + 2;
  }

  unfoldable pub add_pcb_to_exit : Option Pcb → Kernel → Kernel
  add_pcb_to_exit none k = k
  add_pcb_to_exit (some p) k = record k {
    exit_list = k.exit_list ++ changed k p exit_l ∷ [];
    ticks = k.ticks + 2;
  }
