-- ===== src/Kernel/Scheduler.antt =====
-- The schedulers of the kernel: kernel/src/kernel_logic/scheduler/long_scheduler.c and
-- medium_scheduler.c, the choice of the next process in algorithms, and the end of an I/O request.
pub mod Steps
pub mod Conservation
pub mod Suspending
use mathlib.Core.Option
use tpsoaprobado.Base.{
  ℕ, zero, suc, ◌+◌, ◌*◌, Bool, true, false, ◌==◌, ◌||◌, Option, none, some, List, [], ◌∷◌, ◌++◌,
  length, leb, ltb, if◌then◌else◌,
}
use tpsoaprobado.Kernel.Pcb.{Pcb, total_time_ms, pcb_create}
use tpsoaprobado.Kernel.Devices.{
  IoConnection, Devices, Operation, find_io_connection_by_socket, set_free, process_pending_io,
}
use tpsoaprobado.Kernel.Lists.{
  Kernel, find_pcb, first_pcb, remove_pcb_from_new, remove_pcb_from_blocked,
  remove_pcb_from_susp_blocked, remove_pcb_from_susp_ready, add_pcb_to_new, add_pcb_to_ready,
  add_pcb_to_blocked, add_pcb_to_susp_blocked, add_pcb_to_susp_ready,
}

-- `PLANIFICATION_ALGORITHM`.
pub data PlanificationAlgorithm : Type 0 where
  fifo : PlanificationAlgorithm
  sjf : PlanificationAlgorithm
  pmcp : PlanificationAlgorithm

-- `compare_process_size`.
abbrev pub compare_process_size : Pcb → Pcb → Bool
compare_process_size a b = leb a.size b.size

-- What is asked of the memory module.
pub data Request : Type 0 where
  swap_in : ℕ → Request
  init_process : ℕ → ℕ → Option (List ℕ) → Request
  swap_out : ℕ → Request

-- How that ends. Without a connection or a package there is no confirmation.
pub data Answer : Type 0 where
  no_connection : Answer
  no_package : Answer
  confirmation : Bool → Answer

abbrev pub is_success : Answer → Bool
is_success no_connection = false
is_success no_package = false
is_success (confirmation success) = success

-- The kernel and the requests that it made, the last one first.
pub record System : Type 0 where
  pub kernel : Kernel
  pub asked : List Request

-- The configuration and what is outside the kernel: `list_sort` of the commons library, the clock,
-- the outcome of a connection to the memory, and its answer to a request after the earlier ones.
-- The long-term scheduler reads a confirmation without a test that there is one: `confirms` is what
-- it reads.
pub record World : Type 0 where
  pub list_sort : (Pcb → Pcb → Bool) → List Pcb → List Pcb
  pub clock : ℕ → ℕ
  pub connects : List Request → Bool
  pub answer : List Request → Request → Answer
  pub confirms : List Request → Request → Bool
  pub long_term_algorithm : PlanificationAlgorithm
  pub sleep_time : ℕ

abbrev pub with_request : Request → System → System
with_request r s = record { kernel = s.kernel; asked = r ∷ s.asked }

abbrev pub with_kernel : System → Kernel → System
with_kernel s k = record { kernel = k; asked = s.asked }

-- How `run_medium_scheduler` ends: with nothing to do, with a process that goes back to BLOCKED, or
-- on to the long-term scheduler.
pub data Suspension : Type 0 where
  kept : System → Suspension
  reverted : System → Suspension
  suspended : System → Suspension

module _ (world : World) where
  open world use {list_sort, clock, connects, answer, confirms, long_term_algorithm, sleep_time}

  abbrev pub sort_by : PlanificationAlgorithm → List Pcb → List Pcb
  sort_by fifo ps = ps
  sort_by sjf ps = ps
  sort_by pmcp ps = list_sort compare_process_size ps

  -- `get_next_process_to_initialize_from_susp_ready` and `..._from_new` sort the list and look at
  -- its first element.
  unfoldable pub sort_susp_ready : Kernel → Kernel
  sort_susp_ready k = record k { susp_ready_list = sort_by long_term_algorithm k.susp_ready_list }

  unfoldable pub sort_new : Kernel → Kernel
  sort_new k = record k { new_list = sort_by long_term_algorithm k.new_list }

  -- A process that the memory took back goes to READY.
  unfoldable pub resume : ℕ → Kernel → Kernel
  unfolding remove_pcb_from_susp_ready add_pcb_to_ready
  resume pid k = let (p, k₁) = remove_pcb_from_susp_ready pid k in add_pcb_to_ready clock p k₁

  unfoldable pub admit : ℕ → Kernel → Kernel
  unfolding remove_pcb_from_new add_pcb_to_ready
  admit pid k = let (p, k₁) = remove_pcb_from_new pid k in add_pcb_to_ready clock p k₁

  -- One turn of a loop of the long-term scheduler: no process, a refusal, or a process that moves.
  abbrev pub turn :
      Option Pcb
      → (Pcb → Request)
      → (ℕ → Kernel → Kernel)
      → (System → Option (Bool × System))
      → Bool
      → System
      → Option (Bool × System)
  turn none request move next moved s = some (moved, s)
  turn (some p) request move next moved s =
      let s₁ = with_request (request p) s in
      let rest = next (with_kernel s₁ (move p.pid s.kernel)) in
      if confirms s.asked (request p) then rest else some (moved, s₁)

  -- The loop over SUSP_READY, on fuel. The Boolean is `processes_initialized`.
  unfoldable pub resume_loop : ℕ → Bool → System → Option (Bool × System)
  unfolding sort_susp_ready resume
  resume_loop zero moved s = none
  resume_loop (suc fuel) moved s =
      let k = sort_susp_ready s.kernel in
      turn (first_pcb k.susp_ready_list) (λ p. swap_in p.pid) resume (resume_loop fuel true) moved
        (with_kernel s k)

  -- The loop over NEW, on fuel.
  unfoldable pub admit_loop : ℕ → Bool → System → Option (Bool × System)
  unfolding sort_new admit
  admit_loop zero moved s = none
  admit_loop (suc fuel) moved s =
      let k = sort_new s.kernel in
      turn (first_pcb k.new_list) (λ p. init_process p.pid p.size p.pseudocode_file) admit
        (admit_loop fuel true) moved (with_kernel s k)

  abbrev pub then_admit : ℕ → Option (Bool × System) → Option (Bool × System)
  then_admit fuel none = none
  then_admit fuel (some (moved, s)) = admit_loop fuel moved s

  -- `run_long_scheduler`: whether a process moved. `none`: out of fuel.
  unfoldable pub run_long_scheduler : System → Option (Bool × System)
  unfolding resume_loop admit_loop
  run_long_scheduler s =
      if connects s.asked
      then then_admit (length s.kernel.new_list + 1)
          (resume_loop (length s.kernel.susp_ready_list + 1) false s)
      else some (false, s)

  -- BLOCKED to SUSP_BLOCKED, and back.
  unfoldable pub suspend : ℕ → Kernel → Option Pcb × Kernel
  unfolding remove_pcb_from_blocked add_pcb_to_susp_blocked
  suspend pid k =
      let (p, k₁) = remove_pcb_from_blocked pid k in (p, add_pcb_to_susp_blocked clock p k₁)

  unfoldable pub unsuspend : ℕ → Kernel → Kernel
  unfolding remove_pcb_from_susp_blocked add_pcb_to_blocked
  unsuspend pid k =
      let (p, k₁) = remove_pcb_from_susp_blocked pid k in add_pcb_to_blocked clock p k₁

  abbrev pub swap_answer : ℕ → Answer → System → Suspension
  swap_answer pid outcome s =
      if is_success outcome then suspended s else reverted (with_kernel s (unsuspend pid s.kernel))

  abbrev pub swap_if_sized : ℕ → Option Pcb → System → Suspension
  swap_if_sized pid none s = suspended s
  swap_if_sized pid (some p) s =
      if p.size == 0
      then suspended s
      else swap_answer pid (answer s.asked (swap_out pid)) (with_request (swap_out pid) s)

  abbrev pub suspend_if_due : ℕ → Option Pcb → System → Suspension
  suspend_if_due pid none s = kept s
  suspend_if_due pid (some p) s =
      let k = record s.kernel { ticks = s.kernel.ticks + 1 } in
      let (moved, k₁) = suspend pid k in
      if ltb (total_time_ms (clock s.kernel.ticks) p.state_start_time_ms) sleep_time
      then kept (with_kernel s k)
      else swap_if_sized pid moved (with_kernel s k₁)

  -- `run_medium_scheduler` from the end of its sleep to its call of the long-term scheduler.
  -- Nothing else happens between its steps.
  unfoldable pub suspend_process : ℕ → System → Suspension
  unfolding find_pcb suspend unsuspend
  suspend_process pid s = suspend_if_due pid (find_pcb pid s.kernel.blocked_list) s

  -- The lists in `io_completion`: BLOCKED to READY, or SUSP_BLOCKED to SUSP_READY.
  abbrev pub complete_suspended : Option Pcb × Kernel → Kernel
  complete_suspended (p, k) = add_pcb_to_susp_ready clock p k

  abbrev pub complete : ℕ → Option Pcb × Kernel → Kernel
  complete pid (none, k) = complete_suspended (remove_pcb_from_susp_blocked pid k)
  complete pid (some p, k) = add_pcb_to_ready clock (some p) k

  -- The rest of `io_completion` for the connection of the socket: the device is freed, and gets the
  -- next request of its queue.
  abbrev pub completed :
      (ℕ → Bool)
      → ℕ
      → List ℕ
      → ℕ
      → Option IoConnection
      → Kernel
      → Devices
      → Kernel × Devices × List Operation
  completed sends socket name pid none k d = (k, d, [])
  completed sends socket name pid (some c) k d =
      let k' = complete pid (remove_pcb_from_blocked pid k) in
      let freed = record d { connections = set_free socket d.connections } in
      let (found, d', sent) = process_pending_io sends socket name k' freed in (k', d', sent)

  -- `io_completion`, up to the schedulers that it starts. `sends` tells whether an operation reaches
  -- its socket.
  unfoldable pub io_completion :
      (ℕ → Bool) → ℕ → List ℕ → ℕ → Kernel → Devices → Kernel × Devices × List Operation
  unfolding remove_pcb_from_blocked remove_pcb_from_susp_blocked add_pcb_to_ready
      add_pcb_to_susp_ready find_io_connection_by_socket set_free process_pending_io
  io_completion sends socket name pid k d =
      completed sends socket name pid (find_io_connection_by_socket socket d.connections) k d

  -- `initialize_root_process` up to its call of the long-term scheduler: the second process with an
  -- id in NEW is dropped.
  unfoldable pub enter_new : Pcb → Kernel → Kernel
  unfolding find_pcb add_pcb_to_new
  enter_new p k = elim (find_pcb p.pid k.new_list) [
    | none ↦ add_pcb_to_new clock (some p) k
    | some q ↦ k
  ]
