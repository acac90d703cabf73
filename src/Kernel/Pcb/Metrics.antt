-- ===== src/Kernel/Pcb/Metrics.antt =====
-- The metrics of kernel/src/repository/pcb/pcb.c account for the time of a process.
use tpsoaprobado.Base.{ℕ, ◌+◌, ◌-◌, ◌^◌, ◌≤◌, ◌<◌, ◌≡◌, Option, List, arith}
use tpsoaprobado.Kernel.Pcb.{
  ProcessState, new, ready, exec, blocked, susp_blocked, susp_ready, exit_l, StateMetrics,
  TimeMetrics, Pcb, pcb_create, total_time_ms, add_uint64, add_time, count_state, pcb_change_state,
}

-- All the time that is on the books.
abbrev pub total_time : TimeMetrics → ℕ
total_time m =
    m.new_time_ms + m.ready_time_ms + m.exec_time_ms + m.blocked_time_ms + m.susp_blocked_time_ms
    + m.susp_ready_time_ms + m.exit_time_ms

abbrev pub total_count : StateMetrics → ℕ
total_count m =
    m.new_count + m.ready_count + m.exec_count + m.blocked_count + m.susp_blocked_count
    + m.susp_ready_count + m.exit_count

total_time_ms-elapsed :
    (now start : ℕ) → start ≤ now → now < 2 ^ 64 → total_time_ms now start ≡ now - start
total_time_ms-elapsed now start le lt = omega arith

add_uint64-plain : (a b : ℕ) → a + b < 2 ^ 64 → add_uint64 a b ≡ a + b
add_uint64-plain a b h = omega arith

add_time-total :
    (s : ProcessState) (t : ℕ) (m : TimeMetrics)
    → total_time m + t < 2 ^ 64
    → total_time (add_time s t m) ≡ total_time m + t
unfolding add_time
add_time-total new t m h = omega arith
add_time-total ready t m h = omega arith
add_time-total exec t m h = omega arith
add_time-total blocked t m h = omega arith
add_time-total susp_blocked t m h = omega arith
add_time-total susp_ready t m h = omega arith
add_time-total exit_l t m h = omega arith

count_state-total :
    (s : ProcessState) (m : StateMetrics)
    → total_count m + 1 < 2 ^ 32
    → total_count (count_state s m) ≡ total_count m + 1
unfolding count_state
count_state-total new m h = omega arith
count_state-total ready m h = omega arith
count_state-total exec m h = omega arith
count_state-total blocked m h = omega arith
count_state-total susp_blocked m h = omega arith
count_state-total susp_ready m h = omega arith
count_state-total exit_l m h = omega arith

-- A block since `created` whose clock readings never went back: the times on the books and the time
-- `lost` between two readings of the clock are the time from its creation to the start of its
-- present state.
pub record IsAccounted (created lost : ℕ) (p : Pcb) : Type 0 where
  pub times : created + lost + total_time p.mt ≡ p.state_start_time_ms

pub pcb_create-IsAccounted :
    (now estimate pid pc size : ℕ) (file : Option (List ℕ))
    → IsAccounted now 0 (pcb_create now estimate pid pc size file)
unfolding pcb_create
pcb_create-IsAccounted now estimate pid pc size file = record { times = omega arith }

-- If the times on the books of a process, with what was lost so far, are the time from its creation
-- to the start of its state, this is so after a change of state, which loses just the time between
-- its first reading of the clock and its second; and it adds one to the total of the state counts.
-- (The clock does not go back, the first reading is below 2 ^ 64, and the total of the counts, plus
-- one, is below 2 ^ 32.)
pub pcb_change_state-IsAccounted :
    (created lost now later : ℕ) (p : Pcb) (s : ProcessState)
    → IsAccounted created lost p
    → p.state_start_time_ms ≤ now
    → now ≤ later
    → now < 2 ^ 64
    → total_count p.me + 1 < 2 ^ 32
    → IsAccounted created (lost + (later - now)) (pcb_change_state now later p s)
      × (total_count (pcb_change_state now later p s).me ≡ total_count p.me + 1)
unfolding pcb_change_state
pcb_change_state-IsAccounted created lost now later p s h le forward lt room =
    let elapsed = total_time_ms now p.state_start_time_ms in
    let same = total_time_ms-elapsed now p.state_start_time_ms le lt in
    (
      record {
        times = omega (
          arith,
          h.times,
          same,
          add_time-total p.current_state elapsed p.mt (omega (arith, h.times, same)),
        );
      },
      count_state-total s p.me room,
    )
