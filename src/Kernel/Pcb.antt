-- ===== src/Kernel/Pcb.antt =====
-- Process control blocks: kernel/src/repository/pcb/pcb.c and pcb.h.
pub mod Metrics
use tpsoaprobado.Base.{ℕ, ◌+◌, ◌-◌, ◌%◌, ◌^◌, Bool, ◌==◌, Option, none, some, List, if◌then◌else◌}

-- `PROCESS_STATE`, less its invalid value, which no process has.
pub data ProcessState : Type 0 where
  new : ProcessState
  ready : ProcessState
  exec : ProcessState
  blocked : ProcessState
  susp_blocked : ProcessState
  susp_ready : ProcessState
  exit_l : ProcessState

-- `t_state_metrics`.
pub record StateMetrics : Type 0 where
  pub new_count : ℕ
  pub ready_count : ℕ
  pub exec_count : ℕ
  pub blocked_count : ℕ
  pub susp_blocked_count : ℕ
  pub susp_ready_count : ℕ
  pub exit_count : ℕ

-- `t_time_metrics`.
pub record TimeMetrics : Type 0 where
  pub last_estimated_cpu_burst_ms : ℕ
  pub last_cpu_burst_ms : ℕ
  pub new_time_ms : ℕ
  pub ready_time_ms : ℕ
  pub exec_time_ms : ℕ
  pub blocked_time_ms : ℕ
  pub susp_blocked_time_ms : ℕ
  pub susp_ready_time_ms : ℕ
  pub exit_time_ms : ℕ

-- `t_pcb`.
pub record Pcb : Type 0 where
  pub pc : ℕ
  pub pid : ℕ
  pub size : ℕ
  pub pseudocode_file : Option (List ℕ)
  pub current_state : ProcessState
  pub state_start_time_ms : ℕ
  pub me : StateMetrics
  pub mt : TimeMetrics

-- `pcb_create` at a time, with the configured estimate.
unfoldable pub pcb_create : ℕ → ℕ → ℕ → ℕ → ℕ → Option (List ℕ) → Pcb
pcb_create now default_estimated_cpu_burst_ms pid pc size pseudocode_file = record {
  pc = pc;
  pid = pid;
  size = size;
  pseudocode_file = pseudocode_file;
  current_state = new;
  state_start_time_ms = now;
  me = record {
    new_count = 1;
    ready_count = 0;
    exec_count = 0;
    blocked_count = 0;
    susp_blocked_count = 0;
    susp_ready_count = 0;
    exit_count = 0;
  };
  mt = record {
    last_estimated_cpu_burst_ms = 0;
    last_cpu_burst_ms = default_estimated_cpu_burst_ms;
    new_time_ms = 0;
    ready_time_ms = 0;
    exec_time_ms = 0;
    blocked_time_ms = 0;
    susp_blocked_time_ms = 0;
    susp_ready_time_ms = 0;
    exit_time_ms = 0;
  };
}

-- `total_time_ms`, in uint64_t.
abbrev pub total_time_ms : ℕ → ℕ → ℕ
total_time_ms now start_time_ms = (now + 2 ^ 64 - start_time_ms) % 2 ^ 64

abbrev pub add_uint64 : ℕ → ℕ → ℕ
add_uint64 a b = (a + b) % 2 ^ 64

-- `++` on an int32_t, as a bit pattern.
abbrev pub increment : ℕ → ℕ
increment a = (a + 1) % 2 ^ 32

-- The first switch of `pcb_change_state`.
unfoldable pub add_time : ProcessState → ℕ → TimeMetrics → TimeMetrics
add_time new t m = record m { new_time_ms = add_uint64 m.new_time_ms t }
add_time ready t m = record m { ready_time_ms = add_uint64 m.ready_time_ms t }
add_time exec t m = record m { exec_time_ms = add_uint64 m.exec_time_ms t }
add_time blocked t m = record m { blocked_time_ms = add_uint64 m.blocked_time_ms t }
add_time susp_blocked t m = record m { susp_blocked_time_ms = add_uint64 m.susp_blocked_time_ms t }
add_time susp_ready t m = record m { susp_ready_time_ms = add_uint64 m.susp_ready_time_ms t }
add_time exit_l t m = record m { exit_time_ms = add_uint64 m.exit_time_ms t }

-- The second switch.
unfoldable pub count_state : ProcessState → StateMetrics → StateMetrics
count_state new m = record m { new_count = increment m.new_count }
count_state ready m = record m { ready_count = increment m.ready_count }
count_state exec m = record m { exec_count = increment m.exec_count }
count_state blocked m = record m { blocked_count = increment m.blocked_count }
count_state susp_blocked m = record m { susp_blocked_count = increment m.susp_blocked_count }
count_state susp_ready m = record m { susp_ready_count = increment m.susp_ready_count }
count_state exit_l m = record m { exit_count = increment m.exit_count }

-- `pcb_change_state`: `now` is the first reading of the clock, `later` the second.
unfoldable pub pcb_change_state : ℕ → ℕ → Pcb → ProcessState → Pcb
unfolding add_time count_state
pcb_change_state now later p new_state = record p {
  current_state = new_state;
  state_start_time_ms = later;
  me = count_state new_state p.me;
  mt = add_time p.current_state (total_time_ms now p.state_start_time_ms) p.mt;
}
