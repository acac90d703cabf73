-- ===== src/Cpu/Tlb.antt =====
-- The translation lookaside buffer of cpu/src/mmu.c: `tlb_find_entry` and `tlb_add_entry`.
pub mod Bounds
pub mod Lookup
use tpsoaprobado.Base.{
  ℕ, zero, suc, ◌+◌, ◌-◌, ◌%◌, ◌^◌, Bool, true, false, ◌==◌, ◌&&◌, Option, none, some, List, [],
  ◌∷◌, ◌++◌, length, set, ltb, if◌then◌else◌,
}

-- `TLBEntry`.
pub record TlbEntry : Type 0 where
  pub page : ℕ
  pub pid : ℕ
  pub frame : ℕ
  pub lru_timestamp : ℕ

pub data TlbReplacementAlgorithm : Type 0 where
  tlb_algo_fifo : TlbReplacementAlgorithm
  tlb_algo_lru : TlbReplacementAlgorithm

-- `TLBConfig`.
pub record TlbConfig : Type 0 where
  pub entry_count : ℕ
  pub replacement_algo : TlbReplacementAlgorithm

-- `g_tlb`, `g_tlb_fifo_pointer` and `g_lru_timestamp_counter`.
pub record Tlb : Type 0 where
  pub tlb : List TlbEntry
  pub fifo_pointer : ℕ
  pub timestamp_counter : ℕ

-- The buffer when the module starts.
abbrev pub empty_tlb : Tlb
empty_tlb = record { tlb = []; fifo_pointer = 0; timestamp_counter = 0 }

-- The counter is a `uint64_t`.
abbrev pub next_timestamp : ℕ → ℕ
next_timestamp now = (now + 1) % 2 ^ 64

abbrev pub is_page : ℕ → ℕ → TlbEntry → Bool
is_page page_number pid e = (e.page == page_number) && (e.pid == pid)

-- `list_find`: the first entry that passes.
unfoldable pub find_entry : (TlbEntry → Bool) → List TlbEntry → Option TlbEntry
find_entry test [] = none
find_entry test (e ∷ es) = if test e then some e else find_entry test es

abbrev pub stamp : ℕ → TlbEntry → TlbEntry
stamp now e = record { page = e.page; pid = e.pid; frame = e.frame; lru_timestamp = now }

-- The write through the pointer that `list_find` gives.
unfoldable pub touch : (TlbEntry → Bool) → ℕ → List TlbEntry → List TlbEntry
touch test now [] = []
touch test now (e ∷ es) = if test e then stamp now e ∷ es else e ∷ touch test now es

-- The end of `tlb_find_entry`, by what the list has and the policy.
abbrev pub found_entry :
    Option TlbEntry → TlbReplacementAlgorithm → Tlb → (TlbEntry → Bool) → Option TlbEntry × Tlb
found_entry none algo s test = (none, s)
found_entry (some e) tlb_algo_fifo s test = (some e, s)
found_entry (some e) tlb_algo_lru s test = (
  some (stamp s.timestamp_counter e),
  record {
    tlb = touch test s.timestamp_counter s.tlb;
    fifo_pointer = s.fifo_pointer;
    timestamp_counter = next_timestamp s.timestamp_counter;
  },
)

unfoldable pub tlb_find_entry : TlbConfig → ℕ → ℕ → Tlb → Option TlbEntry × Tlb
unfolding find_entry touch
tlb_find_entry config page_number pid s =
    if config.entry_count == 0
    then (none, s)
    else found_entry (find_entry (is_page page_number pid) s.tlb) config.replacement_algo s
        (is_page page_number pid)

-- The search for the victim of LRU: `i` is the index, `min_ts` and `victim` the best so far.
unfoldable pub lru_victim : List TlbEntry → ℕ → ℕ → Option ℕ → Option ℕ
lru_victim [] i min_ts victim = victim
lru_victim (e ∷ es) i min_ts victim =
    if ltb e.lru_timestamp min_ts
    then lru_victim es (suc i) e.lru_timestamp (some i)
    else lru_victim es (suc i) min_ts victim

-- `list_replace_and_destroy_element`. No entry has index -1.
abbrev pub replace_at : Option ℕ → TlbEntry → List TlbEntry → List TlbEntry
replace_at none e es = es
replace_at (some i) e es = set es i e

-- The replacement of a full buffer.
abbrev pub replace_victim : TlbReplacementAlgorithm → ℕ → TlbEntry → Tlb → Tlb
replace_victim tlb_algo_fifo count e s = record {
  tlb = replace_at (some s.fifo_pointer) e s.tlb;
  fifo_pointer = (s.fifo_pointer + 1) % count;
  timestamp_counter = next_timestamp s.timestamp_counter;
}
replace_victim tlb_algo_lru count e s = record {
  tlb = replace_at (lru_victim s.tlb 0 (2 ^ 64 - 1) none) e s.tlb;
  fifo_pointer = s.fifo_pointer;
  timestamp_counter = next_timestamp s.timestamp_counter;
}

abbrev pub append_entry : TlbEntry → Tlb → Tlb
append_entry e s = record {
  tlb = s.tlb ++ e ∷ [];
  fifo_pointer = s.fifo_pointer;
  timestamp_counter = next_timestamp s.timestamp_counter;
}

abbrev pub new_entry : ℕ → ℕ → ℕ → ℕ → TlbEntry
new_entry page_number frame_number pid now = record {
  page = page_number;
  pid = pid;
  frame = frame_number;
  lru_timestamp = now;
}

unfoldable pub tlb_add_entry : TlbConfig → ℕ → ℕ → ℕ → Tlb → Tlb
unfolding lru_victim
tlb_add_entry config page_number frame_number pid s =
    let e = new_entry page_number frame_number pid s.timestamp_counter in
    if config.entry_count == 0
    then s
    else if ltb (length s.tlb) config.entry_count
    then append_entry e s
    else replace_victim config.replacement_algo config.entry_count e s

-- The flush of `mmu_process_cleanup`. The pointer and the counter stay.
unfoldable pub tlb_flush : TlbConfig → Tlb → Tlb
tlb_flush config s =
    if config.entry_count == 0
    then s
    else record { tlb = []; fifo_pointer = s.fifo_pointer; timestamp_counter = s.timestamp_counter }
