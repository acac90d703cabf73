-- ===== src/Cpu/Cache.antt =====
-- The page cache of cpu/src/mmu.c: its entries, the search, and the two clocks that choose a
-- victim.
pub mod Writeback
pub mod Clock
pub mod ClockM
pub mod Cleanup
pub mod Loading
pub mod Finding
pub mod Selection
pub mod Pointer
use tpsoaprobado.Base.{
  ℕ, zero, suc, ◌+◌, ◌%◌, Bool, true, false, not, ◌&&◌, ◌==◌, Option, none, some, List, [], ◌∷◌,
  length, get_elem?, set, replicate, if◌then◌else◌,
}

-- `CacheEntry`. The bytes of the page stand in `content`. Pages and the bounds of the modified
-- region are not negative.
pub record CacheEntry : Type 0 where
  pub is_valid : Bool
  pub page : ℕ
  pub pid : ℕ
  pub content : List ℕ
  pub use_bit : Bool
  pub modified_bit : Bool
  pub modified_start : ℕ
  pub modified_end : ℕ

pub data CacheReplacementAlgorithm : Type 0 where
  cache_algo_clock : CacheReplacementAlgorithm
  cache_algo_clock_m : CacheReplacementAlgorithm

-- `CacheConfig`, less the delay.
pub record CacheConfig : Type 0 where
  pub entry_count : ℕ
  pub replacement_algo : CacheReplacementAlgorithm

-- `g_cache` and `g_cache_clock_pointer`.
pub record Cache : Type 0 where
  pub cache : List CacheEntry
  pub clock_pointer : ℕ

-- The cache part of `mmu_init`. `page`, `pid` and the two bits are what `malloc` leaves.
unfoldable pub init_cache : ℕ → ℕ → ℕ → ℕ → Bool → Bool → Cache
init_cache entry_count page_size page pid use_bit modified_bit = record {
  cache = replicate entry_count (record {
    is_valid = false;
    page = page;
    pid = pid;
    content = replicate page_size 0;
    use_bit = use_bit;
    modified_bit = modified_bit;
    modified_start = 0;
    modified_end = 0;
  });
  clock_pointer = 0;
}

abbrev pub with_use : Bool → CacheEntry → CacheEntry
with_use used e = record {
  is_valid = e.is_valid;
  page = e.page;
  pid = e.pid;
  content = e.content;
  use_bit = used;
  modified_bit = e.modified_bit;
  modified_start = e.modified_start;
  modified_end = e.modified_end;
}

-- `_is_frame`: the process is not looked at.
abbrev pub is_frame : ℕ → CacheEntry → Bool
is_frame page_number e = e.is_valid && (e.page == page_number)

-- `cache_find_entry` on the entries: the index of the first one, whose use bit is set.
unfoldable pub find_and_use : ℕ → List CacheEntry → ℕ → Option ℕ × List CacheEntry
find_and_use page_number [] i = (none, [])
find_and_use page_number (e ∷ es) i =
    let (found, es') = find_and_use page_number es (suc i) in
    if is_frame page_number e then (some i, with_use true e ∷ es) else (found, e ∷ es')

unfoldable pub cache_find_entry : ℕ → Cache → Option ℕ × Cache
unfolding find_and_use
cache_find_entry page_number c =
    let (found, es) = find_and_use page_number c.cache 0 in
    (found, record { cache = es; clock_pointer = c.clock_pointer })

-- The pointer goes to the next slot.
abbrev pub advance : ℕ → Cache → Cache
advance count c = record { cache = c.cache; clock_pointer = (c.clock_pointer + 1) % count }

abbrev pub current : Cache → Option CacheEntry
current c = get_elem? c.cache c.clock_pointer

abbrev pub clear_use : Option CacheEntry → Cache → Cache
clear_use none c = c
clear_use (some e) c = record {
  cache = set c.cache c.clock_pointer (with_use false e);
  clock_pointer = c.clock_pointer;
}

-- One turn of the loop of `cache_find_victim_clock`; `rest` are the turns after it. Without an
-- entry at the pointer the code fails.
abbrev pub clock_turn : ℕ → Option CacheEntry → Option (ℕ × Cache) → Cache → Option (ℕ × Cache)
clock_turn count none rest c = none
clock_turn count (some e) rest c =
    if not e.is_valid
    then some (c.clock_pointer, advance count c)
    else if e.use_bit
    then rest
    else some (c.clock_pointer, advance count c)

-- `cache_find_victim_clock`, on fuel.
unfoldable pub cache_find_victim_clock : ℕ → ℕ → Cache → Option (ℕ × Cache)
cache_find_victim_clock count zero c = none
cache_find_victim_clock count (suc fuel) c =
    clock_turn count (current c)
      (cache_find_victim_clock count fuel (advance count (clear_use (current c) c))) c

-- How a pass over the slots ends.
pub data Pass : Type 0 where
  found_victim : ℕ → Cache → Pass
  no_victim : Cache → Pass
  no_entry : Pass

abbrev pub first_turn : ℕ → Option CacheEntry → Pass → Cache → Pass
first_turn count none rest c = no_entry
first_turn count (some e) rest c =
    if not e.is_valid
    then found_victim c.clock_pointer (advance count c)
    else if not e.use_bit && not e.modified_bit
    then found_victim c.clock_pointer (advance count c)
    else rest

-- The first pass of `cache_find_victim_clock_m`, with the turns that are left.
unfoldable pub first_pass : ℕ → ℕ → Cache → Pass
first_pass count zero c = no_victim c
first_pass count (suc turns) c =
    first_turn count (current c) (first_pass count turns (advance count c)) c

abbrev pub second_turn : ℕ → Option CacheEntry → Pass → Pass → Cache → Pass
second_turn count none cleared kept c = no_entry
second_turn count (some e) cleared kept c =
    if e.is_valid
    then if not e.use_bit && e.modified_bit
      then found_victim c.clock_pointer (advance count c)
      else cleared
    else kept

-- The second pass.
unfoldable pub second_pass : ℕ → ℕ → Cache → Pass
second_pass count zero c = no_victim c
second_pass count (suc turns) c =
    second_turn count (current c)
      (second_pass count turns (advance count (clear_use (current c) c)))
      (second_pass count turns (advance count c)) c

abbrev pub after_pass : Pass → (Cache → Option (ℕ × Cache)) → Option (ℕ × Cache)
after_pass (found_victim i c) next = some (i, c)
after_pass (no_victim c) next = next c
after_pass no_entry next = none

-- `cache_find_victim_clock_m`, on fuel for its rounds.
unfoldable pub cache_find_victim_clock_m : ℕ → ℕ → Cache → Option (ℕ × Cache)
unfolding first_pass second_pass
cache_find_victim_clock_m count zero c = none
cache_find_victim_clock_m count (suc fuel) c =
    after_pass (first_pass count count c)
      (λ c₁. after_pass (second_pass count count c₁) (cache_find_victim_clock_m count fuel))
