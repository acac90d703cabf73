-- ===== src/Cpu/Cache/Writeback.antt =====
-- What the page cache of cpu/src/mmu.c exchanges with the memory: `select_victim_entry`,
-- `cache_load_page` and `mmu_process_cleanup`. The requests that are sent are a list in their
-- order.
use tpsoaprobado.Base.{
  int32_div, int32_mod, ℕ, ◌+◌, ◌-◌, ◌*◌, ◌%◌, ◌^◌, Bool, true, false, ◌&&◌, ◌==◌, Option, none,
  some, List, [], ◌∷◌, ◌++◌, get_elem?, set, take, drop, replicate, ltb, if◌then◌else◌,
}
use tpsoaprobado.Cpu.Tlb.{TlbConfig, Tlb, tlb_flush}
use tpsoaprobado.Cpu.Mmu.{mmu_translate_address, mmu_translate_address_with_page_number}
use tpsoaprobado.Cpu.Cache.{
  CacheEntry, CacheConfig, Cache, CacheReplacementAlgorithm, cache_algo_clock, cache_algo_clock_m,
  cache_find_victim_clock, cache_find_victim_clock_m,
}

-- `t_memory_write_request`: where to, and the bytes.
abbrev pub WriteRequest : Type 0
WriteRequest = ℕ × List ℕ

-- The write of the modified region, if there is one, for a page at an address.
unfoldable pub modified_region : ℕ → CacheEntry → List WriteRequest
modified_region physic_addr e =
    if ltb e.modified_start e.modified_end
    then (
      (physic_addr + e.modified_start) % 2 ^ 32,
      take (e.modified_end - e.modified_start) (drop e.modified_start e.content),
    )
      ∷ []
    else []

abbrev pub is_dirty : CacheEntry → Bool
is_dirty e = e.is_valid && e.modified_bit

abbrev pub invalidated : CacheEntry → CacheEntry
invalidated e = record {
  is_valid = false;
  page = e.page;
  pid = e.pid;
  content = e.content;
  use_bit = e.use_bit;
  modified_bit = false;
  modified_start = 0;
  modified_end = 0;
}

abbrev pub region_at : CacheEntry → ℕ × Tlb → List WriteRequest × Tlb
region_at e (physic_dir, s) = (modified_region physic_dir e, s)

-- `_writeback_if_dirty` of `mmu_process_cleanup`, less the reset of the entry.
unfoldable pub writeback_if_dirty :
    TlbConfig → ℕ → (ℕ → ℕ → ℕ) → CacheEntry → Tlb → List WriteRequest × Tlb
unfolding modified_region
writeback_if_dirty config page_size walk e s =
    if is_dirty e
    then region_at e (mmu_translate_address_with_page_number config page_size walk e.page e.pid s)
    else ([], s)

-- The iteration over the cache.
unfoldable pub writeback_all :
    TlbConfig → ℕ → (ℕ → ℕ → ℕ) → List CacheEntry → Tlb → List WriteRequest × List CacheEntry × Tlb
unfolding writeback_if_dirty
writeback_all config page_size walk [] s = ([], [], s)
writeback_all config page_size walk (e ∷ es) s =
    let (first, s₁) = writeback_if_dirty config page_size walk e s in
    let (more, es', s₂) = writeback_all config page_size walk es s₁ in
    (first ++ more, invalidated e ∷ es', s₂)

abbrev pub flushed :
    TlbConfig → ℕ → List WriteRequest × List CacheEntry × Tlb → List WriteRequest × Cache × Tlb
flushed config pointer (writes, es, s) =
    (writes, record { cache = es; clock_pointer = pointer }, tlb_flush config s)

unfoldable pub mmu_process_cleanup :
    TlbConfig → CacheConfig → ℕ → (ℕ → ℕ → ℕ) → Cache → Tlb → List WriteRequest × Cache × Tlb
unfolding writeback_all
mmu_process_cleanup config cache_config page_size walk c s =
    if cache_config.entry_count == 0
    then ([], c, tlb_flush config s)
    else flushed config c.clock_pointer (writeback_all config page_size walk c.cache s)

abbrev pub find_victim : CacheConfig → CacheReplacementAlgorithm → Cache → Option (ℕ × Cache)
find_victim config cache_algo_clock c =
    cache_find_victim_clock config.entry_count (config.entry_count + 1) c
find_victim config cache_algo_clock_m c =
    cache_find_victim_clock_m config.entry_count (config.entry_count + 1) c

-- A victim that was written back: no content, no region.
abbrev pub blank : ℕ → CacheEntry → CacheEntry
blank page_size e = record {
  is_valid = e.is_valid;
  page = e.page;
  pid = e.pid;
  content = replicate page_size 0;
  use_bit = e.use_bit;
  modified_bit = e.modified_bit;
  modified_start = 0;
  modified_end = 0;
}

-- What `select_victim_entry` leaves: the index of the victim, `none` for NULL, the requests, and
-- the state.
pub record Selection : Type 0 where
  pub victim : Option ℕ
  pub writes : List WriteRequest
  pub cache : Cache
  pub tlb : Tlb

abbrev pub written_back : ℕ → ℕ → CacheEntry → Cache → ℕ × Tlb → Selection
written_back page_size i e c (physic_addr, s) = record {
  victim = some i;
  writes = modified_region physic_addr e;
  cache = record { cache = set c.cache i (blank page_size e); clock_pointer = c.clock_pointer };
  tlb = s;
}

-- With a buffer, the address 0 is taken for a failure.
abbrev pub write_back_or_fail : ℕ → ℕ → CacheEntry → Cache → ℕ × Tlb → Selection
write_back_or_fail page_size i e c (physic_addr, s) =
    if physic_addr == 0
    then record { victim = none; writes = []; cache = c; tlb = s }
    else written_back page_size i e c (physic_addr, s)

abbrev pub take_victim :
    TlbConfig → ℕ → (ℕ → ℕ → ℕ) → Tlb → ℕ → Cache → Option CacheEntry → Option Selection
take_victim config page_size walk s i c none = none
take_victim config page_size walk s i c (some e) =
    if is_dirty e
    then if config.entry_count == 0
      then some (written_back page_size i e c ((walk e.page e.pid * page_size) % 2 ^ 32, s))
      else some (
          write_back_or_fail page_size i e c
            (mmu_translate_address_with_page_number config page_size walk e.page e.pid s))
    else some (record { victim = some i; writes = []; cache = c; tlb = s })

abbrev pub take_found : TlbConfig → ℕ → (ℕ → ℕ → ℕ) → Tlb → Option (ℕ × Cache) → Option Selection
take_found config page_size walk s none = none
take_found config page_size walk s (some (i, c)) =
    take_victim config page_size walk s i c (get_elem? c.cache i)

-- `none`: the clock does not end, or points outside the cache.
unfoldable pub select_victim_entry :
    TlbConfig → CacheConfig → ℕ → (ℕ → ℕ → ℕ) → Cache → Tlb → Option Selection
unfolding modified_region
select_victim_entry config cache_config page_size walk c s =
    take_found config page_size walk s (find_victim cache_config cache_config.replacement_algo c)

-- The page from the memory in the victim's place. `fetch` is `mmu_request_page_read_from_memory`:
-- the bytes of a page from an address on.
abbrev pub loaded_entry : (ℕ → List ℕ) → ℕ → ℕ → ℕ → CacheEntry
loaded_entry fetch page pid physic_dir = record {
  is_valid = true;
  page = page;
  pid = pid;
  content = fetch physic_dir;
  use_bit = true;
  modified_bit = false;
  modified_start = 0;
  modified_end = 0;
}

abbrev pub place_page : (ℕ → List ℕ) → ℕ → ℕ → ℕ → Cache → ℕ × Tlb → Cache × Tlb
place_page fetch page pid victim c (physic_dir, s) = (
  record {
    cache = set c.cache victim (loaded_entry fetch page pid physic_dir);
    clock_pointer = c.clock_pointer;
  },
  s,
)

unfoldable pub cache_load_page :
    TlbConfig → ℕ → (ℕ → ℕ → ℕ) → (ℕ → List ℕ) → ℕ → ℕ → ℕ → Cache → Tlb → Cache × Tlb
cache_load_page config page_size walk fetch logic_dir pid victim c s =
    place_page fetch (int32_div logic_dir page_size) pid victim c (
      if config.entry_count == 0
      then (
        (walk (int32_div logic_dir page_size) pid * page_size + int32_mod logic_dir page_size)
            % 2 ^ 32,
        s,
      )
      else mmu_translate_address config page_size walk logic_dir pid s)
