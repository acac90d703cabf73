-- ===== src/Tests/PageCache.antt =====
-- A small page cache.
use tpsoaprobado.Base.{
  int32_div, int32_mod, some, List, ℕ, ◌+◌, ◌≡◌, refl, Bool, true, [], ◌∷◌, arith,
}
use tpsoaprobado.Cpu.Tlb.{TlbConfig, tlb_algo_lru, empty_tlb}
use tpsoaprobado.Cpu.Mmu.Translation.{IsValid}
use tpsoaprobado.Cpu.Cache.{
  init_cache, cache_find_entry, CacheEntry, CacheConfig, Cache, cache_algo_clock_m,
  cache_find_victim_clock, cache_find_victim_clock_m,
}
use tpsoaprobado.Cpu.Cache.Clock.{IsClock, Chosen, cache_find_victim_clock-Chosen}
use tpsoaprobado.Cpu.Cache.ClockM.{cache_find_victim_clock_m-Chosen}
use tpsoaprobado.Cpu.Cache.Writeback.{
  Selection, loaded_entry, cache_load_page, mmu_process_cleanup, select_victim_entry,
}
use tpsoaprobado.Cpu.Cache.Loading.{cache_load_page-walk}
use tpsoaprobado.Cpu.Cache.Cleanup.{owed}
use tpsoaprobado.Cpu.Cache.Pointer.{operations-IsClock}
use tpsoaprobado.Cpu.Cache.Selection.{Evicted, select_victim_entry-Evicted}

abbrev entry : ℕ → Bool → Bool → CacheEntry
entry page used dirty = record {
  is_valid = true;
  page = page;
  pid = 1;
  content = page ∷ page ∷ page ∷ [];
  use_bit = used;
  modified_bit = dirty;
  modified_start = 0;
  modified_end = 2;
}

abbrev cache : Cache
cache = record { cache = entry 4 true true ∷ entry 5 true true ∷ []; clock_pointer = 1 }

abbrev cache_config : CacheConfig
cache_config = record { entry_count = 2; replacement_algo = cache_algo_clock_m }

abbrev tlb_config : TlbConfig
tlb_config = record { entry_count = 2; replacement_algo = tlb_algo_lru }

abbrev frame_of_page : ℕ → ℕ → ℕ
frame_of_page page pid = page + 10

cache-IsClock : IsClock 2 cache
cache-IsClock = record { size = refl; pointer = omega arith }

tlb-IsValid : IsValid frame_of_page tlb_config empty_tlb
tlb-IsValid = record { bounded = record { size = omega arith; pointer = omega arith }; sound = tt }

cache_find_victim_clock-Chosen_example : Chosen 2 cache (cache_find_victim_clock 2 3 cache)
cache_find_victim_clock-Chosen_example =
    cache_find_victim_clock-Chosen 2 3 cache cache-IsClock (omega arith)

cache_find_victim_clock_m-Chosen_example : Chosen 2 cache (cache_find_victim_clock_m 2 3 cache)
cache_find_victim_clock_m-Chosen_example =
    cache_find_victim_clock_m-Chosen 2 3 cache cache-IsClock (omega arith)

select_victim_entry-Evicted_example :
    Evicted frame_of_page tlb_config cache_config 4 cache
      (select_victim_entry tlb_config cache_config 4 frame_of_page cache empty_tlb)
select_victim_entry-Evicted_example =
    select_victim_entry-Evicted frame_of_page tlb_config cache_config 4 cache empty_tlb tlb-IsValid
      cache-IsClock

-- The two dirty pages are written where they are.
both_written : owed 4 frame_of_page cache.cache ≡ (56, 4 ∷ 4 ∷ []) ∷ (60, 5 ∷ 5 ∷ []) ∷ []
unfolding owed
both_written = refl

abbrev fetch : ℕ → List ℕ
fetch a = a ∷ 7 ∷ []

-- Page 2 is loaded for the logical address 9, from an address inside it.
cache_load_page-walk_example :
    let (c', s') = cache_load_page tlb_config 4 frame_of_page fetch 9 1 0 cache empty_tlb in
    (c'.cache ≡ loaded_entry fetch 2 1 49 ∷ entry 5 true true ∷ [])
    × (c'.clock_pointer ≡ 1)
    × IsValid frame_of_page tlb_config s'
unfolding int32_div int32_mod
cache_load_page-walk_example =
    cache_load_page-walk frame_of_page fetch tlb_config 4 9 1 0 cache empty_tlb tlb-IsValid

operations-IsClock_example :
    let (writes, cleaned, s') =
      mmu_process_cleanup tlb_config cache_config 4 frame_of_page cache empty_tlb in
    IsClock 2 (init_cache 2 4 5 1 true true)
    × IsClock 2 (cache_find_entry 5 cache).1
    × IsClock 2 (cache_load_page tlb_config 4 frame_of_page fetch 9 1 0 cache empty_tlb).0
    × IsClock 2 cleaned
    × ((r : Selection) × (select_victim_entry tlb_config cache_config 4 frame_of_page cache
            empty_tlb
          ≡ some r)
        × IsClock 2 r.cache)
operations-IsClock_example =
    operations-IsClock cache_config 4 5 1 true true tlb_config frame_of_page fetch 9 0 cache
      empty_tlb cache-IsClock
