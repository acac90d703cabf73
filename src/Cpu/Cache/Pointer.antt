-- ===== src/Cpu/Cache/Pointer.antt =====
-- The clock pointer of the page cache of cpu/src/mmu.c stays in the cache.
use tpsoaprobado.Base.{
  ℕ, ◌≡◌, inl, inr, refl, ap, ◌∙◌, Bool, ◌==◌, some, List, [], ◌∷◌, length, length-set, set, suc,
  Bool-cases,
}
use tpsoaprobado.Cpu.Tlb.{TlbConfig, Tlb}
use tpsoaprobado.Cpu.Cache.{CacheEntry, CacheConfig, Cache, init_cache, cache_find_entry}
use tpsoaprobado.Cpu.Cache.Clock.{IsClock}
use tpsoaprobado.Cpu.Cache.Finding.{copies-IsClock}
use tpsoaprobado.Cpu.Cache.Selection.{find_victim-Chosen}
use tpsoaprobado.Cpu.Cache.Writeback.{
  Selection, is_dirty, blank, take_victim, take_found, write_back_or_fail, select_victim_entry,
  writeback_if_dirty, writeback_all, mmu_process_cleanup, cache_load_page,
}

set-IsClock :
    (count i : ℕ) (e : CacheEntry) (c : Cache)
    → IsClock count c
    → IsClock count (record { cache = set c.cache i e; clock_pointer = c.clock_pointer })
set-IsClock count i e c h = record { size = length-set c.cache i e ∙ h.size; pointer = h.pointer }

write_back_or_fail-IsClock :
    (count page_size i : ℕ) (e : CacheEntry) (c : Cache) (r : ℕ × Tlb)
    → IsClock count c
    → IsClock count (write_back_or_fail page_size i e c r).cache
write_back_or_fail-IsClock count page_size i e c (address, s) h = elim (Bool-cases (address == 0)) [
  | inl fails ↦ rw fails h
  | inr there ↦ rw there (set-IsClock count i (blank page_size e) c h)
]

take_victim-IsClock :
    (count : ℕ) (config : TlbConfig) (page_size : ℕ) (walk : ℕ → ℕ → ℕ) (s : Tlb) (i : ℕ)
    (c : Cache) (e : CacheEntry)
    → IsClock count c
    → (r : Selection) × (take_victim config page_size walk s i c (some e) ≡ some r)
      × IsClock count r.cache
take_victim-IsClock count config page_size walk s i c e h = elim (Bool-cases (is_dirty e)) [
  | inr clean ↦ rw clean (_, refl, h)
  | inl dirty ↦ rw dirty (elim (Bool-cases (config.entry_count == 0)) [
    | inl no_tlb ↦ rw no_tlb (_, refl, set-IsClock count i (blank page_size e) c h)
    | inr some_tlb ↦ rw some_tlb (_, refl, write_back_or_fail-IsClock count page_size i e c _ h)
  ])
]

select_victim_entry-IsClock :
    (config : TlbConfig) (cache_config : CacheConfig) (page_size : ℕ) (walk : ℕ → ℕ → ℕ) (c : Cache)
    (s : Tlb)
    → IsClock cache_config.entry_count c
    → (r : Selection) × (select_victim_entry config cache_config page_size walk c s ≡ some r)
      × IsClock cache_config.entry_count r.cache
unfolding select_victim_entry
select_victim_entry-IsClock config cache_config page_size walk c s clock =
    let h = find_victim-Chosen cache_config cache_config.replacement_algo c clock in
    let (r, taken, kept) =
      take_victim-IsClock cache_config.entry_count config page_size walk s h.victim h.after h.entry
        h.clock in
    (
      r,
      ap (take_found config page_size walk s) h.chosen
          ∙ ap (take_victim config page_size walk s h.victim h.after) h.there
          ∙ taken,
      kept,
    )

length-writeback_all :
    (config : TlbConfig) (page_size : ℕ) (walk : ℕ → ℕ → ℕ) (es : List CacheEntry) (s : Tlb)
    → let (writes, es', s') = writeback_all config page_size walk es s in length es' ≡ length es
unfolding writeback_all
length-writeback_all config page_size walk [] s = refl
length-writeback_all config page_size walk (e ∷ es) s =
    ap suc (
      length-writeback_all config page_size walk es
        (writeback_if_dirty config page_size walk e s).1)

mmu_process_cleanup-IsClock :
    (config : TlbConfig) (cache_config : CacheConfig) (page_size : ℕ) (walk : ℕ → ℕ → ℕ) (c : Cache)
    (s : Tlb)
    → IsClock cache_config.entry_count c
    → let (writes, c', s') = mmu_process_cleanup config cache_config page_size walk c s in
      IsClock cache_config.entry_count c'
unfolding mmu_process_cleanup
mmu_process_cleanup-IsClock config cache_config page_size walk c s h =
    elim (Bool-cases (cache_config.entry_count == 0)) [
      | inl no_cache ↦ rw no_cache h
      | inr some_cache ↦ rw some_cache (record {
        size = length-writeback_all config page_size walk c.cache s ∙ h.size;
        pointer = h.pointer;
      })
    ]

-- From a cache of the configured size whose clock pointer is in it, this is so after every operation
-- on the cache: a search, the load of a page, the clean-up, and the selection of a victim, which by
-- either clock has a result. It is so for the cache at the start as well.
pub operations-IsClock :
    (cache_config : CacheConfig) (page_size page pid : ℕ) (used modified : Bool)
    (config : TlbConfig) (walk : ℕ → ℕ → ℕ) (fetch : ℕ → List ℕ) (logic_dir victim : ℕ) (c : Cache)
    (s : Tlb)
    → IsClock cache_config.entry_count c
    → let (writes, cleaned, s') = mmu_process_cleanup config cache_config page_size walk c s in
      IsClock cache_config.entry_count
        (init_cache cache_config.entry_count page_size page pid used modified)
      × IsClock cache_config.entry_count (cache_find_entry page c).1
      × IsClock cache_config.entry_count
          (cache_load_page config page_size walk fetch logic_dir pid victim c s).0
      × IsClock cache_config.entry_count cleaned
      × ((r : Selection) × (select_victim_entry config cache_config page_size walk c s ≡ some r)
          × IsClock cache_config.entry_count r.cache)
operations-IsClock cache_config page_size page pid used modified config walk fetch logic_dir victim
      c s h =
    let (init, found, loaded) =
      copies-IsClock cache_config.entry_count page_size page pid used modified config walk fetch
        logic_dir victim c s h in
    (
      init,
      found,
      loaded,
      mmu_process_cleanup-IsClock config cache_config page_size walk c s h,
      select_victim_entry-IsClock config cache_config page_size walk c s h,
    )
