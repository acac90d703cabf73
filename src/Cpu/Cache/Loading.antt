-- ===== src/Cpu/Cache/Loading.antt =====
-- What `cache_load_page` of cpu/src/mmu.c puts in the cache.
use tpsoaprobado.Base.{
  true, false, int32_div, int32_mod, ℕ, ◌+◌, ◌*◌, ◌%◌, ◌^◌, ◌≡◌, inl, inr, refl, ap, ◌==◌, List,
  set, if◌then◌else◌, Bool-cases,
}
use tpsoaprobado.Cpu.Tlb.{TlbConfig, Tlb}
use tpsoaprobado.Cpu.Mmu.{mmu_translate_address}
use tpsoaprobado.Cpu.Mmu.Translation.{IsValid, mmu_translate_address-walk}
use tpsoaprobado.Cpu.Cache.{Cache}
use tpsoaprobado.Cpu.Cache.Writeback.{loaded_entry, cache_load_page}

-- The address that a page is loaded from, with the buffer or without.
loading_address :
    (walk : ℕ → ℕ → ℕ) (config : TlbConfig) (page_size logic_dir pid : ℕ) (s : Tlb)
    → IsValid walk config s
    → let physic =
        (walk (int32_div logic_dir page_size) pid * page_size + int32_mod logic_dir page_size)
        % 2 ^ 32 in
      let (address, s') =
        (if config.entry_count == 0
          then (physic, s)
          else mmu_translate_address config page_size walk logic_dir pid s) in
      (address ≡ physic) × IsValid walk config s'
loading_address walk config page_size logic_dir pid s h =
    elim (Bool-cases (config.entry_count == 0)) [
      | inl no_tlb ↦ rw no_tlb (refl, h)
      | inr some_tlb ↦
          rw some_tlb (mmu_translate_address-walk walk config page_size logic_dir pid s h)
    ]

-- With a valid buffer, the page of a logical address takes the place of the victim, and nothing
-- else changes in the cache: it is valid, in use and clean, and its bytes are those that the memory
-- has from the physical address on, the offset included; and the buffer stays valid.
pub cache_load_page-walk :
    (walk : ℕ → ℕ → ℕ) (fetch : ℕ → List ℕ) (config : TlbConfig)
    (page_size logic_dir pid victim : ℕ) (c : Cache) (s : Tlb)
    → IsValid walk config s
    → let (c', s') = cache_load_page config page_size walk fetch logic_dir pid victim c s in
      let page = int32_div logic_dir page_size in
      (c'.cache
        ≡ set c.cache victim (record {
          is_valid = true;
          page = page;
          pid = pid;
          content = fetch ((walk page pid * page_size + int32_mod logic_dir page_size) % 2 ^ 32);
          use_bit = true;
          modified_bit = false;
          modified_start = 0;
          modified_end = 0;
        }))
      × (c'.clock_pointer ≡ c.clock_pointer)
      × IsValid walk config s'
unfolding cache_load_page
cache_load_page-walk walk fetch config page_size logic_dir pid victim c s h =
    let (same, valid) = loading_address walk config page_size logic_dir pid s h in
    (
      ap (λ a. set c.cache victim (loaded_entry fetch (int32_div logic_dir page_size) pid a)) same,
      refl,
      valid,
    )
