-- ===== src/Cpu/Cache/Cleanup.antt =====
-- What the clean-up of cpu/src/mmu.c writes, and what choosing a victim leaves.
use tpsoaprobado.Base.{
  ℕ, ◌+◌, ◌*◌, ◌%◌, ◌^◌, ◌≡◌, ap, ◌∙◌, List, [], ◌∷◌, ◌++◌, if◌then◌else◌, arith,
}
use tpsoaprobado.Cpu.Tlb.{TlbConfig, Tlb}
use tpsoaprobado.Cpu.Mmu.{mmu_translate_address_with_page_number}
use tpsoaprobado.Cpu.Mmu.Translation.{IsValid, frame_of-walk}
use tpsoaprobado.Cpu.Cache.{CacheEntry, Cache}
use tpsoaprobado.Cpu.Cache.Writeback.{WriteRequest, modified_region, is_dirty}

-- What the entries of a cache owe to the memory, by the page tables alone.
unfoldable pub owed : ℕ → (ℕ → ℕ → ℕ) → List CacheEntry → List WriteRequest
unfolding modified_region
owed page_size walk [] = []
owed page_size walk (e ∷ es) =
    (if is_dirty e then modified_region ((walk e.page e.pid * page_size) % 2 ^ 32) e else [])
    ++ owed page_size walk es

pub page_address :
    (walk : ℕ → ℕ → ℕ) (config : TlbConfig) (page_size page pid : ℕ) (s : Tlb)
    → IsValid walk config s
    → let (address, s') = mmu_translate_address_with_page_number config page_size walk page pid s in
      (address ≡ (walk page pid * page_size) % 2 ^ 32) × IsValid walk config s'
unfolding mmu_translate_address_with_page_number
page_address walk config page_size page pid s h =
    let (same, valid) = frame_of-walk walk config page pid s h in
    (ap (λ n. n % 2 ^ 32) (plus-zero _) ∙ ap (λ f. (f * page_size) % 2 ^ 32) same, valid)
  where
    plus-zero : (n : ℕ) → n + 0 ≡ n
    plus-zero n = omega arith
