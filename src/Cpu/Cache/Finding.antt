-- ===== src/Cpu/Cache/Finding.antt =====
-- What `cache_find_entry` of cpu/src/mmu.c finds, and the invariant of the clock pointer.
use tpsoaprobado.Base.{
  ℕ, suc, ◌+◌, ◌≡◌, ◌⊎◌, inl, inr, refl, ap, ◌∙◌, Bool, true, false, Option, none, some, List, [],
  ◌∷◌, All, length, length-set, length-replicate, get_elem?, set, arith, Bool-cases,
}
use tpsoaprobado.Cpu.Tlb.{TlbConfig, Tlb}
use tpsoaprobado.Cpu.Cache.{
  CacheEntry, Cache, init_cache, with_use, is_frame, find_and_use, cache_find_entry,
}
use tpsoaprobado.Cpu.Cache.Clock.{IsClock}
use tpsoaprobado.Cpu.Cache.Writeback.{cache_load_page}

-- How a search over the entries ends, with the index that it started from: no valid entry has the
-- page, and nothing changes; or one has, and its use bit is set.
abbrev pub FindEnd : ℕ → List CacheEntry → ℕ → Option ℕ → List CacheEntry → Type 0
FindEnd page_number es i found es' =
    ((found ≡ none) × (es' ≡ es) × All (λ e. is_frame page_number e ≡ false) es)
    ⊎ ((j : ℕ) × (e : CacheEntry) × (found ≡ some (i + j))
        × (get_elem? es j ≡ some e)
        × (is_frame page_number e ≡ true)
        × (es' ≡ set es j (with_use true e)))

length-find_and_use :
    (page_number : ℕ) (es : List CacheEntry) (i : ℕ)
    → length (find_and_use page_number es i).1 ≡ length es
unfolding find_and_use
length-find_and_use page_number [] i = refl
length-find_and_use page_number (e ∷ es) i = elim (Bool-cases (is_frame page_number e)) [
  | inl it ↦ rw it refl
  | inr other ↦ rw other (ap suc (length-find_and_use page_number es (suc i)))
]

-- If the pointer is in a cache of `count` entries, this is so after the search for a page and after
-- the load of a page in the place of any victim; a cache of `count` entries starts so.
pub copies-IsClock :
    (count page_size page pid : ℕ) (used modified : Bool) (config : TlbConfig) (walk : ℕ → ℕ → ℕ)
    (fetch : ℕ → List ℕ) (logic_dir victim : ℕ) (c : Cache) (s : Tlb)
    → IsClock count c
    → IsClock count (init_cache count page_size page pid used modified)
      × IsClock count (cache_find_entry page c).1
      × IsClock count (cache_load_page config page_size walk fetch logic_dir pid victim c s).0
unfolding init_cache cache_find_entry cache_load_page
copies-IsClock count page_size page pid used modified config walk fetch logic_dir victim c s h = (
  record { size = length-replicate count _; pointer = omega (arith, h.pointer) },
  record { size = length-find_and_use page c.cache 0 ∙ h.size; pointer = h.pointer },
  record { size = length-set c.cache victim _ ∙ h.size; pointer = h.pointer },
)
